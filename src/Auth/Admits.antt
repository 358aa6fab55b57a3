-- ===== src/Auth/Admits.antt =====
-- Which requests the extractor of src/auth.rs admits, and as whom.
use patchbay.Common.{
  ◌≡◌, ◌↔◌, refl, ap, sym, ◌∙◌, ◌⊎◌, inl, inr, false, Option, none, some, List, [], ◌∷◌, ◌++◌, map,
  arith, ok, is_empty, In, Distinct, Option-cases, Bool-cases, if◌then◌else◌,
}
use patchbay.Common.Texts.{Text, codes, strip_prefix, strip_prefix_iff, text_eq, text_eq_iff}
use patchbay.Common.Maps.{Map, get, insert, get-insert, get-empty}
use patchbay.Config.{VirtualKey, expose}
use patchbay.Auth.{
  KeyIdentity, KeyStore, identity_of, collect, from_virtual_keys, is_open, authenticate, anonymous,
  from_request_parts,
}

-- A token is looked up among the keys from the last to the first, then in what was there before.
abbrev owner : List VirtualKey → Text → Option KeyIdentity → Option KeyIdentity
owner [] token before = before
owner (vk ∷ vks) token before =
    owner vks token (if text_eq (expose vk.key) token then some (identity_of vk) else before)

get-collect :
    (m : Map KeyIdentity) (vks : List VirtualKey) (token : Text)
    → get (collect m vks) token ≡ owner vks token (get m token)
unfolding collect
get-collect m [] token = refl
get-collect m (vk ∷ vks) token =
    get-collect (insert m (expose vk.key) (identity_of vk)) vks token
    ∙ ap (owner vks token) (get-insert m (expose vk.key) token (identity_of vk))

-- One of the keys has the token, and `id` is its identity.
abbrev pub Holds : List VirtualKey → Text → KeyIdentity → Type 0
Holds vks token id = (vk : VirtualKey) × In vk vks × (expose vk.key ≡ token) × (identity_of vk ≡ id)

Holds-cons :
    (vk : VirtualKey) (vks : List VirtualKey) (token : Text) (id : KeyIdentity)
    → Holds vks token id
    → Holds (vk ∷ vks) token id
Holds-cons vk vks token id (k, m, e, i) = (k, inr m, e, i)

Holds-head :
    (vk : VirtualKey) (vks : List VirtualKey) (token : Text) (before : Option KeyIdentity)
    (id : KeyIdentity)
    → (if text_eq (expose vk.key) token then some (identity_of vk) else before) ≡ some id
    → (before ≡ some id) ⊎ Holds (vk ∷ vks) token id
Holds-head vk vks token before id h = elim (Bool-cases (text_eq (expose vk.key) token)) [
  | inl same ↦ inr (vk, inl refl, (text_eq_iff (expose vk.key) token).0 same, ground arith)
  | inr differs ↦ inl (ground arith)
]

owner-Holds :
    (vks : List VirtualKey) (token : Text) (before : Option KeyIdentity) (id : KeyIdentity)
    → owner vks token before ≡ some id
    → (before ≡ some id) ⊎ Holds vks token id
owner-Holds [] token before id h = inl h
owner-Holds (vk ∷ vks) token before id h = elim (owner-Holds vks token _ id h) [
  | inl head ↦ Holds-head vk vks token before id head
  | inr later ↦ inr (Holds-cons vk vks token id later)
]

abbrev secret : VirtualKey → Text
secret k = k.key.value

owner-other :
    (vks : List VirtualKey) (token : Text) (before : Option KeyIdentity)
    → ¬ In token (map secret vks)
    → owner vks token before ≡ before
owner-other [] token before h = refl
owner-other (vk ∷ vks) token before h =
    owner-other vks token _ (λ m. h (inr m)) ∙ elim (Bool-cases (text_eq (expose vk.key) token)) [
      | inl same ↦ absurd (h (inl ((text_eq_iff (expose vk.key) token).0 same)))
      | inr differs ↦ rw differs
    ]

Holds-owner :
    (vks : List VirtualKey) (token : Text) (before : Option KeyIdentity) (id : KeyIdentity)
    (vk : VirtualKey)
    → Distinct (map secret vks)
    → In vk vks
    → expose vk.key ≡ token
    → identity_of vk ≡ id
    → owner vks token before ≡ some id
Holds-owner [] token before id vk d m e i = absurd m
Holds-owner (k ∷ vks) token before id vk d (inl same) e i =
    let here : secret k ≡ token = ap secret same ∙ e in
    owner-other vks token _ (rw here at d.0)
    ∙ rw ((text_eq_iff (secret k) token).1 here) (ap some (ap identity_of same ∙ i))
Holds-owner (k ∷ vks) token before id vk d (inr m) e i = Holds-owner vks token _ id vk d.1 m e i

module _ (vks : List VirtualKey) (distinct : Distinct (map secret vks)) where
  -- When no two virtual keys share a secret, a token is accepted, as a given name and with a given
  -- privacy flag, exactly when a virtual key has that secret, name and flag.
  pub authenticate_iff :
      (token : Text) (id : KeyIdentity)
      → (authenticate (from_virtual_keys vks) token ≡ some id) ↔ Holds vks token id
  unfolding authenticate from_virtual_keys
  authenticate_iff token id = (
    λ h. elim (owner-Holds vks token none id (sym by_owner ∙ h)) [
      | inl before ↦ absurd (cc)
      | inr found ↦ found
    ],
    λ h. by_owner ∙ Holds-owner vks token none id h.0 distinct h.1 h.2 h.3,
  )
    where
      by_owner : get (collect [] vks) token ≡ owner vks token none
      by_owner = get-collect [] vks token ∙ ap (owner vks token) (get-empty token)

collect-is_empty :
    (m : Map KeyIdentity) (vks : List VirtualKey)
    → is_empty m ≡ false
    → is_empty (collect m vks) ≡ false
unfolding collect
collect-is_empty m [] h = h
collect-is_empty [] (vk ∷ vks) h = cc
collect-is_empty ((j, w) ∷ m) (vk ∷ vks) h =
    collect-is_empty (insert ((j, w) ∷ m) (expose vk.key) (identity_of vk)) vks
      (unfold insert in ground arith)

is_open-from_virtual_keys : (vks : List VirtualKey) → is_open (from_virtual_keys vks) ≡ is_empty vks
unfolding is_open from_virtual_keys collect
is_open-from_virtual_keys [] = refl
is_open-from_virtual_keys (vk ∷ vks) = collect-is_empty _ vks (unfold insert in refl)

-- Who a request is admitted as: anonymous when there are no virtual keys, and otherwise the key
-- whose secret stands behind "Bearer " in the header.
abbrev pub AdmittedAs : List VirtualKey → Option Text → KeyIdentity → Type 0
AdmittedAs [] authorization id = anonymous ≡ id
AdmittedAs (vk ∷ vks) authorization id =
    (token : Text) × (authorization ≡ some (codes "Bearer " ++ token)) × Holds (vk ∷ vks) token id

admitted_token :
    (store : KeyStore) (authorization : Option Text) (id : KeyIdentity)
    → is_open store ≡ false
    → from_request_parts store authorization ≡ ok id
    → (token : Text) × (authorization ≡ some (codes "Bearer " ++ token))
      × (authenticate store token ≡ some id)
unfolding from_request_parts
admitted_token store none id shut h = ground arith
admitted_token store (some header) id shut h =
    elim (Option-cases (strip_prefix (codes "Bearer ") header)) [
      | inl other ↦ ground arith
      | inr (token, stripped) ↦ (
        token,
        ap some ((strip_prefix_iff (codes "Bearer ") header token).0 stripped),
        ground arith,
      )
    ]

token_admitted :
    (store : KeyStore) (token : Text) (id : KeyIdentity)
    → is_open store ≡ false
    → authenticate store token ≡ some id
    → from_request_parts store (some (codes "Bearer " ++ token)) ≡ ok id
unfolding from_request_parts
token_admitted store token id shut h =
    let e = (strip_prefix_iff (codes "Bearer ") (codes "Bearer " ++ token) token).1 refl in
    ground arith

-- When no two virtual keys share a secret, a request is admitted under an identity exactly when
-- there are no virtual keys and the identity is the anonymous one, which is not private, or its
-- header is "Bearer " and the secret of a key with that identity.
pub from_request_parts_iff :
    (vks : List VirtualKey) (authorization : Option Text) (id : KeyIdentity)
    → Distinct (map secret vks)
    → (from_request_parts (from_virtual_keys vks) authorization ≡ ok id)
      ↔ AdmittedAs vks authorization id
from_request_parts_iff [] authorization id d =
    let open_store = is_open-from_virtual_keys [] in
    (λ h. unfold from_request_parts in ground arith, λ h. unfold from_request_parts in ground arith)
from_request_parts_iff (vk ∷ vks) authorization id d =
    let store = from_virtual_keys (vk ∷ vks) in
    let shut = is_open-from_virtual_keys (vk ∷ vks) in
    (
      λ h.
          let (token, header, known) = admitted_token store authorization id shut h in
          (token, header, (authenticate_iff (vk ∷ vks) d token id).0 known),
      λ h. rw h.1 (token_admitted store h.0 id shut ((authenticate_iff (vk ∷ vks) d h.0 id).1 h.2)),
    )
