-- ===== src/Config/Keys.antt =====
-- src/config.rs: virtual keys, their entries in the file, and the loop that resolves them.
use patchbay.Common.{
  ◌≡◌, refl, inl, inr, true, false, none, some, List, [], ◌∷◌, map, arith, ok, Option-cases,
  Result-cases, is_empty,
}
use patchbay.Common.Texts.{Text, contains}
use patchbay.Common.Fresh.{DistinctFrom}
use patchbay.Common.Maps.{Map, get, insert, get-insert}
use patchbay.Config.{VirtualKey, RawVirtualKey}
use patchbay.Config.Load.{Env, is_valid_env_name, resolve_virtual_key, resolve_virtual_keys}

-- `k` is the entry `r` of the file, checked and resolved in `env`.
pub record IsResolvedKey (env : Env) (r : RawVirtualKey) (k : VirtualKey) : Type 0 where
  pub same_name : k.name ≡ r.name
  pub named : is_empty k.name ≡ false
  pub valid_env : is_valid_env_name r.key_env ≡ true
  pub key_set : env r.key_env ≡ some k.key.value
  pub key_nonempty : is_empty k.key.value ≡ false
  pub same_enforce : k.enforce_private ≡ r.enforce_private

resolve_virtual_key-IsResolvedKey :
    {F : Type 0} (env : Env) (names : List Text) (secrets : Map Text) (r : RawVirtualKey)
    {k : VirtualKey}
    → resolve_virtual_key {F = F} env names secrets r ≡ ok k
    → IsResolvedKey env r k × (contains names r.name ≡ false) × (get secrets k.key.value ≡ none)
unfolding resolve_virtual_key
resolve_virtual_key-IsResolvedKey env names secrets r {k} h = elim (Option-cases (env r.key_env)) [
  | inl unset ↦ ground arith
  | inr (value, set) ↦
      let e : k.key.value ≡ value = ground arith in
      (
        record {
          same_name = ground arith;
          named = ground arith;
          valid_env = ground arith;
          key_set = ground arith;
          key_nonempty = ground arith;
          same_enforce = ground arith;
        },
        ground arith,
        rw e (ground arith),
      )
]

abbrev pub AllResolvedKeys : Env → List RawVirtualKey → List VirtualKey → Type 0
AllResolvedKeys env [] [] = Unit
AllResolvedKeys env (r ∷ rs) (k ∷ ks) = IsResolvedKey env r k × AllResolvedKeys env rs ks
AllResolvedKeys env _ _ = ⊥

-- `secrets` has the values of `seen` for its keys, and no others.
abbrev SecretsOf : Map Text → List Text → Type 0
SecretsOf secrets seen = (t : Text) → get secrets t ≡ none → contains seen t ≡ false

SecretsOf-insert :
    (secrets : Map Text) (seen : List Text) (s name : Text)
    → SecretsOf secrets seen
    → SecretsOf (insert secrets s name) (s ∷ seen)
SecretsOf-insert secrets seen s name h t missing = ground (arith, get-insert secrets s t name, h t)

pub resolve_virtual_keys-AllResolvedKeys :
    {F : Type 0} (env : Env) (names seen : List Text) (secrets : Map Text) (rs : List RawVirtualKey)
    {ks : List VirtualKey}
    → SecretsOf secrets seen
    → resolve_virtual_keys {F = F} env names secrets rs ≡ ok ks
    → AllResolvedKeys env rs ks
      × DistinctFrom names (map (λ k. k.name) ks)
      × DistinctFrom seen (map (λ k. k.key.value) ks)
unfolding resolve_virtual_keys
resolve_virtual_keys-AllResolvedKeys env names seen secrets [] {ks = []} s h = (tt, tt, tt)
resolve_virtual_keys-AllResolvedKeys env names seen secrets [] {ks = k ∷ ks} s h = cc
resolve_virtual_keys-AllResolvedKeys {F} env names seen secrets (r ∷ rs) {ks} s h =
    elim (Result-cases (resolve_virtual_key {F = F} env names secrets r)) [
      | inr (e, failed) ↦ ground arith
      | inl (k, made) ↦
          let secrets' = insert secrets k.key.value r.name in
          elim (Result-cases (resolve_virtual_keys {F = F} env (r.name ∷ names) secrets' rs)) [
            | inr (e, failed) ↦ ground arith
            | inl (rest, later) ↦
                let joined : ks ≡ k ∷ rest = ground arith in
                let (resolved, new, fresh) =
                  resolve_virtual_key-IsResolvedKey env names secrets r made in
                let (all, by_name, by_secret) =
                  resolve_virtual_keys-AllResolvedKeys env (r.name ∷ names) (k.key.value ∷ seen)
                    secrets' rs (SecretsOf-insert secrets seen k.key.value r.name s) later in
                rw joined (
                  (resolved, all),
                  (rw resolved.same_name new, rw resolved.same_name by_name),
                  (s _ fresh, by_secret),
                )
          ]
    ]

-- The other direction: `seen` holds every key of `secrets`.
abbrev SecretsIn : Map Text → List Text → Type 0
SecretsIn secrets seen = (t : Text) → contains seen t ≡ false → get secrets t ≡ none

SecretsIn-insert :
    (secrets : Map Text) (seen : List Text) (s name : Text)
    → SecretsIn secrets seen
    → SecretsIn (insert secrets s name) (s ∷ seen)
SecretsIn-insert secrets seen s name h t new = ground (arith, get-insert secrets s t name, h t)

resolve_virtual_key-of_IsResolvedKey :
    {F : Type 0} (env : Env) (names : List Text) (secrets : Map Text) (r : RawVirtualKey)
    {k : VirtualKey}
    → IsResolvedKey env r k
    → contains names r.name ≡ false
    → get secrets k.key.value ≡ none
    → resolve_virtual_key {F = F} env names secrets r ≡ ok k
unfolding resolve_virtual_key
resolve_virtual_key-of_IsResolvedKey env names secrets r h new fresh = ground arith

pub resolve_virtual_keys-of_AllResolvedKeys :
    {F : Type 0} (env : Env) (names seen : List Text) (secrets : Map Text) (rs : List RawVirtualKey)
    {ks : List VirtualKey}
    → SecretsIn secrets seen
    → AllResolvedKeys env rs ks
    → DistinctFrom names (map (λ k. k.name) ks)
    → DistinctFrom seen (map (λ k. k.key.value) ks)
    → resolve_virtual_keys {F = F} env names secrets rs ≡ ok ks
unfolding resolve_virtual_keys
resolve_virtual_keys-of_AllResolvedKeys env names seen secrets [] {ks = []} s h d t = refl
resolve_virtual_keys-of_AllResolvedKeys env names seen secrets [] {ks = k ∷ ks} s h d t = absurd h
resolve_virtual_keys-of_AllResolvedKeys env names seen secrets (r ∷ rs) {ks = []} s h d t = absurd h
resolve_virtual_keys-of_AllResolvedKeys {F} env names seen secrets (r ∷ rs) {ks = k ∷ ks} s h d t =
    let e = h.0.same_name in
    let new : contains names r.name ≡ false = rw e at d.0 in
    let rest : DistinctFrom (r.name ∷ names) (map (λ k. k.name) ks) = rw e at d.1 in
    let secrets' = insert secrets k.key.value r.name in
    ground (
      arith,
      resolve_virtual_key-of_IsResolvedKey {F = F} env names secrets r h.0 new (s _ t.0),
      resolve_virtual_keys-of_AllResolvedKeys {F = F} env (r.name ∷ names) (k.key.value ∷ seen)
          secrets' rs (SecretsIn-insert secrets seen k.key.value r.name s) h.1 rest t.1,
    )
