-- ===== src/Config/Backends.antt =====
-- src/config.rs: backends, their entries in the file, and the loop that resolves them.
use patchbay.Common.{
  ◌≡◌, refl, inl, inr, true, false, ◌||◌, Option, none, some, List, [], ◌∷◌, map, arith, ok,
  Option-cases, Result-cases, is_empty, any,
}
use patchbay.Common.Texts.{Text, codes, contains, starts_with, trim_end_matches}
use patchbay.Common.Fresh.{DistinctFrom}
use patchbay.Config.{Secret, Backend, RawBackend}
use patchbay.Config.Load.{
  Env, is_valid_env_name, resolve_api_key, resolve_backend, resolve_backends,
}

-- The key of a backend: none is asked for, or the variable named is set.
abbrev pub KeyResolved : Env → Option Text → Option Secret → Type 0
KeyResolved env none key = key ≡ none
KeyResolved env (some var) key =
    (is_valid_env_name var ≡ true) × (s : Secret) × (key ≡ some s) × (env var ≡ some s.value)

-- `b` is the entry `r` of the file, checked and resolved in `env`.
pub record IsResolved (env : Env) (r : RawBackend) (b : Backend) : Type 0 where
  pub url : Text
  pub same_name : b.name ≡ r.name
  pub named : is_empty b.name ≡ false
  pub valid_env : is_valid_env_name r.base_url_env ≡ true
  pub url_set : env r.base_url_env ≡ some url
  pub is_web : (starts_with url (codes "http://") || starts_with url (codes "https://")) ≡ true
  pub trimmed : b.base_url ≡ trim_end_matches url b'/'
  pub key_resolved : KeyResolved env r.api_key_env b.api_key
  pub same_models : b.models ≡ r.models
  pub has_model : is_empty b.models ≡ false
  pub models_named : any is_empty b.models ≡ false
  pub same_tags : b.capability_tags ≡ r.capability_tags
  pub tags_named : any is_empty b.capability_tags ≡ false
  pub same_privacy : b.privacy ≡ r.privacy

resolve_api_key-KeyResolved :
    {F : Type 0} (env : Env) (name : Text) (var : Option Text) {key : Option Secret}
    → resolve_api_key {F = F} env name var ≡ ok key
    → KeyResolved env var key
unfolding resolve_api_key
resolve_api_key-KeyResolved env name none h = ground arith
resolve_api_key-KeyResolved env name (some var) {key} h = elim (Option-cases (env var)) [
  | inl unset ↦ ground arith
  | inr (value, set) ↦ (ground arith, record { value = value }, ground arith, set)
]

resolve_backend-IsResolved :
    {F : Type 0} (env : Env) (names : List Text) (r : RawBackend) {b : Backend}
    → resolve_backend {F = F} env names r ≡ ok b
    → IsResolved env r b × (contains names r.name ≡ false)
unfolding resolve_backend
resolve_backend-IsResolved {F} env names r {b} h = elim (Option-cases (env r.base_url_env)) [
  | inl unset ↦ ground arith
  | inr (url, set) ↦ elim (Result-cases (resolve_api_key {F = F} env r.name r.api_key_env)) [
    | inl (key, got) ↦ (
      record {
        url = url;
        same_name = ground arith;
        named = ground arith;
        valid_env = ground arith;
        url_set = set;
        is_web = ground arith;
        trimmed = ground arith;
        key_resolved =
            let e : b.api_key ≡ key = ground arith in
            rw e (resolve_api_key-KeyResolved env r.name r.api_key_env got);
        same_models = ground arith;
        has_model = ground arith;
        models_named = ground arith;
        same_tags = ground arith;
        tags_named = ground arith;
        same_privacy = ground arith;
      },
      ground arith,
    )
    | inr (e, failed) ↦ ground arith
  ]
]

abbrev pub AllResolved : Env → List RawBackend → List Backend → Type 0
AllResolved env [] [] = Unit
AllResolved env (r ∷ rs) (b ∷ bs) = IsResolved env r b × AllResolved env rs bs
AllResolved env _ _ = ⊥

pub AllResolved-is_empty :
    (env : Env) (rs : List RawBackend) (bs : List Backend)
    → AllResolved env rs bs
    → is_empty rs ≡ false
    → is_empty bs ≡ false
AllResolved-is_empty env [] bs h ne = cc
AllResolved-is_empty env (r ∷ rs) [] h ne = absurd h
AllResolved-is_empty env (r ∷ rs) (b ∷ bs) h ne = refl

pub is_empty-AllResolved :
    (env : Env) (rs : List RawBackend) (bs : List Backend)
    → AllResolved env rs bs
    → is_empty bs ≡ false
    → is_empty rs ≡ false
is_empty-AllResolved env [] [] h ne = cc
is_empty-AllResolved env [] (b ∷ bs) h ne = absurd h
is_empty-AllResolved env (r ∷ rs) bs h ne = refl

pub resolve_backends-AllResolved :
    {F : Type 0} (env : Env) (names : List Text) (rs : List RawBackend) {bs : List Backend}
    → resolve_backends {F = F} env names rs ≡ ok bs
    → AllResolved env rs bs × DistinctFrom names (map (λ b. b.name) bs)
unfolding resolve_backends
resolve_backends-AllResolved env names [] {bs = []} h = (tt, tt)
resolve_backends-AllResolved env names [] {bs = b ∷ bs} h = cc
resolve_backends-AllResolved {F} env names (r ∷ rs) {bs} h =
    elim (Result-cases (resolve_backend {F = F} env names r)) [
      | inr (e, failed) ↦ ground arith
      | inl (b, made) ↦ elim (Result-cases (resolve_backends {F = F} env (r.name ∷ names) rs)) [
        | inr (e, failed) ↦ ground arith
        | inl (rest, later) ↦
            let joined : bs ≡ b ∷ rest = ground arith in
            let (all, distinct) = resolve_backends-AllResolved env (r.name ∷ names) rs later in
            let (resolved, new) = resolve_backend-IsResolved env names r made in
            rw joined ((resolved, all), (rw resolved.same_name new, rw resolved.same_name distinct))
      ]
    ]

-- The other direction: an entry that meets the checks is resolved, to that backend.
resolve_api_key-of_KeyResolved :
    {F : Type 0} (env : Env) (name : Text) (var : Option Text) {key : Option Secret}
    → KeyResolved env var key
    → resolve_api_key {F = F} env name var ≡ ok key
unfolding resolve_api_key
resolve_api_key-of_KeyResolved env name none h = ground arith
resolve_api_key-of_KeyResolved env name (some var) h = ground arith

resolve_backend-of_IsResolved :
    {F : Type 0} (env : Env) (names : List Text) (r : RawBackend) {b : Backend}
    → IsResolved env r b
    → contains names r.name ≡ false
    → resolve_backend {F = F} env names r ≡ ok b
unfolding resolve_backend
resolve_backend-of_IsResolved {F} env names r {b} h new =
    ground (arith, resolve_api_key-of_KeyResolved {F = F} env r.name r.api_key_env h.key_resolved)

pub resolve_backends-of_AllResolved :
    {F : Type 0} (env : Env) (names : List Text) (rs : List RawBackend) {bs : List Backend}
    → AllResolved env rs bs
    → DistinctFrom names (map (λ b. b.name) bs)
    → resolve_backends {F = F} env names rs ≡ ok bs
unfolding resolve_backends
resolve_backends-of_AllResolved env names [] {bs = []} h d = refl
resolve_backends-of_AllResolved env names [] {bs = b ∷ bs} h d = absurd h
resolve_backends-of_AllResolved env names (r ∷ rs) {bs = []} h d = absurd h
resolve_backends-of_AllResolved {F} env names (r ∷ rs) {bs = b ∷ bs} h d =
    let e = h.0.same_name in
    let new : contains names r.name ≡ false = rw e at d.0 in
    let rest : DistinctFrom (r.name ∷ names) (map (λ b. b.name) bs) = rw e at d.1 in
    ground (
      arith,
      resolve_backend-of_IsResolved {F = F} env names r h.0 new,
      resolve_backends-of_AllResolved {F = F} env (r.name ∷ names) rs h.1 rest,
    )
