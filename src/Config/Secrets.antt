-- ===== src/Config/Secrets.antt =====
-- src/config.rs: loading with other secrets.
use patchbay.Common.{
  ◌≡◌, refl, inl, inr, Bool, true, false, Option, none, some, List, [], ◌∷◌, map, arith, Result, ok,
  err, Result-cases, Bool-cases, Option-cases, All, is_empty, if◌then◌else◌,
}
use patchbay.Common.Texts.{Text, text_eq}
use patchbay.Common.Maps.{Map, get, insert}
use patchbay.Common.Order.{Float64}
use patchbay.Config.{
  Secret, Backend, RawBackend, VirtualKey, RawVirtualKey, RawConfig, GatewayConfig,
}
use patchbay.Config.Load.{
  Env, Parsers, resolve_api_key, resolve_backend, resolve_backends, resolve_virtual_key,
  resolve_virtual_keys, resolve_policy, from_toml_str,
}

-- Another text for each secret; different secrets stay different, and only the empty one is empty.
pub record Renaming : Type 0 where
  pub to : Text → Text
  pub same : (a b : Text) → text_eq (to a) (to b) ≡ text_eq a b
  pub empty : (a : Text) → is_empty (to a) ≡ is_empty a

abbrev pub map_ok : {E A B : Type 0} → (A → B) → Result E A → Result E B
map_ok f (ok a) = ok (f a)
map_ok f (err e) = err e

abbrev pub map_some : {A B : Type 0} → (A → B) → Option A → Option B
map_some f none = none
map_some f (some a) = some (f a)

-- The variable of a secret is marked, and that of a URL is not.
pub record SeparatesBackend (is_secret : Text → Bool) (b : RawBackend) : Type 0 where
  pub url : is_secret b.base_url_env ≡ false
  pub key : (var : Text) → b.api_key_env ≡ some var → is_secret var ≡ true

abbrev pub SeparatesKey : (Text → Bool) → RawVirtualKey → Type 0
SeparatesKey is_secret k = is_secret k.key_env ≡ true

module _ (ρ : Renaming) where
  abbrev pub renamed : Secret → Secret
  renamed s = record { value = ρ.to s.value }

  abbrev pub renamed_backend : Backend → Backend
  renamed_backend b = record b { api_key = map_some renamed b.api_key }

  abbrev pub renamed_key : VirtualKey → VirtualKey
  renamed_key k = record k { key = renamed k.key }

  abbrev pub renamed_config :
      {Addr : Type 0} {F : Type 0} → GatewayConfig Addr F → GatewayConfig Addr F
  renamed_config cfg = record cfg {
    backends = map renamed_backend cfg.backends;
    virtual_keys = map renamed_key cfg.virtual_keys;
  }

  -- The environment in which the variables that `is_secret` marks have other values.
  abbrev pub renamed_env : (Text → Bool) → Env → Env
  renamed_env is_secret env var = if is_secret var then map_some ρ.to (env var) else env var

  renamed_secrets : Map Text → Map Text
  renamed_secrets [] = []
  renamed_secrets ((secret, name) ∷ m) = (ρ.to secret, name) ∷ renamed_secrets m

  get-renamed_secrets :
      (m : Map Text) (secret : Text) → get (renamed_secrets m) (ρ.to secret) ≡ get m secret
  unfolding renamed_secrets get
  get-renamed_secrets [] secret = refl
  get-renamed_secrets ((t, name) ∷ m) secret =
      ground (arith, ρ.same t secret, get-renamed_secrets m secret)

  insert-renamed_secrets :
      (m : Map Text) (secret name : Text)
      → insert (renamed_secrets m) (ρ.to secret) name ≡ renamed_secrets (insert m secret name)
  unfolding renamed_secrets insert
  insert-renamed_secrets [] secret name = refl
  insert-renamed_secrets ((t, old) ∷ m) secret name = elim (Bool-cases (text_eq t secret)) [
    | inl here ↦ ground (arith, ρ.same t secret)
    | inr other ↦ ground (arith, ρ.same t secret, insert-renamed_secrets m secret name)
  ]

  module _ (is_secret : Text → Bool) (env : Env) {F : Type 0} where
    resolve_api_key-renamed :
        (name : Text) (var : Option Text)
        → ((v : Text) → var ≡ some v → is_secret v ≡ true)
        → resolve_api_key {F = F} (renamed_env is_secret env) name var
          ≡ map_ok (map_some renamed) (resolve_api_key {F = F} env name var)
    unfolding resolve_api_key
    resolve_api_key-renamed name none marked = refl
    resolve_api_key-renamed name (some var) marked =
        let secret = marked var refl in
        elim (Option-cases (env var)) [ inl unset ↦ ground arith | inr (value, set) ↦ ground arith ]

    resolve_backend-renamed :
        (names : List Text) (b : RawBackend)
        → SeparatesBackend is_secret b
        → resolve_backend {F = F} (renamed_env is_secret env) names b
          ≡ map_ok renamed_backend (resolve_backend {F = F} env names b)
    unfolding resolve_backend
    resolve_backend-renamed names b s =
        let key = resolve_api_key-renamed b.name b.api_key_env s.key in
        elim (Result-cases (resolve_api_key {F = F} env b.name b.api_key_env)) [
          | inl (k, got) ↦ ground (arith, key, s.url)
          | inr (e, failed) ↦ ground (arith, key, s.url)
        ]

    resolve_virtual_key-renamed :
        (names : List Text) (secrets : Map Text) (k : RawVirtualKey)
        → SeparatesKey is_secret k
        → resolve_virtual_key {F = F} (renamed_env is_secret env) names (renamed_secrets secrets) k
          ≡ map_ok renamed_key (resolve_virtual_key {F = F} env names secrets k)
    unfolding resolve_virtual_key
    resolve_virtual_key-renamed names secrets k marked = elim (Option-cases (env k.key_env)) [
      | inl unset ↦ ground arith
      | inr (value, set) ↦ ground (arith, ρ.empty value, get-renamed_secrets secrets value)
    ]

    resolve_backends-renamed :
        (names : List Text) (bs : List RawBackend)
        → All (SeparatesBackend is_secret) bs
        → resolve_backends {F = F} (renamed_env is_secret env) names bs
          ≡ map_ok (map renamed_backend) (resolve_backends {F = F} env names bs)
    unfolding resolve_backends
    resolve_backends-renamed names [] s = refl
    resolve_backends-renamed names (b ∷ bs) s =
        let first = resolve_backend-renamed names b s.0 in
        let rest = resolve_backends-renamed (b.name ∷ names) bs s.1 in
        elim (Result-cases (resolve_backend {F = F} env names b)) [
          | inr (e, failed) ↦ ground (arith, first)
          | inl (c, made) ↦ elim (Result-cases (resolve_backends {F = F} env (b.name ∷ names) bs)) [
            | inr (e, failed) ↦ ground (arith, first, rest)
            | inl (cs, later) ↦ ground (arith, first, rest)
          ]
        ]

    resolve_virtual_keys-renamed :
        (names : List Text) (secrets : Map Text) (ks : List RawVirtualKey)
        → All (SeparatesKey is_secret) ks
        → resolve_virtual_keys {F = F}
            (renamed_env is_secret env)
            names
            (renamed_secrets secrets)
            ks
          ≡ map_ok (map renamed_key) (resolve_virtual_keys {F = F} env names secrets ks)
    unfolding resolve_virtual_keys
    resolve_virtual_keys-renamed names secrets [] s = refl
    resolve_virtual_keys-renamed names secrets (k ∷ ks) s =
        let first = resolve_virtual_key-renamed names secrets k s.0 in
        elim (Result-cases (resolve_virtual_key {F = F} env names secrets k)) [
          | inr (e, failed) ↦ ground (arith, first)
          | inl (v, made) ↦
              let secrets' = insert secrets v.key.value k.name in
              let known = insert-renamed_secrets secrets v.key.value k.name in
              let rest = resolve_virtual_keys-renamed (k.name ∷ names) secrets' ks s.1 in
              let rest' : resolve_virtual_keys {F = F} (renamed_env is_secret env) (k.name ∷ names)
                    (insert (renamed_secrets secrets) (ρ.to v.key.value) k.name) ks
                  ≡ map_ok (map renamed_key)
                      (resolve_virtual_keys {F = F} env (k.name ∷ names) secrets' ks) =
                rw known rest in
              elim (Result-cases (resolve_virtual_keys {F = F} env (k.name ∷ names) secrets' ks)) [
                | inr (e, failed) ↦ ground (arith, first, rest')
                | inl (vs, later) ↦ ground (arith, first, rest')
              ]
        ]

  -- Loading looks at a secret only to see whether it is empty and whether it is that of another
  -- virtual key. For a text that parses to a file in which no variable of a secret is that of a base
  -- URL: from an environment that has other secrets, empty where they were empty and equal where they
  -- were equal, loading fails with the same error, or gives the same configuration with the other
  -- secrets in their places.
  pub from_toml_str-renamed :
      (x : Float64) (p : Parsers x.F) (is_secret : Text → Bool) (text : Text) (env : Env)
      (raw : RawConfig x.F)
      → p.parse_toml text ≡ ok raw
      → All (SeparatesBackend is_secret) raw.backends
      → All (SeparatesKey is_secret) raw.virtual_keys
      → from_toml_str x p text (renamed_env is_secret env)
        ≡ map_ok renamed_config (from_toml_str x p text env)
  unfolding from_toml_str
  from_toml_str-renamed x p is_secret text env raw parses bs ks =
      let backends = resolve_backends-renamed is_secret env {F = x.F} [] raw.backends bs in
      let keys : resolve_virtual_keys {F = x.F} (renamed_env is_secret env) [] [] raw.virtual_keys
          ≡ map_ok (map renamed_key) (resolve_virtual_keys {F = x.F} env [] [] raw.virtual_keys) =
        unfold renamed_secrets in
        (resolve_virtual_keys-renamed is_secret env {F = x.F} [] [] raw.virtual_keys ks) in
      elim (Result-cases (p.parse_addr raw.listen)) [
        | inr (e, bad) ↦ ground arith
        | inl (addr, good) ↦ elim (Result-cases (resolve_backends {F = x.F} env [] raw.backends)) [
          | inr (e, failed) ↦ ground (arith, backends)
          | inl (cs, made) ↦
              elim (Result-cases (resolve_virtual_keys {F = x.F} env [] [] raw.virtual_keys)) [
                | inr (e, failed) ↦ ground (arith, backends, keys)
                | inl (vs, keyed) ↦ elim (Result-cases (resolve_policy x raw.policy)) [
                  | inr (e, failed) ↦ ground (arith, backends, keys)
                  | inl (policy, chosen) ↦ ground (arith, backends, keys)
                ]
              ]
        ]
      ]
