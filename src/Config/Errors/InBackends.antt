-- ===== src/Config/Errors/InBackends.antt =====
-- src/config.rs: the errors of the loop over the backends.
use patchbay.Common.{
  ◌≡◌, inl, inr, true, false, ◌||◌, some, List, [], ◌∷◌, arith, err, Result-cases, Bool-cases,
  Option-cases, is_empty, any,
}
use mathlib.Core.Path.{subst}
use patchbay.Common.Texts.{Text, codes, contains, starts_with}
use patchbay.Config.{ConfigError, RawBackend}
use patchbay.Config.Load.{
  Env, is_valid_env_name, resolve_api_key, resolve_backend, resolve_backends,
}
use patchbay.Config.Errors.{
  Somewhere, backend_names, url_variable, key_variable, BackendDefect, unnamed, repeated,
  bad_variable, unset_variable, not_web, without_models, empty_model, empty_tag,
}

module _ {F : Type 0} where
  -- A defect for an error that is known.
  pub told : (D : ConfigError F → Type 0) {e e' : ConfigError F} → D e → e ≡ e' → D e'
  told D d same = subst D same d

  module _ (env : Env) where
    resolve_api_key-defect :
        (seen : List RawBackend) (r : RawBackend) {e : ConfigError F}
        → resolve_api_key env r.name r.api_key_env ≡ err e
        → BackendDefect env seen r e
    unfolding resolve_api_key
    resolve_api_key-defect seen r h = elim (Option-cases r.api_key_env) [
      | inl unasked ↦ ground arith
      | inr (var, asked) ↦ elim (Bool-cases (is_valid_env_name var)) [
        | inr bad ↦
            told (BackendDefect env seen r) (bad_variable (key_variable var asked) bad)
              (ground arith)
        | inl fine ↦ elim (Option-cases (env var)) [
          | inl unset ↦
              told (BackendDefect env seen r) (unset_variable (key_variable var asked) unset)
                (ground arith)
          | inr (value, set) ↦ ground arith
        ]
      ]
    ]

    -- From the key of a backend on.
    resolve_backend-later :
        (seen : List RawBackend) (r : RawBackend) (url : Text) {e : ConfigError F}
        → resolve_backend env (backend_names seen) r ≡ err e
        → is_empty r.name ≡ false
        → contains (backend_names seen) r.name ≡ false
        → is_valid_env_name r.base_url_env ≡ true
        → env r.base_url_env ≡ some url
        → (starts_with url (codes "http://") || starts_with url (codes "https://")) ≡ true
        → BackendDefect env seen r e
    unfolding resolve_backend
    resolve_backend-later seen r url h named new valid set web =
        elim (Result-cases (resolve_api_key {F = F} env r.name r.api_key_env)) [
          | inr (e', failed) ↦
              told (BackendDefect env seen r) (resolve_api_key-defect seen r failed) (ground arith)
          | inl (key, got) ↦ elim (Bool-cases (is_empty r.models)) [
            | inl bare ↦ told (BackendDefect env seen r) (without_models bare) (ground arith)
            | inr served ↦ elim (Bool-cases (any is_empty r.models)) [
              | inl blank ↦ told (BackendDefect env seen r) (empty_model blank) (ground arith)
              | inr filled ↦ elim (Bool-cases (any is_empty r.capability_tags)) [
                | inl blank_tag ↦
                    told (BackendDefect env seen r) (empty_tag blank_tag) (ground arith)
                | inr tagged ↦ ground arith
              ]
            ]
          ]
        ]

    resolve_backend-defect :
        (seen : List RawBackend) (r : RawBackend) {e : ConfigError F}
        → resolve_backend env (backend_names seen) r ≡ err e
        → BackendDefect env seen r e
    unfolding resolve_backend
    resolve_backend-defect seen r h = elim (Bool-cases (is_empty r.name)) [
      | inl blank ↦ told (BackendDefect env seen r) (unnamed blank) (ground arith)
      | inr named ↦ elim (Bool-cases (contains (backend_names seen) r.name)) [
        | inl again ↦ told (BackendDefect env seen r) (repeated again) (ground arith)
        | inr new ↦ elim (Bool-cases (is_valid_env_name r.base_url_env)) [
          | inr bad ↦ told (BackendDefect env seen r) (bad_variable url_variable bad) (ground arith)
          | inl valid ↦ elim (Option-cases (env r.base_url_env)) [
            | inl unset ↦
                told (BackendDefect env seen r) (unset_variable url_variable unset) (ground arith)
            | inr (url, set) ↦
                elim (Bool-cases
                  (starts_with url (codes "http://") || starts_with url (codes "https://"))) [
                    | inr other ↦
                        told (BackendDefect env seen r)
                          (not_web url set (ground arith) (ground arith)) (ground arith)
                    | inl web ↦ resolve_backend-later seen r url h named new valid set web
                  ]
          ]
        ]
      ]
    ]

    pub resolve_backends-defect :
        (seen rs : List RawBackend) {e : ConfigError F}
        → resolve_backends env (backend_names seen) rs ≡ err e
        → Somewhere (λ before r. BackendDefect env before r e) seen rs
    unfolding resolve_backends
    resolve_backends-defect seen [] h = cc
    resolve_backends-defect seen (r ∷ rs) {e} h =
        elim (Result-cases (resolve_backend {F = F} env (backend_names seen) r)) [
          | inr (e', failed) ↦ inl (
              told (BackendDefect env seen r) (resolve_backend-defect seen r failed) (ground arith))
          | inl (b, made) ↦ inr (resolve_backends-defect (r ∷ seen) rs (ground arith))
        ]
