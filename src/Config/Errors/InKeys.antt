-- ===== src/Config/Errors/InKeys.antt =====
-- src/config.rs: the errors of the loop over the virtual keys.
use patchbay.Common.{
  ◌≡◌, refl, ap, ◌∙◌, inl, inr, some, List, [], ◌∷◌, arith, ok, err, Result-cases, Bool-cases,
  Option-cases, In, is_empty,
}
use patchbay.Common.Texts.{Text, contains}
use patchbay.Common.Maps.{Map, get, insert, get-insert}
use patchbay.Config.{ConfigError, VirtualKey, RawVirtualKey}
use patchbay.Config.Load.{Env, is_valid_env_name, resolve_virtual_key, resolve_virtual_keys}
use patchbay.Config.Errors.{
  Somewhere, key_names, KeyDefect, key_unnamed, key_repeated, bad_key_variable, unset_key_variable,
  empty_secret, shared_secret,
}
use patchbay.Common.Texts.{text_eq, text_eq_iff}
use patchbay.Config.Errors.InBackends.{told}

-- Each secret of the map is that of an entry before, under its name.
abbrev SecretsFrom : Env → Map Text → List RawVirtualKey → Type 0
SecretsFrom env secrets seen =
    (t name : Text)
    → get secrets t ≡ some name
    → (k : RawVirtualKey) × In k seen × (k.name ≡ name) × (env k.key_env ≡ some t)

SecretsFrom-insert :
    (env : Env) (secrets : Map Text) (seen : List RawVirtualKey) (r : RawVirtualKey) (secret : Text)
    → SecretsFrom env secrets seen
    → env r.key_env ≡ some secret
    → SecretsFrom env (insert secrets secret r.name) (r ∷ seen)
SecretsFrom-insert env secrets seen r secret from set t name found =
    elim (Bool-cases (text_eq secret t)) [
      | inl same ↦ (
        r,
        inl refl,
        ground (arith, get-insert secrets secret t r.name),
        set ∙ ap some ((text_eq_iff secret t).0 same),
      )
      | inr other ↦
          let (k, member, named, value) =
            from t name (ground (arith, get-insert secrets secret t r.name)) in
          (k, inr member, named, value)
    ]

module _ {F : Type 0} (env : Env) where
  resolve_virtual_key-defect :
      (seen : List RawVirtualKey) (secrets : Map Text) (r : RawVirtualKey) {e : ConfigError F}
      → SecretsFrom env secrets seen
      → resolve_virtual_key env (key_names seen) secrets r ≡ err e
      → KeyDefect env seen r e
  unfolding resolve_virtual_key
  resolve_virtual_key-defect seen secrets r from h = elim (Bool-cases (is_empty r.name)) [
    | inl blank ↦ told (KeyDefect env seen r) (key_unnamed blank) (ground arith)
    | inr named ↦ elim (Bool-cases (contains (key_names seen) r.name)) [
      | inl again ↦ told (KeyDefect env seen r) (key_repeated again) (ground arith)
      | inr new ↦ elim (Bool-cases (is_valid_env_name r.key_env)) [
        | inr bad ↦ told (KeyDefect env seen r) (bad_key_variable bad) (ground arith)
        | inl valid ↦ elim (Option-cases (env r.key_env)) [
          | inl unset ↦ told (KeyDefect env seen r) (unset_key_variable unset) (ground arith)
          | inr ([], set) ↦ told (KeyDefect env seen r) (empty_secret set) (ground arith)
          | inr (c ∷ cs, set) ↦ elim (Option-cases (get secrets (c ∷ cs))) [
            | inl fresh ↦ ground arith
            | inr (prev, taken) ↦
                let (k, member, called, value) = from (c ∷ cs) prev taken in
                told (KeyDefect env seen r) (shared_secret k (c ∷ cs) member value set)
                  (ground arith)
          ]
        ]
      ]
    ]
  ]

  resolve_virtual_key-value :
      (names : List Text) (secrets : Map Text) (r : RawVirtualKey) {k : VirtualKey}
      → resolve_virtual_key {F = F} env names secrets r ≡ ok k
      → env r.key_env ≡ some k.key.value
  unfolding resolve_virtual_key
  resolve_virtual_key-value names secrets r {k} h = elim (Option-cases (env r.key_env)) [
    | inl unset ↦ ground arith
    | inr (value, set) ↦ ground arith
  ]

  pub resolve_virtual_keys-defect :
      (seen : List RawVirtualKey) (secrets : Map Text) (rs : List RawVirtualKey) {e : ConfigError F}
      → SecretsFrom env secrets seen
      → resolve_virtual_keys env (key_names seen) secrets rs ≡ err e
      → Somewhere (λ before r. KeyDefect env before r e) seen rs
  unfolding resolve_virtual_keys
  resolve_virtual_keys-defect seen secrets [] from h = cc
  resolve_virtual_keys-defect seen secrets (r ∷ rs) {e} from h =
      elim (Result-cases (resolve_virtual_key {F = F} env (key_names seen) secrets r)) [
        | inr (e', failed) ↦ inl (
            told (KeyDefect env seen r) (resolve_virtual_key-defect seen secrets r from failed)
              (ground arith))
        | inl (k, made) ↦
            let value = resolve_virtual_key-value (key_names seen) secrets r made in
            inr (
              resolve_virtual_keys-defect (r ∷ seen) (insert secrets k.key.value r.name) rs
                (SecretsFrom-insert env secrets seen r k.key.value from value) (ground arith))
      ]
