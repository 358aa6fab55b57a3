-- ===== src/Config/Errors/Truthful.antt =====
-- src/config.rs: loading when it fails.
use patchbay.Common.{
  ◌≡◌, refl, inl, inr, Bool, false, ◌&&◌, [], arith, Result, ok, err, Result-cases, Bool-cases,
  is_empty,
}
use patchbay.Common.Texts.{Text}
use patchbay.Common.Maps.{get-empty}
use patchbay.Common.Order.{Float64}
use patchbay.Config.{ConfigError, RawPolicy, RawConfig}
use patchbay.Config.Load.{
  Env, Parsers, resolve_backends, resolve_virtual_keys, resolve_policy, from_toml_str, load,
}
use patchbay.Config.Errors.{
  Defect, bad_listen, without_backends, in_backend, in_key, bad_alpha, Failure, missing_file,
  unreadable, not_toml, defective,
}
use patchbay.Config.Errors.{path}
use patchbay.Config.Errors.InBackends.{told, resolve_backends-defect}
use patchbay.Config.Errors.InKeys.{resolve_virtual_keys-defect}

resolve_policy-defect :
    (x : Float64) (raw : RawPolicy x.F) {e : ConfigError x.F}
    → resolve_policy x raw ≡ err e
    → (alpha : x.F) × (raw ≡ RawPolicy.ewma_latency alpha)
      × ((x.lt (x.of_ℕ 0) alpha && x.le alpha (x.of_ℕ 1)) ≡ false)
      × (ConfigError.invalid_alpha alpha ≡ e)
unfolding resolve_policy
resolve_policy-defect x RawPolicy.static_priority h = cc
resolve_policy-defect x (RawPolicy.ewma_latency alpha) h = (alpha, refl, ground arith, ground arith)

module _ (x : Float64) (p : Parsers x.F) (env : Env) where
  from_toml_str-Defect :
      (text : Text) (raw : RawConfig x.F) {e : ConfigError x.F}
      → p.parse_toml text ≡ ok raw
      → from_toml_str x p text env ≡ err e
      → Defect x p env raw e
  unfolding from_toml_str
  from_toml_str-Defect text raw {e} parses h = elim (Result-cases (p.parse_addr raw.listen)) [
    | inr (message, bad) ↦ told (Defect x p env raw) (bad_listen bad) (ground arith)
    | inl (addr, listens) ↦ elim (Bool-cases (is_empty raw.backends)) [
      | inl bare ↦ told (Defect x p env raw) (without_backends bare) (ground arith)
      | inr served ↦ elim (Result-cases (resolve_backends {F = x.F} env [] raw.backends)) [
        | inr (e', failed) ↦
            told (Defect x p env raw)
              (in_backend (resolve_backends-defect env [] raw.backends failed)) (ground arith)
        | inl (bs, resolved) ↦
            elim (Result-cases (resolve_virtual_keys {F = x.F} env [] [] raw.virtual_keys)) [
              | inr (e', failed) ↦
                  told (Defect x p env raw)
                    (in_key (
                      resolve_virtual_keys-defect env [] [] raw.virtual_keys
                        (λ t name found. absurd (cc (found, get-empty {V = Text} t))) failed))
                    (ground arith)
              | inl (ks, keyed) ↦
                  let (alpha, same, outside, reported) =
                    resolve_policy-defect x raw.policy {e = e} (ground arith) in
                  told (Defect x p env raw) (bad_alpha alpha same outside) reported
            ]
      ]
    ]
  ]

  -- An error of loading is true: the file that it names is missing or cannot be read, its text does
  -- not parse, or the file has the defect that the error tells, in an entry that has the name in the
  -- error. A name counts as a duplicate, and a secret as shared, only when an entry before has it.
  pub load-Failure :
      (exists : Text → Bool) (read : Text → Result Text Text) (e : ConfigError x.F)
      → load x p exists read env ≡ err e
      → Failure x p env exists read e
  unfolding load
  load-Failure exists read e h = elim (Bool-cases (exists (path x p env exists read))) [
    | inr absent ↦ told (Failure x p env exists read) (missing_file absent) (ground arith)
    | inl present ↦ elim (Result-cases (read (path x p env exists read))) [
      | inr (message, failed) ↦
          told (Failure x p env exists read) (unreadable present failed) (ground arith)
      | inl (text, got) ↦
          let h' : from_toml_str x p text env ≡ err e = ground arith in
          elim (Result-cases (p.parse_toml text)) [
            | inr (message, bad) ↦
                told (Failure x p env exists read) (not_toml present got bad)
                  (unfold from_toml_str in (ground arith))
            | inl (raw, parses) ↦
                defective present got parses (from_toml_str-Defect text raw parses h')
          ]
    ]
  ]
