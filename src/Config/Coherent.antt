-- ===== src/Config/Coherent.antt =====
-- src/config.rs: the coherence of a configuration with the file that it is loaded from.
use patchbay.Common.{
  ◌≡◌, ◌↔◌, refl, inl, inr, true, false, [], map, arith, ok, err, Result-cases, is_empty,
}
use patchbay.Common.Texts.{Text}
use patchbay.Common.Fresh.{DistinctFrom}
use patchbay.Common.Maps.{get-empty}
use patchbay.Common.Order.{Float64}
use patchbay.Config.{PolicySelection, GatewayConfig, RawPolicy, RawConfig}
use patchbay.Config.Load.{
  Env, Parsers, resolve_backends, resolve_virtual_keys, resolve_policy, from_toml_str,
}
use patchbay.Config.Backends.{
  AllResolved, AllResolved-is_empty, is_empty-AllResolved, resolve_backends-AllResolved,
  resolve_backends-of_AllResolved,
}
use patchbay.Config.Keys.{
  AllResolvedKeys, resolve_virtual_keys-AllResolvedKeys, resolve_virtual_keys-of_AllResolvedKeys,
}

abbrev pub PolicyResolved : (x : Float64) → RawPolicy x.F → PolicySelection x.F → Type 0
PolicyResolved x RawPolicy.static_priority PolicySelection.static_priority = Unit
PolicyResolved x (RawPolicy.ewma_latency raw) (PolicySelection.ewma_latency alpha) =
    (alpha ≡ raw) × (x.lt (x.of_ℕ 0) raw ≡ true) × (x.le raw (x.of_ℕ 1) ≡ true)
PolicyResolved x _ _ = ⊥

resolve_policy-PolicyResolved :
    (x : Float64) (raw : RawPolicy x.F) {p : PolicySelection x.F}
    → resolve_policy x raw ≡ ok p
    → PolicyResolved x raw p
unfolding resolve_policy
resolve_policy-PolicyResolved x RawPolicy.static_priority {p = PolicySelection.static_priority} h =
    tt
resolve_policy-PolicyResolved x RawPolicy.static_priority {p = PolicySelection.ewma_latency a} h =
    cc
resolve_policy-PolicyResolved x (RawPolicy.ewma_latency alpha) {p = PolicySelection.static_priority}
      h =
    ground arith
resolve_policy-PolicyResolved x (RawPolicy.ewma_latency alpha) {p = PolicySelection.ewma_latency a}
      h =
    (ground arith, ground arith, ground arith)

resolve_policy-of_PolicyResolved :
    (x : Float64) (raw : RawPolicy x.F) {p : PolicySelection x.F}
    → PolicyResolved x raw p
    → resolve_policy x raw ≡ ok p
unfolding resolve_policy
resolve_policy-of_PolicyResolved x RawPolicy.static_priority {p = PolicySelection.static_priority}
      h =
    refl
resolve_policy-of_PolicyResolved x RawPolicy.static_priority {p = PolicySelection.ewma_latency a}
      h =
    absurd h
resolve_policy-of_PolicyResolved x (RawPolicy.ewma_latency alpha)
      {p = PolicySelection.static_priority} h =
    absurd h
resolve_policy-of_PolicyResolved x (RawPolicy.ewma_latency alpha)
      {p = PolicySelection.ewma_latency a} h =
    ground arith

module _ (x : Float64) (p : Parsers x.F) where
  -- `cfg` is what the file `raw` says, resolved in `env`.
  pub record IsCoherent (env : Env) (raw : RawConfig x.F) (cfg : GatewayConfig p.Addr x.F)
      : Type 0 where
    pub listens : p.parse_addr raw.listen ≡ ok cfg.listen
    pub has_backend : is_empty cfg.backends ≡ false
    pub backends_resolved : AllResolved env raw.backends cfg.backends
    pub names_new : DistinctFrom [] (map (λ b. b.name) cfg.backends)
    pub keys_resolved : AllResolvedKeys env raw.virtual_keys cfg.virtual_keys
    pub key_names_new : DistinctFrom [] (map (λ k. k.name) cfg.virtual_keys)
    pub secrets_new : DistinctFrom [] (map (λ k. k.key.value) cfg.virtual_keys)
    pub policy_resolved : PolicyResolved x raw.policy cfg.policy

  -- the results of the calls that loading makes
  record Steps (env : Env) (raw : RawConfig x.F) (cfg : GatewayConfig p.Addr x.F) : Type 0 where
    listened : p.parse_addr raw.listen ≡ ok cfg.listen
    nonempty : is_empty raw.backends ≡ false
    backends : resolve_backends {F = x.F} env [] raw.backends ≡ ok cfg.backends
    keys : resolve_virtual_keys {F = x.F} env [] [] raw.virtual_keys ≡ ok cfg.virtual_keys
    policy : resolve_policy x raw.policy ≡ ok cfg.policy

  from_toml_str-Steps :
      (text : Text) (env : Env) (raw : RawConfig x.F) {cfg : GatewayConfig p.Addr x.F}
      → p.parse_toml text ≡ ok raw
      → from_toml_str x p text env ≡ ok cfg
      → Steps env raw cfg
  unfolding from_toml_str
  from_toml_str-Steps text env raw read h = record {
    listened = ground arith;
    nonempty = ground arith;
    backends = ground arith;
    keys = ground arith;
    policy = ground arith;
  }

  from_toml_str-parse :
      (text : Text) (env : Env) {e : Text} {cfg : GatewayConfig p.Addr x.F}
      → p.parse_toml text ≡ err e
      → ¬ (from_toml_str x p text env ≡ ok cfg)
  unfolding from_toml_str
  from_toml_str-parse text env failed h = ground arith

  Steps-IsCoherent :
      (env : Env) (raw : RawConfig x.F) {cfg : GatewayConfig p.Addr x.F}
      → Steps env raw cfg
      → IsCoherent env raw cfg
  Steps-IsCoherent env raw {cfg} s =
      let (backends, names) = resolve_backends-AllResolved env [] raw.backends s.backends in
      let (keys, key_names, secrets) =
        resolve_virtual_keys-AllResolvedKeys env [] [] [] raw.virtual_keys (λ t n. refl) s.keys in
      record {
        listens = s.listened;
        has_backend = AllResolved-is_empty env raw.backends cfg.backends backends s.nonempty;
        backends_resolved = backends;
        names_new = names;
        keys_resolved = keys;
        key_names_new = key_names;
        secrets_new = secrets;
        policy_resolved = resolve_policy-PolicyResolved x raw.policy s.policy;
      }

  from_toml_str-IsCoherent :
      (text : Text) (env : Env) {cfg : GatewayConfig p.Addr x.F}
      → from_toml_str x p text env ≡ ok cfg
      → (raw : RawConfig x.F) × (p.parse_toml text ≡ ok raw) × IsCoherent env raw cfg
  from_toml_str-IsCoherent text env {cfg} h = elim (Result-cases (p.parse_toml text)) [
    | inr (e, failed) ↦ absurd (from_toml_str-parse text env failed h)
    | inl (raw, read) ↦
        (raw, read, Steps-IsCoherent env raw (from_toml_str-Steps text env raw read h))
  ]

  from_toml_str-of_IsCoherent :
      (text : Text) (env : Env) (raw : RawConfig x.F) {cfg : GatewayConfig p.Addr x.F}
      → p.parse_toml text ≡ ok raw
      → IsCoherent env raw cfg
      → from_toml_str x p text env ≡ ok cfg
  unfolding from_toml_str
  from_toml_str-of_IsCoherent text env raw {cfg} read c = ground (
    arith,
    resolve_backends-of_AllResolved {F = x.F} env [] raw.backends c.backends_resolved c.names_new,
    resolve_virtual_keys-of_AllResolvedKeys {F = x.F} env [] [] [] raw.virtual_keys
        (λ t n. get-empty {V = Text} t) c.keys_resolved c.key_names_new c.secrets_new,
    resolve_policy-of_PolicyResolved x raw.policy c.policy_resolved,
    is_empty-AllResolved env raw.backends cfg.backends c.backends_resolved c.has_backend,
  )

  -- Loading returns a configuration exactly when the text parses and the configuration is
  -- coherent with what was parsed: the listen address parses, there is a backend, each backend and
  -- each virtual key is its entry checked and resolved, in order, no two backends share a name, no
  -- two virtual keys share a name or a secret, and the policy is the file's, with alpha in (0, 1].
  pub from_toml_str_iff :
      (text : Text) (env : Env) (cfg : GatewayConfig p.Addr x.F)
      → (from_toml_str x p text env ≡ ok cfg)
        ↔ ((raw : RawConfig x.F) × (p.parse_toml text ≡ ok raw) × IsCoherent env raw cfg)
  from_toml_str_iff text env cfg =
      (from_toml_str-IsCoherent text env, λ s. from_toml_str-of_IsCoherent text env s.0 s.1 s.2)
