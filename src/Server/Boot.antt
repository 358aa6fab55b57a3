-- ===== src/Server/Boot.antt =====
-- src/server.rs: what a configuration that has been loaded gives to the router and to the key store.
use patchbay.Common.{◌≡◌, ◌↔◌, refl, Bool, true, some, [], map, arith, ok, In}
use patchbay.Common.Texts.{Text}
use patchbay.Common.Fresh.{DistinctFrom-Distinct}
use patchbay.Common.Order.{Float64, IsTotalOrder}
use patchbay.Config.{Backend, PolicySelection, GatewayConfig, RawPolicy}
use patchbay.Config.Load.{Env, Parsers, from_toml_str}
use patchbay.Config.Coherent.{PolicyResolved, from_toml_str_iff}
use patchbay.Router.{Policy, Router, RouteQuery, route, eligible, static_priority}
use patchbay.Router.Ewma.{EwmaLatency, ewma, ewma_policy, router_from_config}
use patchbay.Router.Eligible.{class_of}
use patchbay.Router.Choice.{Chooses, static_priority-Chooses, route-Chooses}
use patchbay.Router.Latency.{ewma_policy-Chooses}
use patchbay.Auth.{KeyIdentity, from_virtual_keys, authenticate}
use patchbay.Auth.Admits.{Holds, authenticate_iff}

module _ (x : Float64) (laws : IsTotalOrder x) where
  policy_from-PolicyResolved :
      {Addr : Type 0} (raw : RawPolicy x.F) (cfg : GatewayConfig Addr x.F) (p : PolicySelection x.F)
      → cfg.policy ≡ p
      → PolicyResolved x raw p
      → (policy : Policy) × Chooses policy
        × (router_from_config x cfg ≡ some (record { backends = cfg.backends; policy = policy }))
  unfolding router_from_config
  policy_from-PolicyResolved RawPolicy.static_priority cfg PolicySelection.static_priority e h =
      (static_priority, static_priority-Chooses, ground arith)
  policy_from-PolicyResolved (RawPolicy.ewma_latency raw) cfg (PolicySelection.ewma_latency alpha) e
        h =
      let s : EwmaLatency x = record { alpha = alpha; stats = [] } in
      let made : ewma x alpha ≡ some s = (unfold ewma in ground arith) in
      (ewma_policy x s, ewma_policy-Chooses x laws s, ground arith)
  policy_from-PolicyResolved RawPolicy.static_priority cfg (PolicySelection.ewma_latency alpha) e
        h =
      absurd h
  policy_from-PolicyResolved (RawPolicy.ewma_latency raw) cfg PolicySelection.static_priority e h =
      absurd h

  module _ (p : Parsers x.F) (text : Text) (env : Env) (cfg : GatewayConfig p.Addr x.F) where
    -- A configuration that loads makes a router, so that the assertion on alpha never fails, and the
    -- router serves each request for which some backend of the configuration is eligible.
    pub router_from_config-routes :
        (q : RouteQuery) (mark_private : Bool) (b : Backend)
        → from_toml_str x p text env ≡ ok cfg
        → In b cfg.backends
        → eligible (class_of mark_private) q b ≡ true
        → (r : Router) × (router_from_config x cfg ≡ some r)
          × ((c : Backend) × (route r q mark_private ≡ ok c))
    router_from_config-routes q mark_private b loaded member fits =
        let (raw, read, coherent) = (from_toml_str_iff x p text env cfg).0 loaded in
        let (policy, chooses, made) =
          policy_from-PolicyResolved raw.policy cfg cfg.policy refl coherent.policy_resolved in
        let r : Router = record { backends = cfg.backends; policy = policy } in
        (r, made, route-Chooses r q mark_private b chooses member fits)

-- With the keys of a configuration that loads, a token is accepted as a given identity exactly when a
-- virtual key of the configuration has that secret and that identity.
pub authenticate-loaded :
    (x : Float64) (p : Parsers x.F) (text : Text) (env : Env) (cfg : GatewayConfig p.Addr x.F)
    (token : Text) (id : KeyIdentity)
    → from_toml_str x p text env ≡ ok cfg
    → (authenticate (from_virtual_keys cfg.virtual_keys) token ≡ some id)
      ↔ Holds cfg.virtual_keys token id
authenticate-loaded x p text env cfg token id loaded =
    let (raw, read, coherent) = (from_toml_str_iff x p text env cfg).0 loaded in
    authenticate_iff cfg.virtual_keys
      (DistinctFrom-Distinct [] (map (λ k. k.key.value) cfg.virtual_keys) coherent.secrets_new)
      token id
