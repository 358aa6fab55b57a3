-- ===== src/Router/Ewma.antt =====
-- src/router.rs: the policy `EwmaLatency`. Its lock serialises `observe` and `choose`; the policy that
-- a router holds is `choose` at the statistics of that moment.
use Prim.Native.Nat.{Ordering}
use patchbay.Common.{ℕ, ◌+◌, ◌&&◌, Option, none, some, List, [], ◌∷◌, if◌then◌else◌}
use patchbay.Common.Texts.{Text}
use patchbay.Common.Maps.{Map, get, insert}
use patchbay.Common.Order.{Float64}
use patchbay.Config.{Backend, PolicySelection, GatewayConfig}
use patchbay.Router.{Policy, Router, static_priority}

module _ (x : Float64) where
  pub record EwmaLatency : Type 0 where
    pub alpha : x.F
    pub stats : Map x.F

  -- `EwmaLatency::new`: the assertion is `none`.
  unfoldable pub ewma : x.F → Option EwmaLatency
  ewma alpha =
      if x.lt (x.of_ℕ 0) alpha && x.le alpha (x.of_ℕ 1)
      then some (record { alpha = alpha; stats = [] })
      else none

  blend : x.F → x.F → Option x.F → x.F
  blend alpha sample none = sample
  blend alpha sample (some e) = x.add (x.mul alpha sample) (x.mul (x.sub (x.of_ℕ 1) alpha) e)

  -- `observe`; the latency is given by its `as_secs_f64`.
  unfoldable pub observe : EwmaLatency → Text → x.F → EwmaLatency
  unfolding blend
  observe s backend secs =
      let sample = x.mul secs (x.of_ℕ 1000) in
      if x.is_finite sample
      then record s { stats = insert s.stats backend (blend s.alpha sample (get s.stats backend)) }
      else s

  abbrev pub latency_ms : EwmaLatency → Text → Option x.F
  latency_ms s backend = get s.stats backend

  unfoldable pub score : EwmaLatency → Backend → x.F
  score s b = elim (get s.stats b.name) [ none ↦ x.of_ℕ 0 | some e ↦ e ]

  -- `min_by`: the accumulated minimum gives way only to a smaller score. `i` is the next index.
  unfoldable pub min_from : EwmaLatency → ℕ → Backend → ℕ → List Backend → ℕ
  min_from s best b i [] = best
  min_from s best b i (c ∷ cs) = elim (x.total_cmp (score s b) (score s c)) [
    | Ordering.gt ↦ min_from s i c (i + 1) cs
    | _ ↦ min_from s best b (i + 1) cs
  ]

  unfoldable pub ewma_choose : EwmaLatency → List Backend → Option ℕ
  ewma_choose s [] = none
  ewma_choose s (b ∷ bs) = some (min_from s 0 b 1 bs)

  unfoldable pub ewma_policy : EwmaLatency → Policy
  ewma_policy s = record { choose = ewma_choose s }

  policy_of : Option EwmaLatency → Option Policy
  policy_of none = none
  policy_of (some s) = some (ewma_policy s)

  policy_from : PolicySelection x.F → Option Policy
  policy_from PolicySelection.static_priority = some static_priority
  policy_from (PolicySelection.ewma_latency alpha) = policy_of (ewma alpha)

  -- `Router::from_config`; `none` is the panic of `EwmaLatency::new`.
  unfoldable pub router_from_config : {Addr : Type 0} → GatewayConfig Addr x.F → Option Router
  unfolding policy_from policy_of
  router_from_config cfg = elim (policy_from cfg.policy) [
    | none ↦ none
    | some policy ↦ some (record { backends = cfg.backends; policy = policy })
  ]
