-- ===== src/Router/Opaque.antt =====
-- src/router.rs: routing with other API keys for the backends.
use patchbay.Common.{
  ℕ, zero, suc, ◌+◌, ◌≡◌, refl, ap, ◌∙◌, inl, inr, ◌⊎◌, Bool, true, false, some, List, [], ◌∷◌, map,
  get_elem?, arith, Bool-cases, Option-cases,
}
use patchbay.Common.Texts.{Text}
use patchbay.Common.Order.{Float64}
use Prim.Native.Nat.{Ordering}
use patchbay.Config.{
  Secret, Backend, PolicySelection, GatewayConfig, serves_model, has_capability_tags,
}
use patchbay.Config.Secrets.{map_ok, map_some}
use patchbay.Router.{
  PrivacyClass, RouteQuery, TypedQuery, Router, static_priority, eligible, gather, select, resolve,
  route,
}
use patchbay.Router.Ewma.{
  EwmaLatency, ewma, score, min_from, ewma_choose, ewma_policy, router_from_config,
}

chosen :
    (x : Float64) (p : PolicySelection x.F)
    → (p ≡ PolicySelection.static_priority)
      ⊎ ((alpha : x.F) × (p ≡ PolicySelection.ewma_latency alpha))
chosen x PolicySelection.static_priority = inl refl
chosen x (PolicySelection.ewma_latency alpha) = inr (alpha, refl)

module _ (f : Text → Text) where
  abbrev pub rekeyed : Backend → Backend
  rekeyed b = record b {
    api_key = map_some (λ (s : Secret). record { value = f s.value }) b.api_key;
  }

  gather-rekeyed :
      {p : PrivacyClass} (t : TypedQuery p) (bs : List Backend)
      → (gather t (map rekeyed bs)).items ≡ map rekeyed (gather t bs).items
  unfolding gather eligible serves_model has_capability_tags
  gather-rekeyed t [] = refl
  gather-rekeyed {p} t (b ∷ bs) =
      let rest = gather-rekeyed t bs in
      elim (Bool-cases (eligible p t.query b)) [
        | inl passes ↦ ground (arith, rest)
        | inr fails ↦ ground (arith, rest)
      ]

  get_elem?-rekeyed :
      (bs : List Backend) (i : ℕ) → get_elem? (map rekeyed bs) i ≡ map_some rekeyed (get_elem? bs i)
  get_elem?-rekeyed [] i = refl
  get_elem?-rekeyed (b ∷ bs) zero = refl
  get_elem?-rekeyed (b ∷ bs) (suc i) = get_elem?-rekeyed bs i

  -- A policy that does not look at the API keys of the candidates.
  abbrev pub IsBlind : Router → Type 0
  IsBlind r = (bs : List Backend) → r.policy.choose (map rekeyed bs) ≡ r.policy.choose bs

  abbrev pub rekeyed_router : Router → Router
  rekeyed_router r = record r { backends = map rekeyed r.backends }

  resolve-rekeyed :
      {p : PrivacyClass} (r : Router) (t : TypedQuery p)
      → IsBlind r
      → resolve (rekeyed_router r) t ≡ map_ok rekeyed (resolve r t)
  unfolding resolve select
  resolve-rekeyed r t blind =
      let items = (gather t r.backends).items in
      let gathered : (gather t (map rekeyed r.backends)).items ≡ map rekeyed items =
        gather-rekeyed t r.backends in
      let chosen : r.policy.choose (gather t (map rekeyed r.backends)).items
          ≡ r.policy.choose items =
        ap r.policy.choose gathered ∙ blind items in
      elim (Option-cases (r.policy.choose items)) [
        | inl declined ↦ ground (arith, chosen)
        | inr (i, picked) ↦
            let at : get_elem? (gather t (map rekeyed r.backends)).items i
                ≡ map_some rekeyed (get_elem? items i) =
              ap (λ l. get_elem? l i) gathered ∙ get_elem?-rekeyed items i in
            elim (Option-cases (get_elem? items i)) [
              | inl outside ↦ ground (arith, chosen, at)
              | inr (b, found) ↦ ground (arith, chosen, at)
            ]
      ]

  pub route-rekeyed :
      (r : Router) (q : RouteQuery) (mark : Bool)
      → IsBlind r
      → route (rekeyed_router r) q mark ≡ map_ok rekeyed (route r q mark)
  unfolding route
  route-rekeyed r q true blind =
      resolve-rekeyed {p = PrivacyClass.private} r (record { query = q }) blind
  route-rekeyed r q false blind =
      resolve-rekeyed {p = PrivacyClass.shareable} r (record { query = q }) blind

  score-rekeyed :
      (x : Float64) (e : EwmaLatency x) (b : Backend) → score x e (rekeyed b) ≡ score x e b
  unfolding score
  score-rekeyed x e b = refl

  min_from-rekeyed :
      (x : Float64) (e : EwmaLatency x) (best : ℕ) (b : Backend) (i : ℕ) (bs : List Backend)
      → min_from x e best (rekeyed b) i (map rekeyed bs) ≡ min_from x e best b i bs
  unfolding min_from score
  min_from-rekeyed x e best b i [] = refl
  min_from-rekeyed x e best b i (c ∷ cs) =
      let stays = min_from-rekeyed x e best b (i + 1) cs in
      let moves = min_from-rekeyed x e i c (i + 1) cs in
      elim (x.total_cmp (score x e b) (score x e c))
        as (λ o.
          (elim o [
            | Ordering.gt ↦ min_from x e i (rekeyed c) (i + 1) (map rekeyed cs)
            | _ ↦ min_from x e best (rekeyed b) (i + 1) (map rekeyed cs)
          ])
          ≡ (elim o [
            | Ordering.gt ↦ min_from x e i c (i + 1) cs
            | _ ↦ min_from x e best b (i + 1) cs
          ])) [ Ordering.lt ↦ stays | Ordering.eq ↦ stays | Ordering.gt ↦ moves ]

  ewma_choose-rekeyed :
      (x : Float64) (e : EwmaLatency x) (bs : List Backend)
      → ewma_choose x e (map rekeyed bs) ≡ ewma_choose x e bs
  unfolding ewma_choose
  ewma_choose-rekeyed x e [] = refl
  ewma_choose-rekeyed x e (b ∷ bs) = ap some (min_from-rekeyed x e 0 b 1 bs)

  static_priority-rekeyed :
      (bs : List Backend) → static_priority.choose (map rekeyed bs) ≡ static_priority.choose bs
  unfolding static_priority
  static_priority-rekeyed [] = refl
  static_priority-rekeyed (b ∷ bs) = refl

  -- The policies that a configuration can name look at no API key.
  pub router_from_config-IsBlind :
      (x : Float64) {Addr : Type 0} (cfg : GatewayConfig Addr x.F) (r : Router)
      → router_from_config x cfg ≡ some r
      → IsBlind r
  unfolding router_from_config ewma ewma_policy
  router_from_config-IsBlind x cfg r made bs = elim (chosen x cfg.policy) [
    | inl static ↦
        let e : r.policy ≡ static_priority = ground arith in rw e (static_priority-rekeyed bs)
    | inr (alpha, averaged) ↦
        let fresh : EwmaLatency x = record { alpha = alpha; stats = [] } in
        let e : r.policy ≡ record { choose = ewma_choose x fresh } = ground arith in
        rw e (ewma_choose-rekeyed x fresh bs)
  ]
