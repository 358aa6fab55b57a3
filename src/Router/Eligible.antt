-- ===== src/Router/Eligible.antt =====
-- src/router.rs: the backends that a request may be routed to.
use patchbay.Common.{
  ◌≡◌, inl, inr, Bool, true, false, some, arith, ok, get_elem?, filter, In, In-get_elem?, In-filter,
  Option-cases,
}
use patchbay.Config.{Backend, serves_model, has_capability_tags}
use patchbay.Config
use patchbay.Router.{
  PrivacyClass, admits, RouteQuery, TypedQuery, eligible, gather, select, Router, resolve, route,
}

-- The class that a mark puts a request in.
abbrev pub class_of : Bool → PrivacyClass
class_of true = PrivacyClass.private
class_of false = PrivacyClass.shareable

resolve-eligible :
    {p : PrivacyClass} (r : Router) (q : TypedQuery p) {b : Backend}
    → resolve r q ≡ ok b
    → In b r.backends × (eligible p q.query b ≡ true)
unfolding resolve select gather
resolve-eligible {p} r q {b} h =
    let items = filter (eligible p q.query) r.backends in
    elim (Option-cases (r.policy.choose items)) [
      | inl declined ↦ ground arith
      | inr (i, chosen) ↦
          let found : get_elem? items i ≡ some b = ground arith in
          In-filter (eligible p q.query) r.backends (In-get_elem? items i found)
    ]

-- Whatever the policy, a backend that `route` returns is one of the router's, its placement is
-- admitted by the class of the request, it serves the model, and it has every required tag; so a
-- request marked private gets a local backend.
pub route-eligible :
    (r : Router) (q : RouteQuery) (mark_private : Bool) {b : Backend}
    → route r q mark_private ≡ ok b
    → In b r.backends
      × (mark_private ≡ true → b.privacy ≡ Config.Privacy.local)
      × (serves_model b q.model ≡ true)
      × (has_capability_tags b q.required_tags ≡ true)
unfolding route eligible admits
route-eligible r q true {b} h =
    let (member, passes) = resolve-eligible r (record { query = q }) h in
    (member, λ _. ground arith, ground arith, ground arith)
route-eligible r q false {b} h =
    let (member, passes) = resolve-eligible r (record { query = q }) h in
    (member, λ e. cc, ground arith, ground arith)
