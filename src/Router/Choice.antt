-- ===== src/Router/Choice.antt =====
-- src/router.rs: which backend static priority chooses, and when a router finds a backend at all.
use patchbay.Common.{
  ℕ, ◌≡◌, refl, inl, inr, Bool, true, false, Option, none, some, List, [], ◌∷◌, arith, Result, ok,
  err, get_elem?, filter, find, In, filter-In, Bool-cases,
}
use patchbay.Config.{Backend}
use patchbay.Router.{
  PrivacyClass, admits, label, RouteQuery, TypedQuery, eligible, gather, Policy, static_priority,
  select, RouteError, Router, resolve, route,
}
use patchbay.Router.Eligible.{class_of}

-- The error of a request that finds no backend.
abbrev pub refusal : Bool → RouteQuery → RouteError
refusal mark_private q =
    RouteError.no_eligible_backend q.model q.required_tags (label (class_of mark_private))

abbrev pub first_or_refusal : Bool → RouteQuery → Option Backend → Result RouteError Backend
first_or_refusal mark_private q none = err (refusal mark_private q)
first_or_refusal mark_private q (some b) = ok b

resolve-first :
    (bs : List Backend) (m : Bool) (q : RouteQuery)
    → resolve
        (record { backends = bs; policy = static_priority })
        (let t : TypedQuery (class_of m) = record { query = q } in t)
      ≡ first_or_refusal m q (find (eligible (class_of m) q) bs)
unfolding resolve select gather static_priority
resolve-first [] m q = refl
resolve-first (b ∷ bs) m q = elim (Bool-cases (eligible (class_of m) q b)) [
  | inl t ↦ ground arith
  | inr f ↦ ground (arith, resolve-first bs m q)
]

-- Static priority returns the first backend of the table that is eligible for the class, the model
-- and the tags of the request, and refuses, with these, when no backend is.
pub route-static_priority :
    (bs : List Backend) (q : RouteQuery) (mark_private : Bool)
    → route (record { backends = bs; policy = static_priority }) q mark_private
      ≡ first_or_refusal mark_private q (find (eligible (class_of mark_private) q) bs)
unfolding route
route-static_priority bs q true = resolve-first bs true q
route-static_priority bs q false = resolve-first bs false q

-- A private request has the candidates of the shareable one that are local, in the same order.
pub gather-private :
    (q : RouteQuery) (bs : List Backend)
    → (gather {p = PrivacyClass.private} (record { query = q }) bs).items
      ≡ filter
          (λ b. admits PrivacyClass.private b.privacy)
          (gather {p = PrivacyClass.shareable} (record { query = q }) bs).items
unfolding gather eligible admits
gather-private q [] = refl
gather-private q (b ∷ bs) = ground (arith, gather-private q bs)

-- The policy chooses one of the candidates whenever there is one.
abbrev pub Chooses : Policy → Type 0
Chooses p =
    (b : Backend) (bs : List Backend)
    → (i : ℕ) × (c : Backend) × (p.choose (b ∷ bs) ≡ some i) × (get_elem? (b ∷ bs) i ≡ some c)

pub static_priority-Chooses : Chooses static_priority
unfolding static_priority
static_priority-Chooses b bs = (0, b, refl, refl)

resolve-Chooses :
    {p : PrivacyClass} (r : Router) (q : TypedQuery p) (b : Backend)
    → Chooses r.policy
    → In b r.backends
    → eligible p q.query b ≡ true
    → (c : Backend) × (resolve r q ≡ ok c)
unfolding resolve select gather
resolve-Chooses {p} r q b chooses member fits =
    go (filter (eligible p q.query) r.backends) refl
      (filter-In (eligible p q.query) r.backends member fits)
  where
    go :
        (items : List Backend)
        → filter (eligible p q.query) r.backends ≡ items
        → In b items
        → (c : Backend) × (resolve r q ≡ ok c)
    go [] e m = absurd m
    go (d ∷ ds) e m = let (i, c, chosen, found) = chooses d ds in (c, ground arith)

-- With such a policy a request is served as soon as some backend is eligible for it.
pub route-Chooses :
    (r : Router) (q : RouteQuery) (mark_private : Bool) (b : Backend)
    → Chooses r.policy
    → In b r.backends
    → eligible (class_of mark_private) q b ≡ true
    → (c : Backend) × (route r q mark_private ≡ ok c)
unfolding route
route-Chooses r q true b chooses member fits =
    resolve-Chooses r (record { query = q }) b chooses member fits
route-Chooses r q false b chooses member fits =
    resolve-Chooses r (record { query = q }) b chooses member fits
