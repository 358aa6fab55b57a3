-- ===== src/Router/Typed.antt =====
-- src/router.rs: the values of the types that carry a privacy class. Their fields are private, so the
-- functions of the module make all of them.
use patchbay.Common.{
  ◌≡◌, ap, sym, ◌∙◌, inl, inr, Bool, true, some, List, arith, get_elem?, filter, In-get_elem?,
  In-filter, Option-cases,
}
use patchbay.Config.{Backend, Privacy}
use patchbay.Router.{
  PrivacyClass, admits, RouteQuery, TypedQuery, ClassifiedQuery, classify, Candidates, eligible,
  gather, Policy, Selection, select,
}

-- A query that `classify` has stamped.
pub data IsStamped : (p : PrivacyClass) → TypedQuery p → Type 0 where
  stamped_private :
      (q : RouteQuery) (mark : Bool) (t : TypedQuery PrivacyClass.private)
      → classify q mark ≡ ClassifiedQuery.private t
      → IsStamped PrivacyClass.private t
  stamped_shareable :
      (q : RouteQuery) (mark : Bool) (t : TypedQuery PrivacyClass.shareable)
      → classify q mark ≡ ClassifiedQuery.shareable t
      → IsStamped PrivacyClass.shareable t

-- Candidates that `gather` has made for such a query.
pub data IsGathered (p : PrivacyClass) : Candidates p → Type 0 where
  gathered :
      (t : TypedQuery p) (backends : List Backend) (c : Candidates p)
      → IsStamped p t
      → c ≡ gather t backends
      → IsGathered p c

-- A selection that `select` has made of such candidates, by whatever policy.
pub data IsSelected (p : PrivacyClass) : Selection p → Type 0 where
  selected :
      (c : Candidates p) (policy : Policy) (s : Selection p)
      → IsGathered p c
      → select c policy ≡ some s
      → IsSelected p s

select-admits :
    {p : PrivacyClass} (t : TypedQuery p) (backends : List Backend) (policy : Policy)
    (s : Selection p)
    → select (gather t backends) policy ≡ some s
    → admits p s.backend.privacy ≡ true
unfolding select gather eligible
select-admits {p} t backends policy s h =
    let items = filter (eligible p t.query) backends in
    elim (Option-cases (policy.choose items)) [
      | inl declined ↦ ground arith
      | inr (i, chosen) ↦
          let found : get_elem? items i ≡ some s.backend = ground arith in
          let (member, passes) =
            In-filter (eligible p t.query) backends (In-get_elem? items i found) in
          ground arith
    ]

IsSelected-admits :
    {p : PrivacyClass} (s : Selection p) → IsSelected p s → admits p s.backend.privacy ≡ true
IsSelected-admits s (selected _ policy _ (gathered t backends c stamped made) h) =
    select-admits t backends policy s (ap (λ d. select d policy) (sym made) ∙ h)

-- No private selection that the functions of the module make refers to an external backend: whichever
-- query was classified, whichever backends were filtered, and whatever the policy answered, its backend
-- is local.
pub IsSelected-local :
    (s : Selection PrivacyClass.private)
    → IsSelected PrivacyClass.private s
    → s.backend.privacy ≡ Privacy.local
unfolding admits
IsSelected-local s made = let admitted = IsSelected-admits s made in ground (arith, admitted)
