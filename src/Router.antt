-- ===== src/Router.antt =====
-- src/router.rs: privacy classes, candidates, policies and the router.
pub mod Ewma
pub mod Eligible
pub mod Typed
pub mod Choice
pub mod Latency
pub mod Opaque
use Prim.Native.Nat.{compare}
use patchbay.Common.{
  ℕ, ◌+◌, Bool, true, false, ◌&&◌, Option, none, some, List, [], ◌∷◌, Result, ok, err, length,
  get_elem?, is_empty, filter, if◌then◌else◌,
}
use patchbay.Common.Texts.{Text, codes}
use patchbay.Config.{Backend, Privacy, serves_model, has_capability_tags}

-- The sealed trait `PrivacyClass` with its two marker types: a value of this type stands where the
-- source has a type parameter `P: PrivacyClass`.
pub data PrivacyClass : Type 0 where
  private shareable : PrivacyClass

unfoldable pub admits : PrivacyClass → Privacy → Bool
admits private Privacy.local = true
admits private Privacy.external = false
admits shareable p = true

abbrev pub label : PrivacyClass → Text
label private = codes "private"
label shareable = codes "shareable"

pub record RouteQuery : Type 0 where
  pub model : Text
  pub required_tags : List Text

-- `RouteQuery::new`
abbrev pub query_for : Text → RouteQuery
query_for model = record { model = model; required_tags = [] }

abbrev pub with_tags : RouteQuery → List Text → RouteQuery
with_tags q tags = record q { required_tags = tags }

pub record TypedQuery (p : PrivacyClass) : Type 0 where
  pub query : RouteQuery

pub data ClassifiedQuery : Type 0 where
  private : TypedQuery PrivacyClass.private → ClassifiedQuery
  shareable : TypedQuery PrivacyClass.shareable → ClassifiedQuery

unfoldable pub classify : RouteQuery → Bool → ClassifiedQuery
classify query mark_private =
    if mark_private
    then ClassifiedQuery.private (record { query = query })
    else ClassifiedQuery.shareable (record { query = query })

pub record Candidates (p : PrivacyClass) : Type 0 where
  pub items : List Backend

-- The test of the filter in `Candidates::gather`.
unfoldable pub eligible : PrivacyClass → RouteQuery → Backend → Bool
eligible p q b =
    admits p b.privacy && (serves_model b q.model && has_capability_tags b q.required_tags)

unfoldable pub gather : {p : PrivacyClass} → TypedQuery p → List Backend → Candidates p
gather {p} q backends = record { items = filter (eligible p q.query) backends }

abbrev pub len : {p : PrivacyClass} → Candidates p → ℕ
len c = length c.items

abbrev pub has_none : {p : PrivacyClass} → Candidates p → Bool
has_none c = is_empty c.items

-- The trait `Policy`: any function from the candidates to an index.
pub record Policy : Type 0 where
  pub choose : List Backend → Option ℕ

pub record Selection (p : PrivacyClass) : Type 0 where
  pub backend : Backend

selection_at : {p : PrivacyClass} → Option Backend → Option (Selection p)
selection_at none = none
selection_at (some b) = some (record { backend = b })

unfoldable pub select : {p : PrivacyClass} → Candidates p → Policy → Option (Selection p)
unfolding selection_at
select c policy = elim (policy.choose c.items) [
  | none ↦ none
  | some idx ↦ selection_at (get_elem? c.items idx)
]

unfoldable pub static_priority : Policy
static_priority = record { choose = λ candidates. if is_empty candidates then none else some 0 }

pub data RouteError : Type 0 where
  no_eligible_backend : Text → List Text → Text → RouteError

pub record Router : Type 0 where
  pub backends : List Backend
  pub policy : Policy

unfoldable pub resolve : {p : PrivacyClass} → Router → TypedQuery p → Result RouteError Backend
resolve {p} r q = elim (select (gather q r.backends) r.policy) [
  | some s ↦ ok s.backend
  | none ↦ err (RouteError.no_eligible_backend q.query.model q.query.required_tags (label p))
]

unfoldable pub route : Router → RouteQuery → Bool → Result RouteError Backend
unfolding classify
route r query mark_private = elim (classify query mark_private) [
  | ClassifiedQuery.private q ↦ resolve r q
  | ClassifiedQuery.shareable q ↦ resolve r q
]
