-- ===== src/Server/Models.antt =====
-- src/server.rs: the list of models, beside the router.
use patchbay.Common.{
  ◌≡◌, ◌↔◌, refl, ap, sym, ◌∙◌, inl, inr, Bool, true, false, not, ◌&&◌, ◌||◌, List, [], ◌∷◌, ◌++◌,
  arith, ok, Bool-cases, In, Distinct, any,
}
use patchbay.Common.Texts.{Text, text_eq_iff, contains}
use patchbay.Common.Fresh.{contains-In, In-contains}
use patchbay.Config.{Backend, serves_model, has_capability_tags}
use patchbay.Router.{Router, query_for, route, eligible, admits}
use patchbay.Router.Eligible.{route-eligible, class_of}
use patchbay.Router.Choice.{Chooses, route-Chooses}
use patchbay.Server.{all_models, distinct_from, list_models}

contains-distinct_from :
    (seen ts : List Text) (t : Text)
    → contains (distinct_from seen ts) t ≡ (contains ts t && not (contains seen t))
unfolding distinct_from
contains-distinct_from seen [] t = refl
contains-distinct_from seen (x ∷ ts) t = ground (
  arith,
  text_eq_iff x t,
  contains-distinct_from seen ts t,
  contains-distinct_from (x ∷ seen) ts t,
)

contains-append :
    (ts us : List Text) (t : Text) → contains (ts ++ us) t ≡ (contains ts t || contains us t)
contains-append [] us t = refl
contains-append (x ∷ ts) us t = ground (arith, contains-append ts us t)

contains-all_models :
    (bs : List Backend) (t : Text) → contains (all_models bs) t ≡ any (λ b. serves_model b t) bs
unfolding serves_model
contains-all_models [] t = refl
contains-all_models (b ∷ bs) t =
    contains-append b.models (all_models bs) t
    ∙ ap (λ (r : Bool). contains b.models t || r) (contains-all_models bs t)

contains-list_models :
    (r : Router) (t : Text) → contains (list_models r) t ≡ any (λ b. serves_model b t) r.backends
unfolding list_models
contains-list_models r t =
    contains-distinct_from [] (all_models r.backends) t
    ∙ ground (arith, contains-all_models r.backends t)

distinct_from-Distinct : (seen ts : List Text) → Distinct (distinct_from seen ts)
unfolding distinct_from
distinct_from-Distinct seen [] = tt
distinct_from-Distinct seen (x ∷ ts) = elim (Bool-cases (contains seen x)) [
  | inl known ↦ rw known (distinct_from-Distinct seen ts)
  | inr new ↦ rw new (
    λ m. ground (
      arith,
      contains-In (distinct_from (x ∷ seen) ts) x m,
      contains-distinct_from (x ∷ seen) ts x,
      text_eq_iff x x,
    ),
    distinct_from-Distinct (x ∷ seen) ts,
  )
]

eligible-served :
    (b : Backend) (t : Text)
    → serves_model b t ≡ true
    → eligible (class_of false) (query_for t) b ≡ true
unfolding eligible admits has_capability_tags
eligible-served b t serves = ground arith

any-In :
    (bs : List Backend) (t : Text)
    → any (λ b. serves_model b t) bs ≡ true
    → (b : Backend) × In b bs × (serves_model b t ≡ true)
any-In [] t h = cc
any-In (b ∷ bs) t h = elim (Bool-cases (serves_model b t)) [
  | inl serves ↦ (b, inl refl, serves)
  | inr lacks ↦ let (c, member, serves) = any-In bs t (ground arith) in (c, inr member, serves)
]

In-any :
    (bs : List Backend) (t : Text) (b : Backend)
    → In b bs
    → serves_model b t ≡ true
    → any (λ c. serves_model c t) bs ≡ true
In-any [] t b m serves = absurd m
In-any (c ∷ bs) t b (inl e) serves =
    let same : serves_model c t ≡ true = ap (λ (d : Backend). serves_model d t) e ∙ serves in
    ground arith
In-any (c ∷ bs) t b (inr m) serves = ground (arith, In-any bs t b m serves)

-- With a policy that chooses whenever there is a candidate, a model is listed exactly when a request
-- for it that is not private is routed, and no model is listed twice.
pub list_models-routed :
    (r : Router) (t : Text)
    → Chooses r.policy
    → Distinct (list_models r)
      × (In t (list_models r) ↔ ((b : Backend) × (route r (query_for t) false ≡ ok b)))
list_models-routed r t chooses = (
  (unfold list_models in distinct_from-Distinct [] (all_models r.backends)),
  (
    λ m.
        let (b, member, serves) =
          any-In r.backends t (sym (contains-list_models r t) ∙ contains-In (list_models r) t m) in
        route-Chooses r (query_for t) false b chooses member (eligible-served b t serves),
    λ routed.
        let (member, local, serves, tags) = route-eligible r (query_for t) false routed.1 in
        In-contains (list_models r) t
          (contains-list_models r t ∙ In-any r.backends t routed.0 member serves),
  ),
)
