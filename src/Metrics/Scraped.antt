-- ===== src/Metrics/Scraped.antt =====
-- src/metrics.rs: what a scraper of the text finds of the requests.
use mathlib.Core.Path.{subst}
use patchbay.Common.{
  ℕ, ◌+◌, ◌%◌, ◌≡◌, ◌==◌, refl, ap, sym, ◌∙◌, inl, inr, Bool, true, false, Option, none, some, List,
  [], ◌∷◌, ◌++◌, arith, All, Distinct, Bool-cases, if◌then◌else◌,
}
use patchbay.Common.Texts.{Text, codes, text_eq, text_eq_iff, strip_prefix}
use patchbay.Common.Maps.{get, insert, keys}
use patchbay.Upstream.{u64_mod}
use patchbay.Metrics.{
  LabeledCounters, count, add, text_leb, insert_sorted, snapshot, new_metrics, request_label,
  render,
}
use patchbay.Metrics.Labels.{
  read_value, read_value-escape, Request, same_request, text_eq-request_label,
}
use patchbay.Metrics.Sorted.{get-missing}
use patchbay.Metrics.Reader.{Sample, family, read_text, samples_of}
use patchbay.Metrics.Recorded.{
  Recording, request, tokens, upstream_error, rate_limit_rejection, budget_rejection, recorded,
  read_text-recorded,
}
use patchbay.Metrics.Interleaved.{
  Additions, add_all, add_all-Distinct, raised, get-add_all, tally, effect, joined, with_all,
  recorded-with_all,
}

-- The parts of a label, read one after the other.
third_part : Text → Text → Option (Text × Text) → Option Request
third_part b m none = none
third_part b m (some (s, rest)) =
    if text_eq rest (codes "}")
    then some (record { backend = b; model = m; status_class = s })
    else none

second_part : Text → Option (Text × Text) → Option Request
second_part b none = none
second_part b (some (m, rest)) = elim (strip_prefix (codes ",status=\"") rest) [
  | none ↦ none
  | some r ↦ third_part b m (read_value false r)
]

first_part : Option (Text × Text) → Option Request
first_part none = none
first_part (some (b, rest)) = elim (strip_prefix (codes ",model=\"") rest) [
  | none ↦ none
  | some r ↦ second_part b (read_value false r)
]

-- The request that a sample counts, with its values unescaped.
pub request_in : Text → Option Request
request_in t = elim (strip_prefix (codes "patchbay_requests_total{backend=\"") t) [
  | none ↦ none
  | some r ↦ first_part (read_value false r)
]

abbrev matches : Option Request → Request → Bool
matches none q = false
matches (some r) q = same_request r q

-- The value of the first sample that counts a request.
pub scraped : Request → List Sample → Option ℕ
scraped q [] = none
scraped q ((t, n) ∷ samples) =
    let rest = scraped q samples in if matches (request_in t) q then some n else rest

abbrev label_of : Request → Text
label_of r = request_label r.backend r.model r.status_class

request_in-label :
    (r : Request) → request_in (codes "patchbay_requests_total" ++ label_of r) ≡ some r
unfolding request_in first_part second_part third_part strip_prefix request_label text_eq
request_in-label r =
    ap first_part (read_value-escape r.backend _)
    ∙ ap (second_part r.backend) (read_value-escape r.model _)
    ∙ ap (third_part r.backend r.model) (read_value-escape r.status_class _)

-- An entry whose label is that of a request.
abbrev IsRequest : Text × ℕ → Type 0
IsRequest p = (r : Request) × (p.0 ≡ label_of r)

All-insert_sorted :
    (p : Text × ℕ) (ps : List (Text × ℕ))
    → IsRequest p
    → All IsRequest ps
    → All IsRequest (insert_sorted p ps)
unfolding insert_sorted
All-insert_sorted p [] h hs = (h, tt)
All-insert_sorted p (q ∷ ps) h hs = elim (Bool-cases (text_leb p.0 q.0)) [
  | inl first ↦ rw first (h, hs)
  | inr later ↦ rw later (hs.0, All-insert_sorted p ps h hs.1)
]

All-snapshot : (m : LabeledCounters) → All IsRequest m → All IsRequest (snapshot m)
unfolding snapshot
All-snapshot [] hs = tt
All-snapshot (p ∷ m) hs = All-insert_sorted p (snapshot m) hs.0 (All-snapshot m hs.1)

All-insert :
    (m : LabeledCounters) (r : Request) (n : ℕ)
    → All IsRequest m
    → All IsRequest (insert m (label_of r) n)
unfolding insert
All-insert [] r n hs = ((r, refl), tt)
All-insert ((k, v) ∷ m) r n hs = elim (Bool-cases (text_eq k (label_of r))) [
  | inl same ↦ rw same (hs.0, hs.1)
  | inr other ↦ rw other (hs.0, All-insert m r n hs.1)
]

-- A table of distinct labels and its snapshot have the same counts.
get-insert_sorted :
    (p : Text × ℕ) (ps : List (Text × ℕ)) (k : Text)
    → get ps p.0 ≡ none
    → get (insert_sorted p ps) k ≡ (if text_eq p.0 k then some p.1 else get ps k)
unfolding insert_sorted get
get-insert_sorted p [] k fresh = refl
get-insert_sorted p (q ∷ ps) k fresh = elim (Bool-cases (text_leb p.0 q.0)) [
  | inl first ↦ rw first refl
  | inr later ↦ elim (Bool-cases (text_eq q.0 p.0)) [
    | inl same ↦ absurd (let e : some q.1 ≡ none = (rw same at fresh) in cc)
    | inr other ↦
        let fresh' : get ps p.0 ≡ none = rw other at fresh in
        let rest = get-insert_sorted p ps k fresh' in
        rw (later, rest) (ground (arith, text_eq_iff q.0 k, text_eq_iff p.0 k, text_eq_iff q.0 p.0))
  ]
]

get-snapshot : (m : LabeledCounters) (k : Text) → Distinct (keys m) → get (snapshot m) k ≡ get m k
unfolding snapshot get
get-snapshot [] k d = refl
get-snapshot ((j, v) ∷ m) k d =
    let fresh = get-snapshot m j d.1 ∙ get-missing m j d.0 in
    get-insert_sorted (j, v) (snapshot m) k fresh ∙ ground (arith, get-snapshot m k d.1)

-- A scraper finds a request in the family of requests by its label.
scraped-family :
    (q : Request) (ps : List (Text × ℕ))
    → All IsRequest ps
    → scraped q (family (codes "patchbay_requests_total") ps) ≡ get ps (label_of q)
unfolding scraped get
scraped-family q [] hs = refl
scraped-family q ((k, n) ∷ ps) hs =
    let (r, e) = hs.0 in
    let parsed : request_in (codes "patchbay_requests_total" ++ k) ≡ some r =
      ap (λ l. request_in (codes "patchbay_requests_total" ++ l)) e ∙ request_in-label r in
    let alike : text_eq k (label_of q) ≡ same_request r q =
      ap (λ l. text_eq l (label_of q)) e ∙ text_eq-request_label r q in
    let rest = scraped-family q ps hs.1 in rw (parsed, alike, rest) refl

abbrev or_else : Option ℕ → Option ℕ → Option ℕ
or_else none b = b
or_else (some n) b = some n

or_else-none : (o : Option ℕ) → or_else o none ≡ o
or_else-none none = refl
or_else-none (some n) = refl

scraped-append :
    (q : Request) (xs ys : List Sample)
    → scraped q (xs ++ ys) ≡ or_else (scraped q xs) (scraped q ys)
unfolding scraped
scraped-append q [] ys = refl
scraped-append q ((t, n) ∷ xs) ys = ground (arith, scraped-append q xs ys)

-- A name of samples that count no request.
abbrev IsOther : Text → Type 0
IsOther name = (l : Text) → request_in (name ++ l) ≡ none

scraped-other :
    (q : Request) (name : Text) (ps : List (Text × ℕ))
    → IsOther name
    → scraped q (family name ps) ≡ none
unfolding scraped
scraped-other q name [] other = refl
scraped-other q name ((k, n) ∷ ps) other =
    let unread = other k in rw unread (scraped-other q name ps other)

-- How often a request has been recorded.
pub times : Request → List Recording → ℕ
times q [] = 0
times q (request b m s ∷ rs) =
    let rest = times q rs in
    if same_request (record { backend = b; model = m; status_class = s }) q then 1 + rest else rest
times q (tokens k u ∷ rs) = times q rs
times q (upstream_error b ∷ rs) = times q rs
times q (rate_limit_rejection k ∷ rs) = times q rs
times q (budget_rejection k ∷ rs) = times q rs

abbrev unless_zero : ℕ → Option ℕ
unless_zero n = if n == 0 then none else some n

-- What a request that has been recorded so often is shown with: nothing when it never was.
abbrev pub shown : ℕ → Option ℕ
shown n = if n == 0 then none else some (n % u64_mod)

abbrev requests_of : List Recording → Additions
requests_of rs = joined (λ e. e.requests) rs

tally-times :
    (q : Request) (rs : List Recording)
    → tally (label_of q) (requests_of rs) ≡ unless_zero (times q rs)
unfolding joined effect tally times
tally-times q [] = refl
tally-times q (request b m s ∷ rs) =
    let r : Request = record { backend = b; model = m; status_class = s } in
    let alike = text_eq-request_label r q in
    let rest = tally-times q rs in
    elim (Bool-cases (same_request r q)) [
      | inl same ↦
          let here : text_eq (label_of r) (label_of q) ≡ true = alike ∙ same in
          rw (here, same, rest) (ground arith)
      | inr other ↦
          let there : text_eq (label_of r) (label_of q) ≡ false = alike ∙ other in
          rw (there, other) rest
    ]
tally-times q (tokens k u ∷ rs) = tally-times q rs
tally-times q (upstream_error b ∷ rs) = tally-times q rs
tally-times q (rate_limit_rejection k ∷ rs) = tally-times q rs
tally-times q (budget_rejection k ∷ rs) = tally-times q rs

requests_of-IsRequest : (rs : List Recording) → All IsRequest (requests_of rs)
unfolding joined effect
requests_of-IsRequest [] = tt
requests_of-IsRequest (request b m s ∷ rs) =
    ((record { backend = b; model = m; status_class = s }, refl), requests_of-IsRequest rs)
requests_of-IsRequest (tokens k u ∷ rs) = requests_of-IsRequest rs
requests_of-IsRequest (upstream_error b ∷ rs) = requests_of-IsRequest rs
requests_of-IsRequest (rate_limit_rejection k ∷ rs) = requests_of-IsRequest rs
requests_of-IsRequest (budget_rejection k ∷ rs) = requests_of-IsRequest rs

All-add_all :
    (m : LabeledCounters) (xs : Additions)
    → All IsRequest xs
    → All IsRequest m
    → All IsRequest (add_all m xs)
unfolding add_all add
All-add_all m [] hs known = known
All-add_all m ((k, n) ∷ xs) hs known =
    let (r, e) = hs.0 in
    let next : All IsRequest (add m k n) =
      subst (λ l. All IsRequest (insert m l ((count m k + n) % u64_mod))) (sym e)
        (All-insert m r ((count m k + n) % u64_mod) known) in
    All-add_all (add m k n) xs hs.1 next

get-requests :
    (q : Request) (rs : List Recording)
    → get (add_all [] (requests_of rs)) (label_of q) ≡ shown (times q rs)
unfolding count get
get-requests q rs =
    get-add_all [] (requests_of rs) (label_of q)
    ∙ ap (raised [] (label_of q)) (tally-times q rs)
    ∙ ground arith

scraped-samples_of :
    (q : Request) (rs : List Recording)
    → scraped q (samples_of (with_all new_metrics rs)) ≡ shown (times q rs)
unfolding request_in strip_prefix
scraped-samples_of q rs =
    let m = with_all new_metrics rs in
    let known =
      All-snapshot m.requests (All-add_all [] (requests_of rs) (requests_of-IsRequest rs) tt) in
    let own : scraped q (family (codes "patchbay_requests_total") (snapshot m.requests))
        ≡ shown (times q rs) =
      scraped-family q (snapshot m.requests) known
      ∙ get-snapshot m.requests (label_of q) (add_all-Distinct [] (requests_of rs) tt)
      ∙ get-requests q rs in
    let tokens' = scraped-other q (codes "patchbay_tokens_total") (snapshot m.tokens) (λ l. refl) in
    let upstream =
      scraped-other q (codes "patchbay_upstream_errors_total") (snapshot m.upstream_errors)
        (λ l. refl) in
    let limits =
      scraped-other q (codes "patchbay_rate_limit_rejections_total")
        (snapshot m.rate_limit_rejections) (λ l. refl) in
    let budgets =
      scraped-other q (codes "patchbay_budget_rejections_total") (snapshot m.budget_rejections)
        (λ l. refl) in
    let four = family (codes "patchbay_budget_rejections_total") (snapshot m.budget_rejections) in
    let three =
      family (codes "patchbay_rate_limit_rejections_total") (snapshot m.rate_limit_rejections)
      ++ four in
    let two =
      family (codes "patchbay_upstream_errors_total") (snapshot m.upstream_errors) ++ three in
    let one = family (codes "patchbay_tokens_total") (snapshot m.tokens) ++ two in
    let requests = family (codes "patchbay_requests_total") (snapshot m.requests) in
    let none_three : scraped q three ≡ none =
      scraped-append q _ four ∙ ap (λ o. or_else o (scraped q four)) limits ∙ budgets in
    let none_two : scraped q two ≡ none =
      scraped-append q _ three ∙ ap (λ o. or_else o (scraped q three)) upstream ∙ none_three in
    let none_one : scraped q one ≡ none =
      scraped-append q _ two ∙ ap (λ o. or_else o (scraped q two)) tokens' ∙ none_two in
    scraped-append q requests one
    ∙ ap (λ o. or_else o (scraped q one)) own
    ∙ ap (or_else (shown (times q rs))) none_one
    ∙ or_else-none (shown (times q rs))

-- Whatever has been recorded, under whatever names: a scraper that reads the text line by line, takes
-- the lines of requests apart at the quotes and unescapes the values between them, finds for a backend,
-- a model and a status class how often exactly these have been recorded, mod 2^64, and no line when they
-- never have been.
pub scraped-render :
    (q : Request) (rs : List Recording)
    → scraped q (read_text (render (recorded new_metrics rs))) ≡ shown (times q rs)
scraped-render q rs =
    ap (scraped q) (read_text-recorded rs)
    ∙ ap (λ m. scraped q (samples_of m)) (recorded-with_all new_metrics rs)
    ∙ scraped-samples_of q rs
