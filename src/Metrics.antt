-- ===== src/Metrics.antt =====
-- src/metrics.rs: labelled counters and their text in the Prometheus format.
pub mod Labels
pub mod Numbers
pub mod Digits
pub mod Reader
pub mod Recorded
pub mod Tokens
pub mod Sorted
pub mod Interleaved
pub mod Scraped
pub mod Atomic
use patchbay.Common.{
  ℕ, zero, suc, ◌+◌, ◌/◌, ◌%◌, Bool, true, false, Option, none, some, List, [], ◌∷◌, ◌++◌, ltb, leb,
  ◌==◌, if◌then◌else◌, is_empty,
}
use patchbay.Common.Texts.{Text, codes}
use patchbay.Common.Maps.{Map, get, insert}
use patchbay.Upstream.{Usage, u64_mod}

-- `LabeledCounters`: a label with its count.
abbrev pub LabeledCounters : Type 0
LabeledCounters = Map ℕ

count_in : Option ℕ → ℕ
count_in none = 0
count_in (some n) = n

-- `get_or_create`, read
unfoldable pub count : LabeledCounters → Text → ℕ
unfolding count_in
count m key = count_in (get m key)

-- `LabeledCounters::add`; `fetch_add` wraps.
unfoldable pub add : LabeledCounters → Text → ℕ → LabeledCounters
add m key n = insert m key ((count m key + n) % u64_mod)

-- `LabeledCounters::inc`
abbrev pub inc : LabeledCounters → Text → LabeledCounters
inc m key = add m key 1

-- `str::cmp`: the order of the bytes is that of the characters.
unfoldable pub text_leb : Text → Text → Bool
text_leb [] t = true
text_leb (x ∷ xs) [] = false
text_leb (x ∷ xs) (y ∷ ys) = if x == y then text_leb xs ys else ltb x y

unfoldable pub insert_sorted : Text × ℕ → List (Text × ℕ) → List (Text × ℕ)
insert_sorted p [] = p ∷ []
insert_sorted p (q ∷ qs) = if text_leb p.0 q.0 then p ∷ q ∷ qs else q ∷ insert_sorted p qs

-- `LabeledCounters::snapshot`. The labels are distinct, so every sort by label gives this list.
unfoldable pub snapshot : LabeledCounters → List (Text × ℕ)
unfolding insert_sorted
snapshot [] = []
snapshot (p ∷ ps) = insert_sorted p (snapshot ps)

-- `str::replace` of a character
unfoldable pub replace : Text → ℕ → Text → Text
replace [] c to = []
replace (d ∷ s) c to = if d == c then to ++ replace s c to else d ∷ replace s c to

unfoldable pub escape : Text → Text
escape s =
    replace (replace (replace s b'\\' (codes "\\\\")) b'"' (codes "\\\"")) b'\n' (codes "\\n")

pub record MetricsHandle : Type 0 where
  pub requests : LabeledCounters
  pub tokens : LabeledCounters
  pub upstream_errors : LabeledCounters
  pub rate_limit_rejections : LabeledCounters
  pub budget_rejections : LabeledCounters

-- `MetricsHandle::new`
abbrev pub new_metrics : MetricsHandle
new_metrics = record {
  requests = [];
  tokens = [];
  upstream_errors = [];
  rate_limit_rejections = [];
  budget_rejections = [];
}

-- The labels that the `record_` functions format.
unfoldable pub request_label : Text → Text → Text → Text
request_label backend model status_class =
    codes "{backend=\""
    ++ (escape backend
        ++ (codes "\",model=\""
            ++ (escape model ++ (codes "\",status=\"" ++ (escape status_class ++ codes "\"}")))))

unfoldable pub token_label : Text → Text → Text
token_label key kind =
    codes "{key=\"" ++ (escape key ++ (codes "\",kind=\"" ++ (kind ++ codes "\"}")))

unfoldable pub backend_label : Text → Text
backend_label backend = codes "{backend=\"" ++ (escape backend ++ codes "\"}")

unfoldable pub key_label : Text → Text
key_label key = codes "{key=\"" ++ (escape key ++ codes "\"}")

unfoldable pub record_request : MetricsHandle → Text → Text → Text → MetricsHandle
record_request m backend model status_class = record m {
  requests = inc m.requests (request_label backend model status_class);
}

unfoldable pub record_tokens : MetricsHandle → Text → Usage → MetricsHandle
record_tokens m key u =
    let prompt = add m.tokens (token_label key (codes "prompt")) u.prompt_tokens in
    let completion = add prompt (token_label key (codes "completion")) u.completion_tokens in
    record m { tokens = add completion (token_label key (codes "total")) u.total_tokens }

unfoldable pub record_upstream_error : MetricsHandle → Text → MetricsHandle
record_upstream_error m backend = record m {
  upstream_errors = inc m.upstream_errors (backend_label backend);
}

unfoldable pub record_rate_limit_rejection : MetricsHandle → Text → MetricsHandle
record_rate_limit_rejection m key = record m {
  rate_limit_rejections = inc m.rate_limit_rejections (key_label key);
}

unfoldable pub record_budget_rejection : MetricsHandle → Text → MetricsHandle
record_budget_rejection m key = record m {
  budget_rejections = inc m.budget_rejections (key_label key);
}

-- The decimal digits of a number. A `u64` has 20 at most.
digits : ℕ → ℕ → Text → Text
digits zero n after = after
digits (suc fuel) n after =
    let here = (b'0' + n % 10) ∷ after in
    let rest = digits fuel (n / 10) here in if ltb n 10 then here else rest

unfoldable pub decimal : ℕ → Text
unfolding digits
decimal n = digits 20 n []

write_pairs : Text → List (Text × ℕ) → Text
write_pairs name [] = []
write_pairs name ((labels, value) ∷ pairs) =
    name ++ (labels ++ (codes " " ++ (decimal value ++ (codes "\n" ++ write_pairs name pairs))))

-- `write_family`: what it appends.
unfoldable pub write_family : Text → Text → Text → List (Text × ℕ) → Text
unfolding write_pairs
write_family name ty help pairs =
    if is_empty pairs
    then []
    else codes "# HELP "
      ++ (name
          ++ (codes " "
              ++ (help
                  ++ (codes "\n# TYPE "
                      ++ (name ++ (codes " " ++ (ty ++ (codes "\n" ++ write_pairs name pairs))))))))

unfoldable pub render : MetricsHandle → Text
render m =
    write_family (codes "patchbay_requests_total") (codes "counter")
      (codes "Total requests received.") (snapshot m.requests)
    ++ (write_family (codes "patchbay_tokens_total") (codes "counter")
          (codes "Total tokens consumed.") (snapshot m.tokens)
        ++ (write_family (codes "patchbay_upstream_errors_total") (codes "counter")
              (codes "Upstream non-2xx or connection errors.") (snapshot m.upstream_errors)
            ++ (write_family (codes "patchbay_rate_limit_rejections_total") (codes "counter")
                  (codes "Requests rejected by rate limiter.") (snapshot m.rate_limit_rejections)
                ++ write_family (codes "patchbay_budget_rejections_total") (codes "counter")
                    (codes "Requests rejected by token budget.") (snapshot m.budget_rejections))))
