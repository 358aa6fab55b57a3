-- ===== src/Metrics/Recorded.antt =====
-- src/metrics.rs: the metrics after any recordings, and their text.
use patchbay.Common.{
  ℕ, ◌+◌, ◌%◌, ◌^◌, ◌<◌, ◌≡◌, refl, ap, ◌∙◌, inl, inr, true, List, [], ◌∷◌, ◌++◌, arith, Bool-cases,
  All,
}
use patchbay.Common.Texts.{Text, codes, text_eq}
use patchbay.Common.Maps.{insert}
use patchbay.Upstream.{Usage, u64_mod}
use patchbay.Metrics.{
  LabeledCounters, count, add, text_leb, insert_sorted, snapshot, escape, MetricsHandle,
  new_metrics, request_label, token_label, backend_label, key_label, record_request, record_tokens,
  record_upstream_error, record_rate_limit_rejection, record_budget_rejection, render,
}
use patchbay.Metrics.Labels.{escaped, escape-nil, escape-cons}
use patchbay.Metrics.Reader.{
  is_plain, is_plain-append, IsWritable, read_text, samples_of, read_text-render,
}

All-insert_sorted :
    (p : Text × ℕ) (ps : List (Text × ℕ))
    → IsWritable p
    → All IsWritable ps
    → All IsWritable (insert_sorted p ps)
unfolding insert_sorted
All-insert_sorted p [] w ws = (w, tt)
All-insert_sorted p (q ∷ ps) w ws = elim (Bool-cases (text_leb p.0 q.0)) [
  | inl first ↦ rw first (w, ws)
  | inr later ↦ rw later (ws.0, All-insert_sorted p ps w ws.1)
]

All-snapshot : (m : LabeledCounters) → All IsWritable m → All IsWritable (snapshot m)
unfolding snapshot
All-snapshot [] ws = tt
All-snapshot (p ∷ m) ws = All-insert_sorted p (snapshot m) ws.0 (All-snapshot m ws.1)

All-insert :
    (m : LabeledCounters) (key : Text) (n : ℕ)
    → is_plain key ≡ true
    → n < 10 ^ 20
    → All IsWritable m
    → All IsWritable (insert m key n)
unfolding insert
All-insert [] key n h small ws = ((h, small), tt)
All-insert ((k, v) ∷ m) key n h small ws = elim (Bool-cases (text_eq k key)) [
  | inl same ↦ rw same ((ws.0.0, small), ws.1)
  | inr other ↦ rw other (ws.0, All-insert m key n h small ws.1)
]

All-add :
    (m : LabeledCounters) (key : Text) (n : ℕ)
    → is_plain key ≡ true
    → All IsWritable m
    → All IsWritable (add m key n)
unfolding add
All-add m key n h ws = All-insert m key ((count m key + n) % u64_mod) h (omega arith) ws

is_plain-escaped : (c : ℕ) → is_plain (escaped c) ≡ true
is_plain-escaped c = ground arith

is_plain-escape : (s : Text) → is_plain (escape s) ≡ true
is_plain-escape [] = ap is_plain escape-nil
is_plain-escape (c ∷ s) =
    ap is_plain (escape-cons c s)
    ∙ is_plain-append (escaped c) (escape s)
    ∙ ground (arith, is_plain-escaped c, is_plain-escape s)

is_plain-request_label : (b m s : Text) → is_plain (request_label b m s) ≡ true
unfolding request_label
is_plain-request_label b m s = ground (
  arith,
  is_plain-append (escape b)
      (codes "\",model=\"" ++ (escape m ++ (codes "\",status=\"" ++ (escape s ++ codes "\"}")))),
  is_plain-append (escape m) (codes "\",status=\"" ++ (escape s ++ codes "\"}")),
  is_plain-append (escape s) (codes "\"}"),
  is_plain-escape b,
  is_plain-escape m,
  is_plain-escape s,
)

is_plain-token_label : (k kind : Text) → is_plain kind ≡ true → is_plain (token_label k kind) ≡ true
unfolding token_label
is_plain-token_label k kind h = ground (
  arith,
  is_plain-append (escape k) (codes "\",kind=\"" ++ (kind ++ codes "\"}")),
  is_plain-append kind (codes "\"}"),
  is_plain-escape k,
)

is_plain-backend_label : (b : Text) → is_plain (backend_label b) ≡ true
unfolding backend_label
is_plain-backend_label b =
    ground (arith, is_plain-append (escape b) (codes "\"}"), is_plain-escape b)

is_plain-key_label : (k : Text) → is_plain (key_label k) ≡ true
unfolding key_label
is_plain-key_label k = ground (arith, is_plain-append (escape k) (codes "\"}"), is_plain-escape k)

-- A call of the handle.
pub data Recording : Type 0 where
  request : (backend model status_class : Text) → Recording
  tokens : (key : Text) → Usage → Recording
  upstream_error rate_limit_rejection budget_rejection : Text → Recording

unfoldable pub recorded : MetricsHandle → List Recording → MetricsHandle
recorded m [] = m
recorded m (request b model s ∷ rs) = recorded (record_request m b model s) rs
recorded m (tokens k u ∷ rs) = recorded (record_tokens m k u) rs
recorded m (upstream_error b ∷ rs) = recorded (record_upstream_error m b) rs
recorded m (rate_limit_rejection k ∷ rs) = recorded (record_rate_limit_rejection m k) rs
recorded m (budget_rejection k ∷ rs) = recorded (record_budget_rejection m k) rs

record AllPlain (m : MetricsHandle) : Type 0 where
  requests : All IsWritable m.requests
  tokens : All IsWritable m.tokens
  upstream_errors : All IsWritable m.upstream_errors
  rate_limit_rejections : All IsWritable m.rate_limit_rejections
  budget_rejections : All IsWritable m.budget_rejections

recorded-AllPlain :
    (m : MetricsHandle) (rs : List Recording) → AllPlain m → AllPlain (recorded m rs)
unfolding recorded
recorded-AllPlain m [] a = a
recorded-AllPlain m (request b model s ∷ rs) a = recorded-AllPlain (record_request m b model s) rs (
    unfold record_request in
    (record {
      requests = All-add m.requests _ 1 (is_plain-request_label b model s) a.requests;
      tokens = a.tokens;
      upstream_errors = a.upstream_errors;
      rate_limit_rejections = a.rate_limit_rejections;
      budget_rejections = a.budget_rejections;
    }))
recorded-AllPlain m (tokens k u ∷ rs) a = recorded-AllPlain (record_tokens m k u) rs (
    unfold record_tokens in
    (record {
      requests = a.requests;
      tokens = All-add _ _ _ (is_plain-token_label k (codes "total") refl) (
          All-add _ _ _ (is_plain-token_label k (codes "completion") refl)
            (All-add m.tokens _ _ (is_plain-token_label k (codes "prompt") refl) a.tokens));
      upstream_errors = a.upstream_errors;
      rate_limit_rejections = a.rate_limit_rejections;
      budget_rejections = a.budget_rejections;
    }))
recorded-AllPlain m (upstream_error b ∷ rs) a = recorded-AllPlain (record_upstream_error m b) rs (
    unfold record_upstream_error in
    (record {
      requests = a.requests;
      tokens = a.tokens;
      upstream_errors = All-add m.upstream_errors _ 1 (is_plain-backend_label b) a.upstream_errors;
      rate_limit_rejections = a.rate_limit_rejections;
      budget_rejections = a.budget_rejections;
    }))
recorded-AllPlain m (rate_limit_rejection k ∷ rs) a =
    recorded-AllPlain (record_rate_limit_rejection m k) rs (
      unfold record_rate_limit_rejection in
      (record {
        requests = a.requests;
        tokens = a.tokens;
        upstream_errors = a.upstream_errors;
        rate_limit_rejections =
            All-add m.rate_limit_rejections _ 1 (is_plain-key_label k) a.rate_limit_rejections;
        budget_rejections = a.budget_rejections;
      }))
recorded-AllPlain m (budget_rejection k ∷ rs) a =
    recorded-AllPlain (record_budget_rejection m k) rs (
      unfold record_budget_rejection in
      (record {
        requests = a.requests;
        tokens = a.tokens;
        upstream_errors = a.upstream_errors;
        rate_limit_rejections = a.rate_limit_rejections;
        budget_rejections =
            All-add m.budget_rejections _ 1 (is_plain-key_label k) a.budget_rejections;
      }))

-- Whatever has been recorded, under whatever names, a reader of the exposition format that goes line
-- by line gets back every label of every family with its count, and nothing else.
pub read_text-recorded :
    (rs : List Recording)
    → read_text (render (recorded new_metrics rs)) ≡ samples_of (recorded new_metrics rs)
read_text-recorded rs =
    let a = recorded-AllPlain new_metrics rs (record {
      requests = tt;
      tokens = tt;
      upstream_errors = tt;
      rate_limit_rejections = tt;
      budget_rejections = tt;
    }) in
    let m = recorded new_metrics rs in
    read_text-render m (record {
      requests = All-snapshot m.requests a.requests;
      tokens = All-snapshot m.tokens a.tokens;
      upstream_errors = All-snapshot m.upstream_errors a.upstream_errors;
      rate_limit_rejections = All-snapshot m.rate_limit_rejections a.rate_limit_rejections;
      budget_rejections = All-snapshot m.budget_rejections a.budget_rejections;
    })
