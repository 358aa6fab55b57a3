-- ===== src/Metrics/Interleaved.antt =====
-- src/metrics.rs: recordings in another order.
use mathlib.Core.List.{Perm, foldr}
use mathlib.Core.List.Perm
use patchbay.Common.{
  ℕ, ◌+◌, ◌%◌, ◌≡◌, refl, ap, sym, ◌∙◌, inl, inr, Option, none, some, List, [], ◌∷◌, ◌++◌, arith,
  Distinct, Bool-cases, Option-cases, if◌then◌else◌,
}
use patchbay.Common.Texts.{Text, codes, text_eq, text_eq_iff}
use patchbay.Common.Maps.{get, keys, get-insert}
use patchbay.Upstream.{u64_mod}
use patchbay.Metrics.{
  LabeledCounters, count, add, snapshot, MetricsHandle, new_metrics, request_label, token_label,
  backend_label, key_label, record_request, record_tokens, record_upstream_error,
  record_rate_limit_rejection, record_budget_rejection, render,
}
use patchbay.Metrics.Labels.{count-add}
use patchbay.Metrics.Recorded.{
  Recording, request, tokens, upstream_error, rate_limit_rejection, budget_rejection, recorded,
}
use patchbay.Metrics.Sorted.{snapshot-SameCounters, insert-Distinct}

abbrev pub Additions : Type 0
Additions = List (Text × ℕ)

unfoldable pub add_all : LabeledCounters → Additions → LabeledCounters
add_all m [] = m
add_all m ((k, n) ∷ xs) = add_all (add m k n) xs

abbrev pub plus : Option ℕ → Option ℕ → Option ℕ
plus none b = b
plus (some n) none = some n
plus (some n) (some k) = some (n + k)

plus_left_comm : (a b c : Option ℕ) → plus a (plus b c) ≡ plus b (plus a c)
plus_left_comm none b c = refl
plus_left_comm (some n) none c = refl
plus_left_comm (some n) (some k) none = ap some (omega arith)
plus_left_comm (some n) (some k) (some l) = ap some (omega arith)

plus_assoc : (a b c : Option ℕ) → plus (plus a b) c ≡ plus a (plus b c)
plus_assoc none b c = refl
plus_assoc (some n) none c = refl
plus_assoc (some n) (some k) none = refl
plus_assoc (some n) (some k) (some l) = ap some (omega arith)

-- What is added under a label, when anything is.
unfoldable pub tally : Text → Additions → Option ℕ
tally k [] = none
tally k ((l, n) ∷ xs) = let rest = tally k xs in if text_eq l k then plus (some n) rest else rest

pub tally-append :
    (k : Text) (xs ys : Additions) → tally k (xs ++ ys) ≡ plus (tally k xs) (tally k ys)
unfolding tally
tally-append k [] ys = refl
tally-append k ((l, n) ∷ xs) ys = elim (Bool-cases (text_eq l k)) [
  | inl same ↦ rw same (
      ap (plus (some n)) (tally-append k xs ys)
      ∙ sym (plus_assoc (some n) (tally k xs) (tally k ys)))
  | inr other ↦ rw other (tally-append k xs ys)
]

abbrev pub raised : LabeledCounters → Text → Option ℕ → Option ℕ
raised m k none = get m k
raised m k (some n) = some ((count m k + n) % u64_mod)

pub get-add_all :
    (m : LabeledCounters) (xs : Additions) (k : Text)
    → get (add_all m xs) k ≡ raised m k (tally k xs)
unfolding add_all tally add
get-add_all m [] k = refl
get-add_all m ((l, n) ∷ xs) k =
    let here = get-insert m l k ((count m l + n) % u64_mod) in
    let now = count-add m l k n in
    let rest = get-add_all (add m l n) xs k in
    elim (Bool-cases (text_eq l k)) [
      | inr other ↦ elim (Option-cases (tally k xs)) [
        | inl last ↦ ground (arith, here, rest)
        | inr (later, more) ↦ ground (arith, now, rest)
      ]
      | inl same ↦
          let labels = ap (count m) ((text_eq_iff l k).0 same) in
          elim (Option-cases (tally k xs)) [
            | inl last ↦ ground (arith, here, rest, labels)
            | inr (later, more) ↦ ground (arith, now, rest, labels)
          ]
    ]

pub add_all-Distinct :
    (m : LabeledCounters) (xs : Additions) → Distinct (keys m) → Distinct (keys (add_all m xs))
unfolding add_all add
add_all-Distinct m [] d = d
add_all-Distinct m ((k, n) ∷ xs) d =
    add_all-Distinct (add m k n) xs (insert-Distinct m k ((count m k + n) % u64_mod) d)

-- The additions that a recording makes in each of the families.
pub record Effect : Type 0 where
  pub requests : Additions
  tokens : Additions
  upstream_errors : Additions
  rate_limit_rejections : Additions
  budget_rejections : Additions

abbrev no_effect : Effect
no_effect = record {
  requests = [];
  tokens = [];
  upstream_errors = [];
  rate_limit_rejections = [];
  budget_rejections = [];
}

unfoldable pub effect : Recording → Effect
effect (request b model s) = record no_effect { requests = (request_label b model s, 1) ∷ [] }
effect (tokens k u) = record no_effect {
  tokens =
      (token_label k (codes "prompt"), u.prompt_tokens)
      ∷ (token_label k (codes "completion"), u.completion_tokens)
      ∷ (token_label k (codes "total"), u.total_tokens)
      ∷ [];
}
effect (upstream_error b) = record no_effect { upstream_errors = (backend_label b, 1) ∷ [] }
effect (rate_limit_rejection k) = record no_effect { rate_limit_rejections = (key_label k, 1) ∷ [] }
effect (budget_rejection k) = record no_effect { budget_rejections = (key_label k, 1) ∷ [] }

unfoldable pub joined : (Effect → Additions) → List Recording → Additions
joined family [] = []
joined family (r ∷ rs) = family (effect r) ++ joined family rs

-- A handle with additions in its tables.
abbrev pub with_all : MetricsHandle → List Recording → MetricsHandle
with_all m rs = record {
  requests = add_all m.requests (joined (λ e. e.requests) rs);
  tokens = add_all m.tokens (joined (λ e. e.tokens) rs);
  upstream_errors = add_all m.upstream_errors (joined (λ e. e.upstream_errors) rs);
  rate_limit_rejections =
      add_all m.rate_limit_rejections (joined (λ e. e.rate_limit_rejections) rs);
  budget_rejections = add_all m.budget_rejections (joined (λ e. e.budget_rejections) rs);
}

pub recorded-with_all : (m : MetricsHandle) (rs : List Recording) → recorded m rs ≡ with_all m rs
unfolding recorded joined effect add_all record_request record_tokens record_upstream_error
    record_rate_limit_rejection record_budget_rejection
recorded-with_all m [] = refl
recorded-with_all m (request b model s ∷ rs) = recorded-with_all (record_request m b model s) rs
recorded-with_all m (tokens k u ∷ rs) = recorded-with_all (record_tokens m k u) rs
recorded-with_all m (upstream_error b ∷ rs) = recorded-with_all (record_upstream_error m b) rs
recorded-with_all m (rate_limit_rejection k ∷ rs) =
    recorded-with_all (record_rate_limit_rejection m k) rs
recorded-with_all m (budget_rejection k ∷ rs) = recorded-with_all (record_budget_rejection m k) rs

abbrev tallied : (Effect → Additions) → Text → Recording → Option ℕ → Option ℕ
tallied family k r rest = plus (tally k (family (effect r))) rest

tally-joined :
    (family : Effect → Additions) (k : Text) (rs : List Recording)
    → tally k (joined family rs) ≡ foldr (tallied family k) none rs
unfolding joined tally
tally-joined family k [] = refl
tally-joined family k (r ∷ rs) =
    tally-append k (family (effect r)) (joined family rs)
    ∙ ap (plus (tally k (family (effect r)))) (tally-joined family k rs)

tally-Perm :
    (family : Effect → Additions) (k : Text) (rs rs' : List Recording)
    → Perm rs rs'
    → tally k (joined family rs) ≡ tally k (joined family rs')
tally-Perm family k rs rs' p =
    tally-joined family k rs
    ∙ Perm.foldr-eq (hlevel) (tallied family k)
        (λ a b x. plus_left_comm (tally k (family (effect a))) (tally k (family (effect b))) x) p
        none
    ∙ sym (tally-joined family k rs')

snapshot-Perm :
    (family : Effect → Additions) (rs rs' : List Recording)
    → Perm rs rs'
    → snapshot (add_all [] (joined family rs)) ≡ snapshot (add_all [] (joined family rs'))
snapshot-Perm family rs rs' p =
    snapshot-SameCounters (add_all [] (joined family rs)) (add_all [] (joined family rs'))
      (add_all-Distinct [] (joined family rs) tt) (add_all-Distinct [] (joined family rs') tt)
      (λ k.
        get-add_all [] (joined family rs) k
        ∙ ap (raised [] k) (tally-Perm family k rs rs' p)
        ∙ sym (get-add_all [] (joined family rs') k))

render-with_all :
    (rs rs' : List Recording)
    → Perm rs rs'
    → render (with_all new_metrics rs) ≡ render (with_all new_metrics rs')
unfolding render
render-with_all rs rs' p =
    rw
      (
        snapshot-Perm (λ e. e.requests) rs rs' p,
        snapshot-Perm (λ e. e.tokens) rs rs' p,
        snapshot-Perm (λ e. e.upstream_errors) rs rs' p,
        snapshot-Perm (λ e. e.rate_limit_rejections) rs rs' p,
        snapshot-Perm (λ e. e.budget_rejections) rs rs' p,
      )
      refl

-- Handlers that run at the same time record in any order. Whatever the order, the text that the
-- metrics are rendered to is the same: it depends only on which recordings there were, and how often.
pub render-Perm :
    (rs rs' : List Recording)
    → Perm rs rs'
    → render (recorded new_metrics rs) ≡ render (recorded new_metrics rs')
render-Perm rs rs' p =
    ap render (recorded-with_all new_metrics rs)
    ∙ render-with_all rs rs' p
    ∙ ap render (sym (recorded-with_all new_metrics rs'))
