-- ===== src/Budget/Accounting.antt =====
-- src/budget.rs: what a ledger counts for each key, and what its check admits.
use patchbay.Common.{
  ℕ, ◌+◌, ◌%◌, ◌<◌, ◌≤◌, ◌≡◌, ◌⊎◌, refl, ap, ◌∙◌, true, false, Option, none, some, List, [], ◌∷◌,
  arith, Result, ok, err, ltb, Bool-cases, inl, inr, if◌then◌else◌,
}
use patchbay.Common.Texts.{Text, text_eq, text_eq_iff}
use patchbay.Common.Maps.{get, get-insert}
use patchbay.Upstream.{Usage, u64_mod}
use patchbay.Budget.{
  BudgetLimit, KeyCounters, zero_counters, add_usage, BudgetExceeded, dimension, or_else,
  would_exceed, verdict, BudgetLedger, counters_for, limit_for, check, record_usage,
}

-- The counters of a key, 0 when it has none.
abbrev pub used_by : BudgetLedger → Text → KeyCounters
used_by l key = (counters_for l key).1

used_by-get :
    (l : BudgetLedger) (key : Text)
    → used_by l key ≡ (elim (get l.counters key) [ none ↦ zero_counters | some c ↦ c ])
unfolding counters_for
used_by-get l key = ground arith

counters_for-used_by :
    (l : BudgetLedger) (key other : Text) → used_by (counters_for l key).0 other ≡ used_by l other
unfolding counters_for
counters_for-used_by l key other =
    ground (arith, get-insert l.counters key other zero_counters, text_eq_iff key other)

pub used_by-record_usage :
    (l : BudgetLedger) (key other : Text) (u : Usage)
    → used_by (record_usage l key u) other
      ≡ (if text_eq key other then add_usage (used_by l key) u else used_by l other)
unfolding record_usage
used_by-record_usage l key other u =
    let c = used_by l key in
    let l' = (counters_for l key).0 in
    ground (
      arith,
      used_by-get (record_usage l key u) other,
      get-insert l'.counters key other (add_usage c u),
      used_by-get l' other,
      counters_for-used_by l key other,
    )

-- The usage of completed requests, with their keys.
abbrev pub Log : Type 0
Log = List (Text × Usage)

pub record_all : BudgetLedger → Log → BudgetLedger
record_all l [] = l
record_all l ((key, u) ∷ log) = record_all (record_usage l key u) log

-- What a log says that a key has spent, by one of the three counts.
abbrev pub spent : (Usage → ℕ) → Log → Text → ℕ
spent count [] key = 0
spent count ((k, u) ∷ log) key = (if text_eq k key then count u else 0) + spent count log key

pub record InRange (c : KeyCounters) : Type 0 where
  pub prompt : c.prompt_tokens < u64_mod
  pub completion : c.completion_tokens < u64_mod
  pub total : c.total_tokens < u64_mod

pub record IsSpent (before after : KeyCounters) (log : Log) (key : Text) : Type 0 where
  pub prompt :
      after.prompt_tokens ≡ (before.prompt_tokens + spent (λ u. u.prompt_tokens) log key) % u64_mod
  pub completion :
      after.completion_tokens
      ≡ (before.completion_tokens + spent (λ u. u.completion_tokens) log key) % u64_mod
  pub total :
      after.total_tokens ≡ (before.total_tokens + spent (λ u. u.total_tokens) log key) % u64_mod

add_usage-InRange : (c : KeyCounters) (u : Usage) → InRange (add_usage c u)
unfolding add_usage
add_usage-InRange c u = omega arith

IsSpent-more :
    (before middle after : KeyCounters) (k : Text) (u : Usage) (log : Log) (key : Text)
    → text_eq k key ≡ true
    → middle ≡ add_usage before u
    → IsSpent middle after log key
    → IsSpent before after ((k, u) ∷ log) key
unfolding add_usage
IsSpent-more before middle after k u log key same here later = record {
  prompt = ground (arith, here, later.prompt);
  completion = ground (arith, here, later.completion);
  total = ground (arith, here, later.total);
}

IsSpent-other :
    (before middle after : KeyCounters) (k : Text) (u : Usage) (log : Log) (key : Text)
    → text_eq k key ≡ false
    → middle ≡ before
    → IsSpent middle after log key
    → IsSpent before after ((k, u) ∷ log) key
IsSpent-other before middle after k u log key other here later = record {
  prompt = ground (arith, here, later.prompt);
  completion = ground (arith, here, later.completion);
  total = ground (arith, here, later.total);
}

-- After any requests, in any order and of any keys, each count of a key is what it was before and
-- what the key's own requests have spent, mod 2^64.
pub record_all-IsSpent :
    (l : BudgetLedger) (log : Log) (key : Text)
    → InRange (used_by l key)
    → IsSpent (used_by l key) (used_by (record_all l log) key) log key
unfolding record_all
record_all-IsSpent l [] key r = omega (arith, r.prompt, r.completion, r.total)
record_all-IsSpent l ((k, u) ∷ log) key r =
    let l' = record_usage l k u in
    let first = used_by-record_usage l k key u in
    elim (Bool-cases (text_eq k key)) [
      | inl same ↦
          let e = (text_eq_iff k key).0 same in
          let here : used_by l' key ≡ add_usage (used_by l key) u =
            first ∙ rw same (ap (λ j. add_usage (used_by l j) u) e) in
          IsSpent-more (used_by l key) (used_by l' key) _ k u log key same here
            (record_all-IsSpent l' log key (rw here (add_usage-InRange (used_by l key) u)))
      | inr other ↦
          let here : used_by l' key ≡ used_by l key = first ∙ rw other in
          IsSpent-other (used_by l key) (used_by l' key) _ k u log key other here
            (record_all-IsSpent l' log key (rw here r))
    ]

-- The limit of one count admits a use.
abbrev pub Fits : Option ℕ → ℕ → ℕ → Type 0
Fits none used proposed = Unit
Fits (some limit) used proposed = (used + proposed) % u64_mod ≤ limit

-- The limit is there and refuses the use; the error names what is used and the limit.
abbrev pub Refuses : Option ℕ → ℕ → ℕ → ℕ → ℕ → Type 0
Refuses none used proposed named_used named_limit = ⊥
Refuses (some limit) used proposed named_used named_limit =
    (limit < (used + proposed) % u64_mod) × (named_used ≡ used) × (named_limit ≡ limit)

-- What a verdict says: every limit admits the use, or the first limit that refuses it is named.
abbrev pub IsVerdict : KeyCounters → BudgetLimit → Usage → Result BudgetExceeded (Unit {0}) → Type 0
IsVerdict c l u (ok _) =
    Fits l.max_prompt_tokens c.prompt_tokens u.prompt_tokens
    × Fits l.max_completion_tokens c.completion_tokens u.completion_tokens
    × Fits l.max_total_tokens c.total_tokens u.total_tokens
IsVerdict c l u (err (BudgetExceeded.prompt_tokens used limit)) =
    Refuses l.max_prompt_tokens c.prompt_tokens u.prompt_tokens used limit
IsVerdict c l u (err (BudgetExceeded.completion_tokens used limit)) =
    Fits l.max_prompt_tokens c.prompt_tokens u.prompt_tokens
    × Refuses l.max_completion_tokens c.completion_tokens u.completion_tokens used limit
IsVerdict c l u (err (BudgetExceeded.total_tokens used limit)) =
    Fits l.max_prompt_tokens c.prompt_tokens u.prompt_tokens
    × Fits l.max_completion_tokens c.completion_tokens u.completion_tokens
    × Refuses l.max_total_tokens c.total_tokens u.total_tokens used limit

dimension-cases :
    (which : ℕ → ℕ → BudgetExceeded) (used proposed : ℕ) (limit : Option ℕ)
    → ((dimension which used proposed limit ≡ none) × Fits limit used proposed)
      ⊎ ((n : ℕ) × (dimension which used proposed limit ≡ some (which used n))
          × Refuses limit used proposed used n)
unfolding dimension
dimension-cases which used proposed none = inl (refl, tt)
dimension-cases which used proposed (some limit) =
    elim (Bool-cases (ltb limit ((used + proposed) % u64_mod))) [
      | inl over ↦ inr (limit, rw over, (ground arith, refl, refl))
      | inr fits ↦ inl (rw fits, ground arith)
    ]

would_exceed-IsVerdict :
    (c : KeyCounters) (l : BudgetLimit) (u : Usage) → IsVerdict c l u (verdict (would_exceed c l u))
unfolding would_exceed verdict
would_exceed-IsVerdict c l u =
    elim (dimension-cases BudgetExceeded.prompt_tokens c.prompt_tokens u.prompt_tokens
      l.max_prompt_tokens) [
        | inr (n, e, r) ↦ rw (e, or_else) r
        | inl (e₁, f₁) ↦
            elim (dimension-cases BudgetExceeded.completion_tokens c.completion_tokens
              u.completion_tokens l.max_completion_tokens) [
                | inr (n, e, r) ↦ rw (e₁, e, or_else) (f₁, r)
                | inl (e₂, f₂) ↦
                    elim (dimension-cases BudgetExceeded.total_tokens c.total_tokens u.total_tokens
                      l.max_total_tokens) [
                        | inr (n, e, r) ↦ rw (e₁, e₂, e, or_else) (f₁, f₂, r)
                        | inl (e₃, f₃) ↦ rw (e₁, e₂, e₃, or_else) (f₁, f₂, f₃)
                      ]
              ]
      ]

-- A check admits a request exactly when each limit of its key admits the use so far with the proposed
-- use, mod 2^64; otherwise it names the first of prompt, completion and total that does not, with
-- the use and the limit. It changes no key's use.
pub check-IsVerdict :
    (l : BudgetLedger) (key other : Text) (u : Usage)
    → IsVerdict (used_by l key) (limit_for l key) u (check l key u).1
      × (used_by (check l key u).0 other ≡ used_by l other)
unfolding check
check-IsVerdict l key other u =
    (would_exceed-IsVerdict (used_by l key) (limit_for l key) u, counters_for-used_by l key other)

-- No count is over its limit.
abbrev pub Under : Option ℕ → ℕ → Type 0
Under none used = Unit
Under (some limit) used = used ≤ limit

abbrev pub WithinLimits : BudgetLimit → KeyCounters → Type 0
WithinLimits l c =
    Under l.max_prompt_tokens c.prompt_tokens
    × Under l.max_completion_tokens c.completion_tokens
    × Under l.max_total_tokens c.total_tokens

-- The test wraps: a use so large that the sum passes 2^64 is admitted when what is left of the sum is
-- within the limit.
pub check-wraps :
    (l : BudgetLedger) (key : Text) (u : Usage) (limit : ℕ)
    → limit_for l key ≡ record {
      max_prompt_tokens = none;
      max_completion_tokens = none;
      max_total_tokens = some limit;
    }
    → u64_mod ≤ (used_by l key).total_tokens + u.total_tokens
    → (used_by l key).total_tokens + u.total_tokens ≤ u64_mod + limit
    → limit < u64_mod
    → (check l key u).1 ≡ ok tt
unfolding check would_exceed verdict
check-wraps l key u limit only over wrapped small = ground arith
