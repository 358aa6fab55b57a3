-- ===== src/Tests/Accounting.antt =====
-- Limits and budgets of two keys.
use patchbay.Common.{
  ◌++◌, ℕ, zero, suc, ◌≡◌, ◌≢◌, ◌+◌, ◌%◌, refl, true, false, none, some, [], ◌∷◌, ok, arith,
  Distinct, if◌then◌else◌,
}
use patchbay.Common.Texts.{Text, codes, text_eq}
use patchbay.Common.Maps.{Map, get, keys}
use patchbay.Upstream.{Usage, u64_mod}
use patchbay.Limits
use patchbay.Limits.{
  RateLimit, TpmCounter, current, Governor, RateLimitStore, new_store, check_rpm, record_tpm,
  retry_after_secs,
}
use patchbay.Limits.Windows.{add_all, add_all-window}
use patchbay.Limits.Admission.{tokens_of, verdict, record_tpm-tokens, check_rpm-new_store}
use patchbay.Budget.{
  BudgetLimit, BudgetLedger, counters_for, limit_for, check, usage_for, Codec, Files, Disk,
  new_ledger, flush, period_start_secs, ledger_snapshot,
}
use patchbay.Budget.Snapshot.{new_ledger-flush, flush-failed}
use patchbay.Budget.Accounting.{
  used_by, Log, InRange, record_all, IsSpent, IsVerdict, record_all-IsSpent, check-IsVerdict,
}

-- A limiter that counts down.
abbrev pub countdown : Governor
countdown = record {
  Limiter = ℕ;
  keyed = λ n. n;
  check_key = λ l key now. elim l [ zero ↦ (false, 0) | suc n ↦ (true, n) ];
}

abbrev ann : Text
ann = codes "ann"

abbrev bob : Text
bob = codes "bob"

abbrev table : Map RateLimit
table =
    (ann, record { max_rpm = some 0; max_tpm = some 100 })
    ∷ (bob, record { max_rpm = some 2; max_tpm = none })
    ∷ []

abbrev pub store : RateLimitStore countdown
store = new_store countdown table

table-Distinct : Distinct (keys table)
table-Distinct = ground arith

ann-bob : ann ≢ bob
ann-bob = ground arith

abbrev counter : TpmCounter
counter = record { window_start = 0; tokens = 9 }

add_all-window_example : current (add_all counter ((60, 5) ∷ (119, 6) ∷ [])) 119 ≡ 11
add_all-window_example =
    add_all-window counter 60 5 119 ((119, 6) ∷ []) (omega arith) (omega arith) (omega arith, tt)

record_tpm-tokens_example :
    (tokens_of countdown (record_tpm countdown store ann 150 70).0 bob 70 ≡ (
      if text_eq ann bob
      then (tokens_of countdown store ann 70 + 150) % u64_mod
      else tokens_of countdown store bob 70))
    × ((record_tpm countdown store ann 150 70).1
        ≡ verdict countdown
            (Limits.limit_for countdown store ann).max_tpm
            ((tokens_of countdown store ann 70 + 150) % u64_mod))
record_tpm-tokens_example = record_tpm-tokens countdown store ann bob 150 70 (omega arith)

check_rpm-new_store_example : (check_rpm countdown store ann 0).1 ≡ ok tt
unfolding get text_eq
check_rpm-new_store_example =
    check_rpm-new_store countdown table ann (record { max_rpm = some 0; max_tpm = some 100 }) 0
      table-Distinct refl

abbrev budget : BudgetLimit
budget = record {
  max_prompt_tokens = none;
  max_completion_tokens = none;
  max_total_tokens = some 10;
}

abbrev ledger : BudgetLedger
ledger = record {
  period_start = 0;
  counters = (ann, record { prompt_tokens = 1; completion_tokens = 2; total_tokens = 3 }) ∷ [];
  limits = (ann, budget) ∷ [];
  snapshot_path = none;
}

abbrev use_seven : Usage
use_seven = record { prompt_tokens = 3; completion_tokens = 4; total_tokens = 7 }

abbrev log : Log
log = (ann, use_seven) ∷ (bob, use_seven) ∷ []

in_range : InRange (used_by ledger ann)
unfolding counters_for text_eq get
in_range = omega arith

record_all-IsSpent_example :
    IsSpent (used_by ledger ann) (used_by (record_all ledger log) ann) log ann
record_all-IsSpent_example = record_all-IsSpent ledger log ann in_range

check-IsVerdict_example :
    IsVerdict (used_by ledger ann) (limit_for ledger ann) use_seven (check ledger ann use_seven).1
    × (used_by (check ledger ann use_seven).0 bob ≡ used_by ledger bob)
check-IsVerdict_example = check-IsVerdict ledger ann bob use_seven

abbrev path : Text
path = codes "b.json"

abbrev kept : BudgetLedger
kept = record ledger { period_start = 3600; snapshot_path = some path }

-- JSON for this one ledger.
abbrev codec : Codec
codec = record {
  to_json = λ s. some (codes "{}");
  from_json = λ t. some (ledger_snapshot kept);
  tmp_path = λ p. p ++ codes ".tmp";
}

abbrev no_files : Files
no_files = λ p. none

same_period : period_start_secs 5000 3600 ≡ 3600
unfolding period_start_secs
same_period = refl

kept-Distinct : Distinct (keys kept.counters)
kept-Distinct = ground arith

tmp_other : codec.tmp_path path ≢ path
tmp_other = ground arith

write_fails : (flush codec (Disk.bad_write none) no_files kept).1 ≡ false
unfolding flush
write_fails = refl

new_ledger-flush_example :
    usage_for
      (new_ledger codec (flush codec Disk.good no_files kept).0 5000 [] 3600 (some path))
      ann
    ≡ usage_for kept ann
new_ledger-flush_example =
    new_ledger-flush codec no_files kept path (codes "{}") ann 5000 3600 [] refl refl refl
      same_period kept-Distinct

flush-failed_example : (flush codec (Disk.bad_write none) no_files kept).0 path ≡ none
flush-failed_example =
    flush-failed codec (Disk.bad_write none) no_files kept path refl tmp_other write_fails
