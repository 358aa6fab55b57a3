-- ===== src/Budget.antt =====
-- src/budget.rs: token budgets for each key, and their snapshot on disk. JSON is a parameter.
pub mod Accounting
pub mod Snapshot
pub mod Display
use Prim.Native.Nat.{max}
use patchbay.Common.{
  ℕ, ◌+◌, ◌*◌, ◌/◌, ◌%◌, Bool, true, false, Option, none, some, List, [], ◌∷◌, map, Result, ok, err,
  ltb, ◌==◌, if◌then◌else◌,
}
use patchbay.Common.Texts.{Text, text_eq}
use patchbay.Common.Maps.{Map, get, insert}
use patchbay.Upstream.{Usage, u64_mod}

pub record BudgetLimit : Type 0 where
  pub max_prompt_tokens : Option ℕ
  pub max_completion_tokens : Option ℕ
  pub max_total_tokens : Option ℕ

-- `BudgetLimit::unlimited`
abbrev pub unlimited : BudgetLimit
unlimited = record {
  max_prompt_tokens = none;
  max_completion_tokens = none;
  max_total_tokens = none;
}

pub record KeyCounters : Type 0 where
  pub prompt_tokens : ℕ
  pub completion_tokens : ℕ
  pub total_tokens : ℕ

-- `KeyCounters::default`
abbrev pub zero_counters : KeyCounters
zero_counters = record { prompt_tokens = 0; completion_tokens = 0; total_tokens = 0 }

-- `fetch_add` wraps.
unfoldable pub add_usage : KeyCounters → Usage → KeyCounters
add_usage c u = record {
  prompt_tokens = (c.prompt_tokens + u.prompt_tokens) % u64_mod;
  completion_tokens = (c.completion_tokens + u.completion_tokens) % u64_mod;
  total_tokens = (c.total_tokens + u.total_tokens) % u64_mod;
}

pub data BudgetExceeded : Type 0 where
  prompt_tokens completion_tokens total_tokens : ℕ → ℕ → BudgetExceeded

-- The sum of the test wraps as in a release build; a debug build panics there.
abbrev pub exceeds : ℕ → ℕ → ℕ → Bool
exceeds used proposed limit = ltb limit ((used + proposed) % u64_mod)

dimension : (ℕ → ℕ → BudgetExceeded) → ℕ → ℕ → Option ℕ → Option BudgetExceeded
dimension which used proposed none = none
dimension which used proposed (some limit) =
    if exceeds used proposed limit then some (which used limit) else none

or_else : Option BudgetExceeded → Option BudgetExceeded → Option BudgetExceeded
or_else none later = later
or_else (some e) later = some e

unfoldable pub would_exceed : KeyCounters → BudgetLimit → Usage → Option BudgetExceeded
unfolding dimension or_else
would_exceed c l u =
    or_else
      (dimension BudgetExceeded.prompt_tokens c.prompt_tokens u.prompt_tokens l.max_prompt_tokens)
      (or_else
        (dimension BudgetExceeded.completion_tokens c.completion_tokens u.completion_tokens
          l.max_completion_tokens)
        (dimension BudgetExceeded.total_tokens c.total_tokens u.total_tokens l.max_total_tokens))

pub record UsageSnapshot : Type 0 where
  pub prompt_tokens : ℕ
  pub completion_tokens : ℕ
  pub total_tokens : ℕ

-- `KeyCounters::snapshot` and `KeyCounters::restore`
abbrev pub snapshot : KeyCounters → UsageSnapshot
snapshot c = record {
  prompt_tokens = c.prompt_tokens;
  completion_tokens = c.completion_tokens;
  total_tokens = c.total_tokens;
}

abbrev pub restore : UsageSnapshot → KeyCounters
restore u = record {
  prompt_tokens = u.prompt_tokens;
  completion_tokens = u.completion_tokens;
  total_tokens = u.total_tokens;
}

pub record LedgerSnapshot : Type 0 where
  pub period_start : ℕ
  pub entries : Map UsageSnapshot

-- Times in whole seconds.
unfoldable pub period_start_secs : ℕ → ℕ → ℕ
period_start_secs now period = let secs = max period 1 in (now / secs) * secs

pub record BudgetLedger : Type 0 where
  pub period_start : ℕ
  pub counters : Map KeyCounters
  pub limits : Map BudgetLimit
  pub snapshot_path : Option Text

existing_counters : BudgetLedger → Text → Option KeyCounters → BudgetLedger × KeyCounters
existing_counters l key (some c) = (l, c)
existing_counters l key none =
    (record l { counters = insert l.counters key zero_counters }, zero_counters)

-- `counters_for`: the counters of the key, which are made when there are none.
unfoldable pub counters_for : BudgetLedger → Text → BudgetLedger × KeyCounters
unfolding existing_counters
counters_for l key = existing_counters l key (get l.counters key)

or_unlimited : Option BudgetLimit → BudgetLimit
or_unlimited none = unlimited
or_unlimited (some l) = l

unfoldable pub limit_for : BudgetLedger → Text → BudgetLimit
unfolding or_unlimited
limit_for l key = or_unlimited (get l.limits key)

verdict : Option BudgetExceeded → Result BudgetExceeded (Unit {0})
verdict none = ok tt
verdict (some e) = err e

unfoldable pub check : BudgetLedger → Text → Usage → BudgetLedger × Result BudgetExceeded (Unit {0})
unfolding verdict
check l key proposed =
    let (l', c) = counters_for l key in (l', verdict (would_exceed c (limit_for l key) proposed))

-- `BudgetLedger::record`
unfoldable pub record_usage : BudgetLedger → Text → Usage → BudgetLedger
record_usage l key u =
    let (l', c) = counters_for l key in
    record l' { counters = insert l'.counters key (add_usage c u) }

totals : Option KeyCounters → Option (ℕ × ℕ × ℕ)
totals none = none
totals (some c) = some (c.prompt_tokens, c.completion_tokens, c.total_tokens)

unfoldable pub usage_for : BudgetLedger → Text → Option (ℕ × ℕ × ℕ)
unfolding totals
usage_for l key = totals (get l.counters key)

-- `serde_json` on a snapshot, and `Path::with_extension("tmp")`.
pub record Codec : Type 0 where
  pub to_json : LedgerSnapshot → Option Text
  pub from_json : Text → Option LedgerSnapshot
  pub tmp_path : Text → Text

-- The files, by their paths.
abbrev pub Files : Type 0
Files = Text → Option Text

abbrev pub put : Files → Text → Option Text → Files
put files path content p = if text_eq path p then content else files p

restore_all : Map KeyCounters → Map UsageSnapshot → Map KeyCounters
restore_all m [] = m
restore_all m ((key, u) ∷ rest) = restore_all (insert m key (restore u)) rest

restored : ℕ → Option LedgerSnapshot → Map KeyCounters
restored start none = []
restored start (some snap) = if snap.period_start == start then restore_all [] snap.entries else []

read_snapshot : Codec → Option Text → Option LedgerSnapshot
read_snapshot codec none = none
read_snapshot codec (some json) = codec.from_json json

load_counters : Codec → Files → ℕ → Option Text → Map KeyCounters
load_counters codec files start none = []
load_counters codec files start (some path) = restored start (read_snapshot codec (files path))

-- `BudgetLedger::new`, at the time `now`. A file that cannot be read is `none`.
unfoldable pub new_ledger : Codec → Files → ℕ → Map BudgetLimit → ℕ → Option Text → BudgetLedger
unfolding restore_all restored read_snapshot load_counters
new_ledger codec files now limits period snapshot_path =
    let start = period_start_secs now period in
    record {
      period_start = start;
      counters = load_counters codec files start snapshot_path;
      limits = limits;
      snapshot_path = snapshot_path;
    }

-- What the file system does in a flush: all goes well, the write fails and leaves some content or
-- none, or the rename fails.
pub data Disk : Type 0 where
  good : Disk
  bad_write : Option Text → Disk
  bad_rename : Disk

abbrev pub ledger_snapshot : BudgetLedger → LedgerSnapshot
ledger_snapshot l = record {
  period_start = l.period_start;
  entries = map (λ e. (e.0, snapshot e.1)) l.counters;
}

-- `std::fs::rename`; a file that is renamed to itself stays.
abbrev pub rename : Files → Text → Text → Files
rename files from to = put (put files from none) to (files from)

-- `write` to the temporary file, then `rename`.
replace_file : Codec → Disk → Files → Text → Option Text → Files × Bool
replace_file codec disk files path none = (files, false)
replace_file codec good files path (some json) =
    (rename (put files (codec.tmp_path path) (some json)) (codec.tmp_path path) path, true)
replace_file codec (bad_write left) files path (some json) =
    (put files (codec.tmp_path path) left, false)
replace_file codec bad_rename files path (some json) =
    (put files (codec.tmp_path path) (some json), false)

flush_to : Codec → Disk → Files → BudgetLedger → Option Text → Files × Bool
flush_to codec disk files l none = (files, true)
flush_to codec disk files l (some path) =
    replace_file codec disk files path (codec.to_json (ledger_snapshot l))

-- `flush`: the files after it, and whether it succeeded.
unfoldable pub flush : Codec → Disk → Files → BudgetLedger → Files × Bool
unfolding replace_file flush_to
flush codec disk files l = flush_to codec disk files l l.snapshot_path
