-- ===== src/Budget/Snapshot.antt =====
-- src/budget.rs: what the ledger that is made from a flushed snapshot knows, and what a flush that fails leaves.
use mathlib.Core.Path.{subst}
use patchbay.Common.{
  ℕ, ◌≡◌, ◌≢◌, refl, ap, sym, ◌∙◌, inl, inr, false, Option, none, some, List, [], ◌∷◌, map, arith,
  Option-cases, Bool-cases, In, Distinct,
}
use patchbay.Common.Texts.{Text, text_eq, text_eq_iff}
use patchbay.Common.Maps.{Map, get, insert, keys, get-insert, get-empty}
use patchbay.Budget.{
  KeyCounters, UsageSnapshot, snapshot, restore, period_start_secs, BudgetLedger, BudgetLimit,
  usage_for, Codec, Files, restore_all, new_ledger, Disk, ledger_snapshot, flush,
}

get-In : {V : Type 0} (m : Map V) (key : Text) {v : V} → get m key ≡ some v → In key (keys m)
unfolding get
get-In [] key h = cc
get-In ((k, w) ∷ m) key {v} h = elim (Bool-cases (text_eq k key)) [
  | inl same ↦ inl ((text_eq_iff k key).0 same)
  | inr differs ↦ inr (get-In m key {v = v} (ground arith))
]

-- What `entries` says of a key, and what `before` says of the others.
abbrev restored_entry : Option UsageSnapshot → Option KeyCounters → Option KeyCounters
restored_entry none before = before
restored_entry (some u) before = some (restore u)

get-restore_all :
    (m : Map KeyCounters) (entries : Map UsageSnapshot) (key : Text)
    → Distinct (keys entries)
    → get (restore_all m entries) key ≡ restored_entry (get entries key) (get m key)
unfolding restore_all get
get-restore_all m [] key distinct = refl
get-restore_all m ((k, u) ∷ entries) key (new, distinct) =
    get-restore_all (insert m k (restore u)) entries key distinct
    ∙ ap (restored_entry (get entries key)) (get-insert m k key (restore u))
    ∙ elim (Bool-cases (text_eq k key)) [
      | inl same ↦ elim (Option-cases (get entries key)) [
        | inl missing ↦ ground arith
        | inr (v, found) ↦
            let e : k ≡ key = (text_eq_iff k key).0 same in
            absurd (new (subst (λ t. In t (keys entries)) (sym e) (get-In entries key found)))
      ]
      | inr differs ↦ ground arith
    ]

get-snapshots :
    (m : Map KeyCounters) (key : Text)
    → restored_entry (get (map (λ (e : Text × KeyCounters). (e.0, snapshot e.1)) m) key) none
      ≡ get m key
unfolding get
get-snapshots [] key = refl
get-snapshots ((k, c) ∷ m) key = ground (arith, get-snapshots m key)

keys-snapshots :
    (m : Map KeyCounters) → keys (map (λ (e : Text × KeyCounters). (e.0, snapshot e.1)) m) ≡ keys m
keys-snapshots [] = refl
keys-snapshots (e ∷ m) = ap (λ (r : List Text). e.0 ∷ r) (keys-snapshots m)

-- After a flush that goes well the file has the snapshot.
flush-good :
    (codec : Codec) (files : Files) (l : BudgetLedger) (path json : Text)
    → l.snapshot_path ≡ some path
    → codec.to_json (ledger_snapshot l) ≡ some json
    → (flush codec Disk.good files l).0 path ≡ some json
unfolding flush
flush-good codec files l path json placed written =
    ground (arith, text_eq_iff path path, text_eq_iff (codec.tmp_path path) (codec.tmp_path path))

-- When a flush goes well, and reading the JSON that was written gives the snapshot back, a ledger
-- that is made from the same path in the same period reports the same use of every key.
pub new_ledger-flush :
    (codec : Codec) (files : Files) (l : BudgetLedger) (path json key : Text) (now period : ℕ)
    (limits : Map BudgetLimit)
    → l.snapshot_path ≡ some path
    → codec.to_json (ledger_snapshot l) ≡ some json
    → codec.from_json json ≡ some (ledger_snapshot l)
    → period_start_secs now period ≡ l.period_start
    → Distinct (keys l.counters)
    → usage_for
        (new_ledger codec (flush codec Disk.good files l).0 now limits period (some path))
        key
      ≡ usage_for l key
unfolding new_ledger usage_for
new_ledger-flush codec files l path json key now period limits placed written reads same distinct =
    let file = flush-good codec files l path json placed written in
    let entries = (ledger_snapshot l).entries in
    let found : get (restore_all [] entries) key ≡ get l.counters key =
      get-restore_all [] entries key (rw (keys-snapshots l.counters) distinct)
      ∙ ap (restored_entry (get entries key)) (get-empty key)
      ∙ get-snapshots l.counters key in
    ground (arith, file, reads, same, found)

-- A flush that fails leaves the file at the snapshot path as it was, as long as the temporary file
-- is another one.
pub flush-failed :
    (codec : Codec) (disk : Disk) (files : Files) (l : BudgetLedger) (path : Text)
    → l.snapshot_path ≡ some path
    → codec.tmp_path path ≢ path
    → (flush codec disk files l).1 ≡ false
    → (flush codec disk files l).0 path ≡ files path
unfolding flush
flush-failed codec Disk.good files l path placed other failed =
    ground (arith, text_eq_iff (codec.tmp_path path) path)
flush-failed codec (Disk.bad_write left) files l path placed other failed =
    ground (arith, text_eq_iff (codec.tmp_path path) path)
flush-failed codec Disk.bad_rename files l path placed other failed =
    ground (arith, text_eq_iff (codec.tmp_path path) path)
