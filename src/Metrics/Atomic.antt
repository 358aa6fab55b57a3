-- ===== src/Metrics/Atomic.antt =====
-- src/metrics.rs: `LabeledCounters::add` when several threads run it on one table. A step is what a
-- thread does under one lock, or its access of a counter; the steps come in any order.
pub mod Steps
pub mod Sound
pub mod Tallied
pub mod Finished
pub mod Complete
use patchbay.Common.{
  ℕ, ◌+◌, ◌%◌, Option, none, some, List, [], ◌∷◌, ◌++◌, length, get_elem?, set_at,
}
use patchbay.Common.Texts.{Text}
use patchbay.Common.Maps.{Map, get, insert}
use patchbay.Common.Threads.{Threads, turn, run}
use patchbay.Upstream.{u64_mod}
use patchbay.Metrics.{LabeledCounters}

-- The table leads from a label to a counter, an `Arc` that is shared: here, its place among the cells.
pub record Shared : Type 0 where
  pub table : Map ℕ
  pub cells : List ℕ

-- Where a call stands, with its label and what it adds: before it looks the label up under the read
-- lock; before it takes the write lock, when the label was not there; with the counter, before the
-- `fetch_add`; or at its end.
pub data Adding : Type 0 where
  locating : Text → ℕ → Adding
  missing : Text → ℕ → Adding
  holding : Text → ℕ → ℕ → Adding
  added : Text → ℕ → Adding

abbrev pub value : Option ℕ → ℕ
value none = 0
value (some n) = n

abbrev pub cell_at : List ℕ → ℕ → ℕ
cell_at cells c = value (get_elem? cells c)

unfoldable pub advance : Shared → Adding → Shared × Adding
advance m (locating key n) = elim (get m.table key) [
  | none ↦ (m, missing key n)
  | some c ↦ (m, holding key c n)
]
advance m (missing key n) = elim (get m.table key) [
  | none ↦ (
    record { table = insert m.table key (length m.cells); cells = m.cells ++ (0 ∷ []) },
    holding key (length m.cells) n,
  )
  | some c ↦ (m, holding key c n)
]
advance m (holding key c n) =
    (record m { cells = set_at m.cells c ((cell_at m.cells c + n) % u64_mod) }, added key n)
advance m (added key n) = (m, added key n)

abbrev pub run_adding : Threads Shared Adding → List ℕ → Threads Shared Adding
run_adding = run advance

-- What the table has for a label.
unfoldable pub counted : Shared → Text → ℕ
counted m key = elim (get m.table key) [ none ↦ 0 | some c ↦ cell_at m.cells c ]

-- `snapshot` loads each counter of the table.
unfoldable pub loaded : Map ℕ → List ℕ → LabeledCounters
loaded [] cells = []
loaded ((key, c) ∷ table) cells = (key, cell_at cells c) ∷ loaded table cells
