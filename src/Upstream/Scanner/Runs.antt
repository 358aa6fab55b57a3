-- ===== src/Upstream/Scanner/Runs.antt =====
-- src/upstream.rs: the three loops of the scanner as the source has them, without fuel. A derivation
-- is a run that ends, with a constructor for each way that a round goes.
pub mod Ends
use mathlib.Core.Path.{subst}
use patchbay.Common.{
  ℕ, zero, suc, ◌+◌, ◌<◌, ◌≤◌, ◌≡◌, ◌≢◌, ◌↔◌, refl, ap, sym, ◌∙◌, inl, inr, Bool, true, false,
  Option, none, some, [], arith, ltb, leb, Bool-cases, if◌then◌else◌, length, take, drop,
  Option-cases,
}
use patchbay.Upstream.{Bytes, Usage}
use patchbay.Upstream.Scanner.{
  Term, not_term, incomplete, len, term_at, find_from, find_event_boundary, slice, Collected,
  collect_data_line, collect_from, collect, UsageScanner, take_payload, process_event, drain,
  settle,
}
use patchbay.Upstream.Scanner.Boundary.{
  TermCases, is_not, is_incomplete, is_len, Term-cases, term_at-len,
}
use patchbay.Upstream.Scanner.Chunks.{drain-none, drain-some, length-round, round, settle-some}

-- `find_event_boundary`, from a place on.
pub data Finds (buf : Bytes) : ℕ → Option (ℕ × ℕ) → Type 0 where
  at_end : (i : ℕ) → length buf ≤ i → Finds buf i none
  not_here :
      (i : ℕ) {r : Option (ℕ × ℕ)}
      → i < length buf
      → term_at buf i ≡ not_term
      → Finds buf (i + 1) r
      → Finds buf i r
  undecided : (i : ℕ) → i < length buf → term_at buf i ≡ incomplete → Finds buf i none
  one_only :
      (i l : ℕ) {r : Option (ℕ × ℕ)}
      → i < length buf
      → term_at buf i ≡ len l
      → term_at buf (i + l) ≡ not_term
      → Finds buf (i + l) r
      → Finds buf i r
  second_undecided :
      (i l : ℕ)
      → i < length buf
      → term_at buf i ≡ len l
      → term_at buf (i + l) ≡ incomplete
      → Finds buf i none
  two :
      (i l m : ℕ)
      → i < length buf
      → term_at buf i ≡ len l
      → term_at buf (i + l) ≡ len m
      → Finds buf i (some (i, i + l + m))

-- The loop of `process_event`, from a place and the start of a line on.
pub data Collects (event : Bytes) : ℕ → ℕ → Collected → Collected → Type 0 where
  line_end :
      (i line_start l : ℕ) (c : Collected) {d : Collected}
      → term_at event i ≡ len l
      → Collects event (i + l) (i + l) (collect_data_line (slice event line_start i) c) d
      → Collects event i line_start c d
  last_line :
      (i line_start : ℕ) (c : Collected)
      → ((l : ℕ) → term_at event i ≢ len l)
      → length event ≤ i
      → Collects event i line_start c (collect_data_line (drop line_start event) c)
  within :
      (i line_start : ℕ) (c : Collected) {d : Collected}
      → ((l : ℕ) → term_at event i ≢ len l)
      → i < length event
      → Collects event (i + 1) line_start c d
      → Collects event i line_start c d

abbrev pub nothing_yet : Collected
nothing_yet = record { bytes = []; saw_data_line = false }

module _ (parse_envelope : Bytes → Option (Option Usage)) where
  -- What is left of the scanner once the payload of an event has been joined.
  abbrev pub absorbed : Collected → UsageScanner → UsageScanner
  absorbed c s = if c.saw_data_line then take_payload parse_envelope c.bytes s else s

  -- The loop of `feed`.
  pub data Drains : UsageScanner → UsageScanner → Type 0 where
    idle : (s : UsageScanner) → Finds s.buf 0 none → Drains s s
    next_event :
        (s : UsageScanner) (e c : ℕ) (d : Collected) {t : UsageScanner}
        → Finds s.buf 0 (some (e, c))
        → Collects (take e s.buf) 0 0 nothing_yet d
        → Drains (absorbed d (record s { buf = drop c s.buf })) t
        → Drains s t
