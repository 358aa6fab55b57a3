-- ===== src/Upstream/Scanner.antt =====
-- src/upstream.rs: the usage scanner, an incremental parser of SSE event boundaries.
pub mod Boundary
pub mod Chunks
pub mod Feed
pub mod Lines
pub mod Events
pub mod Streams
pub mod Runs
use patchbay.Common.{
  ℕ, zero, suc, ◌+◌, ◌-◌, ◌*◌, Bool, true, false, ◌||◌, Option, none, some, List, [], ◌∷◌, ◌++◌,
  length, get_elem?, take, drop, ltb, leb, ◌==◌, if◌then◌else◌,
}
use patchbay.Common.Texts.{codes, text_eq, starts_with, strip_prefix}
use patchbay.Upstream.{Bytes, Usage}

abbrev pub max_event_buffer : ℕ
max_event_buffer = 1024 * 1024

pub record UsageScanner : Type 0 where
  pub buf : Bytes
  pub last_usage : Option Usage
  pub saw_done : Bool
  pub overflowed : Bool

-- `UsageScanner::default`
abbrev pub new_scanner : UsageScanner
new_scanner = record { buf = []; last_usage = none; saw_done = false; overflowed = false }

pub data Term : Type 0 where
  not_term incomplete : Term
  len : ℕ → Term

-- What a carriage return is, by the byte behind it.
after_cr : Option ℕ → Term
after_cr none = incomplete
after_cr (some d) = if d == b'\n' then len 2 else len 1

term_of : Option ℕ → Option ℕ → Term
term_of none next = not_term
term_of (some b) next = if b == b'\n' then len 1 else if b == b'\r' then after_cr next else not_term

unfoldable pub term_at : Bytes → ℕ → Term
unfolding term_of after_cr
term_at buf i = term_of (get_elem? buf i) (get_elem? buf (suc i))

-- The `while` loop of `find_event_boundary`. `i` grows in each round, so the length of the buffer is
-- fuel enough.
unfoldable pub find_from : ℕ → Bytes → ℕ → Option (ℕ × ℕ)
find_from zero buf i = none
find_from (suc fuel) buf i = elim (ltb i (length buf)) [
  | false ↦ none
  | true ↦ elim (term_at buf i) [
    | not_term ↦ find_from fuel buf (i + 1)
    | incomplete ↦ none
    | len l ↦ elim (term_at buf (i + l)) [
      | not_term ↦ find_from fuel buf (i + l)
      | incomplete ↦ none
      | len m ↦ some (i, i + l + m)
    ]
  ]
]

unfoldable pub find_event_boundary : Bytes → Option (ℕ × ℕ)
find_event_boundary buf = find_from (length buf) buf 0

-- `&event[from..to]`
abbrev pub slice : Bytes → ℕ → ℕ → Bytes
slice event from to = take (to - from) (drop from event)

-- The two variables that `collect_data_line` writes.
pub record Collected : Type 0 where
  pub bytes : Bytes
  pub saw_data_line : Bool

push_payload : Bytes → Collected → Collected
push_payload payload c = record {
  bytes = c.bytes ++ ((if c.saw_data_line then b'\n' ∷ [] else []) ++ payload);
  saw_data_line = true;
}

-- `rest.strip_prefix(b" ").unwrap_or(rest)`
without_space : Bytes → Bytes
without_space rest = elim (strip_prefix (codes " ") rest) [ none ↦ rest | some r ↦ r ]

unfoldable pub collect_data_line : Bytes → Collected → Collected
unfolding push_payload without_space
collect_data_line line c = elim (strip_prefix (codes "data:") line) [
  | some rest ↦ push_payload (without_space rest) c
  | none ↦ if text_eq line (codes "data") then push_payload [] c else c
]

-- The `loop` of `process_event`. `i` grows in each round but the last.
unfoldable pub collect_from : ℕ → Bytes → ℕ → ℕ → Collected → Collected
collect_from zero event i line_start c = c
collect_from (suc fuel) event i line_start c = elim (term_at event i) [
  | len l ↦ collect_from fuel event (i + l) (i + l) (collect_data_line (slice event line_start i) c)
  | _ ↦ elim (leb (length event) i) [
    | true ↦ collect_data_line (drop line_start event) c
    | false ↦ collect_from fuel event (i + 1) line_start c
  ]
]

-- The payload of an event.
unfoldable pub collect : Bytes → Collected
collect event =
    collect_from (suc (length event)) event 0 0 (record { bytes = []; saw_data_line = false })

-- `data.windows(7).any(|w| w == b"\"usage\"")`
unfoldable pub mentions : Bytes → Bytes → Bool
mentions pattern [] = false
mentions pattern (c ∷ cs) = starts_with (c ∷ cs) pattern || mentions pattern cs

-- The end of `feed`: beyond the cap the buffer is dropped for good.
unfoldable pub check_overflow : UsageScanner → UsageScanner
check_overflow s =
    if ltb max_event_buffer (length s.buf) then record s { overflowed = true; buf = [] } else s

-- `serde_json::from_slice` on a usage envelope is the parameter: `none` is its error, and
-- `some none` an envelope whose usage is absent or null.
module _ (parse_envelope : Bytes → Option (Option Usage)) where
  usage_of : Bytes → Option Usage → Option Usage
  usage_of payload last = elim (parse_envelope payload) [
    | none ↦ last
    | some none ↦ last
    | some (some u) ↦ some u
  ]

  -- What `process_event` does once the payload is joined.
  unfoldable pub take_payload : Bytes → UsageScanner → UsageScanner
  unfolding usage_of
  take_payload payload s =
      if text_eq payload (codes "[DONE]")
      then record s { saw_done = true }
      else if mentions (codes "\"usage\"") payload
      then record s { last_usage = usage_of payload s.last_usage }
      else s

  unfoldable pub process_event : UsageScanner → Bytes → UsageScanner
  process_event s event =
      let c = collect event in if c.saw_data_line then take_payload c.bytes s else s

  -- The `while let` loop of `feed`. Each round takes a byte off the buffer, at least.
  unfoldable pub drain : ℕ → UsageScanner → UsageScanner
  drain zero s = s
  drain (suc fuel) s = elim (find_event_boundary s.buf) [
    | none ↦ s
    | some (event_end, consume_to) ↦
        drain fuel (process_event (record s { buf = drop consume_to s.buf }) (take event_end s.buf))
  ]

  abbrev pub settle : UsageScanner → UsageScanner
  settle s = drain (suc (length s.buf)) s

  unfoldable pub feed : UsageScanner → Bytes → UsageScanner
  feed s chunk =
      if s.overflowed then s else check_overflow (settle (record s { buf = s.buf ++ chunk }))
