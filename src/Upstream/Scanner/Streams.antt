-- ===== src/Upstream/Scanner/Streams.antt =====
-- src/upstream.rs: what the scanner makes of a whole stream of events, however it is cut into chunks.
use patchbay.Common.{
  ◌≡◌, refl, ap, sym, ◌∙◌, Bool, true, false, ◌||◌, Option, none, some, List, [], ◌∷◌, ◌++◌, map,
  arith, if◌then◌else◌, any,
}
use patchbay.Common.Texts.{codes, text_eq, strip_prefix}
use patchbay.Upstream.{Bytes, Usage}
use patchbay.Upstream.Scanner.{
  UsageScanner, new_scanner, find_from, find_event_boundary, collect_data_line, mentions,
  take_payload, settle, check_overflow, feed,
}
use patchbay.Upstream.Scanner.Chunks.{drain-none}
use patchbay.Upstream.Scanner.Feed.{join, feed_all, feed_all-join, feed-open}
use patchbay.Upstream.Scanner.Lines.{IsLine, wire, IsEvent}
use patchbay.Upstream.Scanner.Events.{apply_event, settle-wire, nothing}

-- The bytes of a list of events, each a list of lines.
abbrev pub stream : List (List Bytes) → Bytes
stream [] = []
stream (e ∷ es) = wire e ++ stream es

-- Each event has a line, no line is empty, and no byte of a line is a terminator.
abbrev pub AllEvents : List (List Bytes) → Type 0
AllEvents [] = Unit
AllEvents ([] ∷ es) = ⊥
AllEvents ((l ∷ ls) ∷ es) = IsEvent (l ∷ ls) × AllEvents es

check_overflow-empty : (s : UsageScanner) → s.buf ≡ [] → check_overflow s ≡ s
unfolding check_overflow
check_overflow-empty s e = ground arith

module _ (parse_envelope : Bytes → Option (Option Usage)) where
  abbrev pub apply_all : List (List Bytes) → UsageScanner → UsageScanner
  apply_all [] s = s
  apply_all (e ∷ es) s = apply_all es (apply_event parse_envelope e s)

  apply_event-buf :
      (ls : List Bytes) (s : UsageScanner) (b : Bytes)
      → apply_event parse_envelope ls (record s { buf = b })
        ≡ record (apply_event parse_envelope ls s) { buf = b }
  unfolding take_payload
  apply_event-buf ls s b = ground arith

  apply_all-buf :
      (es : List (List Bytes)) (s : UsageScanner)
      → s.buf ≡ []
      → ((apply_all es s).buf ≡ []) × ((apply_all es s).overflowed ≡ s.overflowed)
  unfolding take_payload
  apply_all-buf [] s e = (e, refl)
  apply_all-buf (l ∷ es) s e =
      let kept : (apply_event parse_envelope l s).buf ≡ [] = ground arith in
      let same : (apply_event parse_envelope l s).overflowed ≡ s.overflowed = ground arith in
      let later = apply_all-buf es (apply_event parse_envelope l s) kept in
      (later.0, later.1 ∙ same)

  settle-nil :
      (s : UsageScanner) → settle parse_envelope (record s { buf = [] }) ≡ record s { buf = [] }
  settle-nil s =
      drain-none parse_envelope 1 (record s { buf = [] })
        (unfold find_event_boundary find_from in refl)

  settle-stream :
      (es : List (List Bytes)) (s : UsageScanner)
      → AllEvents es
      → settle parse_envelope (record s { buf = stream es }) ≡ apply_all es (record s { buf = [] })
  settle-stream [] s ev = settle-nil s
  settle-stream ([] ∷ es) s ev = absurd ev
  settle-stream ((l ∷ ls) ∷ es) s ev =
      settle-wire parse_envelope l ls (stream es) s ev.0
      ∙ ap (settle parse_envelope) (apply_event-buf (l ∷ ls) s (stream es))
      ∙ settle-stream es (apply_event parse_envelope (l ∷ ls) s) ev.1
      ∙ ap (apply_all es) (sym (apply_event-buf (l ∷ ls) s []))

  feed-stream :
      (es : List (List Bytes))
      → AllEvents es
      → feed parse_envelope new_scanner (stream es) ≡ apply_all es new_scanner
  feed-stream es ev =
      let done = settle-stream es new_scanner ev in
      let after = apply_all-buf es new_scanner refl in
      let fits = check_overflow-empty (apply_all es new_scanner) after.0 in
      feed-open parse_envelope new_scanner (stream es) refl ∙ ap check_overflow done ∙ fits

  -- A stream of events is scanned event by event, line by line, in whatever chunks its bytes arrive,
  -- as long as the scanner does not overflow.
  pub feed_all-stream :
      (es : List (List Bytes)) (cs : List Bytes)
      → AllEvents es
      → join cs ≡ stream es
      → (feed_all parse_envelope new_scanner cs).overflowed ≡ false
      → feed_all parse_envelope new_scanner cs ≡ apply_all es new_scanner
  feed_all-stream es cs ev cut h =
      feed_all-join parse_envelope cs h
      ∙ ap (feed parse_envelope new_scanner) cut
      ∙ feed-stream es ev

-- A payload that one `data:` line carries.
abbrev pub data_event : Bytes → List Bytes
data_event p = (codes "data: " ++ p) ∷ []

abbrev pub is_done : Bytes → Bool
is_done p = text_eq p (codes "[DONE]")

abbrev pub AllLines : List Bytes → Type 0
AllLines [] = Unit
AllLines (p ∷ ps) = IsLine p × AllLines ps

data_events : (ps : List Bytes) → AllLines ps → AllEvents (map data_event ps)
data_events [] h = tt
data_events (p ∷ ps) h = ((refl, h.0, tt), data_events ps h.1)

or_regroup : (a b c : Bool) → (a || (b || c)) ≡ ((b || a) || c)
or_regroup a b c = ground arith

or_false : (a : Bool) → (a || false) ≡ a
or_false a = ground arith

abbrev pub usage_in : Option (Option Usage) → Option Usage
usage_in none = none
usage_in (some u) = u

module _ (parse_envelope : Bytes → Option (Option Usage)) where
  -- The usage of the last payload that reports one: it is not the terminator, it mentions usage, and
  -- it parses to an envelope that has one.
  abbrev pub reported : Bytes → Option Usage
  reported p =
      if is_done p
      then none
      else if mentions (codes "\"usage\"") p
      then usage_in (parse_envelope p)
      else none

  abbrev pub last_reported : List Bytes → Option Usage → Option Usage
  last_reported [] last = last
  last_reported (p ∷ ps) last =
      last_reported ps (elim (reported p) [ none ↦ last | some u ↦ some u ])

  collect_data_line-data :
      (p : Bytes)
      → collect_data_line (codes "data: " ++ p) nothing ≡ record { bytes = p; saw_data_line = true }
  unfolding collect_data_line strip_prefix
  collect_data_line-data p = refl

  apply_event-data :
      (p : Bytes) (s : UsageScanner)
      → apply_event parse_envelope (data_event p) s ≡ take_payload parse_envelope p s
  apply_event-data p s = rw (collect_data_line-data p)

  take_payload-reported :
      (p : Bytes) (s : UsageScanner)
      → take_payload parse_envelope p s ≡ record s {
        last_usage = elim (reported p) [ none ↦ s.last_usage | some u ↦ some u ];
        saw_done = is_done p || s.saw_done;
      }
  unfolding take_payload
  take_payload-reported p s = ground arith

  apply_all-data :
      (ps : List Bytes) (s : UsageScanner)
      → apply_all parse_envelope (map data_event ps) s ≡ record s {
        last_usage = last_reported ps s.last_usage;
        saw_done = any is_done ps || s.saw_done;
      }
  apply_all-data [] s = refl
  apply_all-data (p ∷ ps) s =
      ap (apply_all parse_envelope (map data_event ps))
        (apply_event-data p s ∙ take_payload-reported p s)
      ∙ apply_all-data ps _
      ∙ ap (λ d. record s { last_usage = last_reported (p ∷ ps) s.last_usage; saw_done = d })
          (or_regroup (any is_done ps) (is_done p) s.saw_done)

  -- A stream of `data:` events, one line each, leaves the usage that its last reporting payload has,
  -- and says whether a payload was the terminator: in whatever chunks its bytes arrive, as long as the
  -- scanner does not overflow.
  pub feed_all-data :
      (ps cs : List Bytes)
      → AllLines ps
      → join cs ≡ stream (map data_event ps)
      → (feed_all parse_envelope new_scanner cs).overflowed ≡ false
      → feed_all parse_envelope new_scanner cs ≡ record {
        buf = [];
        last_usage = last_reported ps none;
        saw_done = any is_done ps;
        overflowed = false;
      }
  feed_all-data ps cs lines cut h =
      feed_all-stream parse_envelope (map data_event ps) cs (data_events ps lines) cut h
      ∙ apply_all-data ps new_scanner
      ∙ ap (λ d. record new_scanner { last_usage = last_reported ps none; saw_done = d })
          (or_false (any is_done ps))
