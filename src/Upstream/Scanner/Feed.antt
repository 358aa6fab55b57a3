-- ===== src/Upstream/Scanner/Feed.antt =====
-- src/upstream.rs: `feed`: chunking, what is left in the buffer, and the overflow.
use mathlib.Core.List.{append_assoc, append-nil}
use patchbay.Common.{
  suc, ◌≤◌, ◌≡◌, refl, ap, sym, ◌∙◌, inl, inr, true, false, Option, none, List, [], ◌∷◌, ◌++◌,
  arith, length, ltb, Bool-cases,
}
use patchbay.Upstream.{Bytes, Usage}
use patchbay.Upstream.Scanner.{
  UsageScanner, new_scanner, max_event_buffer, find_from, find_event_boundary, drain, settle,
  check_overflow, feed,
}
use patchbay.Upstream.Scanner.Chunks.{append, drain-settled, settle-append, drain-overflowed}

-- The chunks of a stream, joined.
abbrev pub join : List Bytes → Bytes
join [] = []
join (c ∷ cs) = c ++ join cs

-- What the scanner holds between two feeds: no complete event, and no more than the cap; nothing
-- after an overflow.
pub record IsQuiet (s : UsageScanner) : Type 0 where
  pub no_event : find_event_boundary s.buf ≡ none
  pub capped : length s.buf ≤ max_event_buffer
  pub dropped : s.overflowed ≡ true → s.buf ≡ []

check_overflow-IsQuiet :
    (s : UsageScanner)
    → find_event_boundary s.buf ≡ none
    → s.overflowed ≡ false
    → IsQuiet (check_overflow s)
unfolding check_overflow
check_overflow-IsQuiet s settled fresh = elim (Bool-cases (ltb max_event_buffer (length s.buf))) [
  | inl over ↦ rw over (record {
    no_event = unfold find_event_boundary find_from in refl;
    capped = omega arith;
    dropped = λ e. refl;
  })
  | inr fits ↦
      rw fits (record { no_event = settled; capped = ground arith; dropped = λ e. cc (e, fresh) })
]

module _ (parse_envelope : Bytes → Option (Option Usage)) where
  unfoldable pub feed_all : UsageScanner → List Bytes → UsageScanner
  feed_all s [] = s
  feed_all s (c ∷ cs) = feed_all (feed parse_envelope s c) cs

  -- Nothing is scanned after an overflow.
  feed_all-overflowed :
      (s : UsageScanner) (cs : List Bytes) → s.overflowed ≡ true → feed_all s cs ≡ s
  unfolding feed_all
  feed_all-overflowed s [] h = refl
  feed_all-overflowed s (c ∷ cs) h =
      let stays : feed parse_envelope s c ≡ s = unfold feed in ground arith in
      rw stays (feed_all-overflowed s cs h)

  pub not_overflowed :
      (s : UsageScanner) (cs : List Bytes)
      → (feed_all s cs).overflowed ≡ false
      → s.overflowed ≡ false
  not_overflowed s cs h = elim (Bool-cases s.overflowed) [
    | inl o ↦ cc (h, feed_all-overflowed s cs o)
    | inr n ↦ n
  ]

  -- A feed that does not overflow only settles.
  feed-settle :
      (s : UsageScanner) (c : Bytes)
      → (feed parse_envelope s c).overflowed ≡ false
      → feed parse_envelope s c ≡ settle parse_envelope (append s c)
  unfolding feed check_overflow
  feed-settle s c h = ground arith

  pub feed-open :
      (s : UsageScanner) (c : Bytes)
      → s.overflowed ≡ false
      → feed parse_envelope s c ≡ check_overflow (settle parse_envelope (append s c))
  unfolding feed
  feed-open s c h = ground arith

  feed-feed :
      (s : UsageScanner) (c d : Bytes)
      → (feed parse_envelope s c).overflowed ≡ false
      → feed parse_envelope (feed parse_envelope s c) d ≡ feed parse_envelope s (c ++ d)
  feed-feed s c d h =
      let fresh : s.overflowed ≡ false = not_overflowed s (c ∷ []) (unfold feed_all in h) in
      let settled = settle parse_envelope (append s c) in
      let still : settled.overflowed ≡ false =
        drain-overflowed parse_envelope (suc (length (s.buf ++ c))) (append s c) ∙ fresh in
      let joined : append (append s c) d ≡ append s (c ++ d) =
        ap (λ (b : Bytes). record s { buf = b }) (append_assoc s.buf c d) in
      ap (λ (t : UsageScanner). feed parse_envelope t d) (feed-settle s c h)
      ∙ feed-open settled d still
      ∙ ap check_overflow (
          settle-append parse_envelope (suc (length (s.buf ++ c))) (append s c) d (omega arith)
          ∙ ap (settle parse_envelope) joined)
      ∙ sym (feed-open s (c ++ d) fresh)

  feed_all-feed :
      (s : UsageScanner) (c : Bytes) (cs : List Bytes)
      → (feed_all s (c ∷ cs)).overflowed ≡ false
      → feed_all s (c ∷ cs) ≡ feed parse_envelope s (c ++ join cs)
  unfolding feed_all
  feed_all-feed s c [] h = rw append-nil
  feed_all-feed s c (d ∷ ds) h =
      let first : (feed parse_envelope s c).overflowed ≡ false =
        not_overflowed (feed parse_envelope s c) (d ∷ ds) h in
      feed_all-feed (feed parse_envelope s c) d ds h ∙ feed-feed s c (d ++ join ds) first

  feed-nil : feed parse_envelope new_scanner [] ≡ new_scanner
  unfolding feed check_overflow drain find_event_boundary find_from
  feed-nil = refl

  -- As long as the scanner does not overflow, feeding a stream chunk by chunk leaves it as feeding
  -- all the bytes at once does.
  pub feed_all-join :
      (cs : List Bytes)
      → (feed_all new_scanner cs).overflowed ≡ false
      → feed_all new_scanner cs ≡ feed parse_envelope new_scanner (join cs)
  feed_all-join [] h = unfold feed_all in sym feed-nil
  feed_all-join (c ∷ cs) h = feed_all-feed new_scanner c cs h

  pub feed-IsQuiet : (s : UsageScanner) (c : Bytes) → IsQuiet s → IsQuiet (feed parse_envelope s c)
  feed-IsQuiet s c q = elim (Bool-cases s.overflowed) [
    | inl o ↦ let same : feed parse_envelope s c ≡ s = unfold feed in ground arith in rw same q
    | inr fresh ↦ rw (feed-open s c fresh) (
        check_overflow-IsQuiet (settle parse_envelope (append s c))
          (drain-settled parse_envelope (suc (length (s.buf ++ c))) (append s c) (omega arith))
          (drain-overflowed parse_envelope (suc (length (s.buf ++ c))) (append s c) ∙ fresh))
  ]

  keeps_IsQuiet : (s : UsageScanner) (cs : List Bytes) → IsQuiet s → IsQuiet (feed_all s cs)
  unfolding feed_all
  keeps_IsQuiet s [] q = q
  keeps_IsQuiet s (c ∷ cs) q = keeps_IsQuiet (feed parse_envelope s c) cs (feed-IsQuiet s c q)

  -- However a stream is cut, the scanner never holds a complete event that it has not processed,
  -- nor more than the cap, and after an overflow it holds nothing.
  pub feed_all-IsQuiet : (cs : List Bytes) → IsQuiet (feed_all new_scanner cs)
  feed_all-IsQuiet cs = keeps_IsQuiet new_scanner cs (record {
    no_event = unfold find_event_boundary find_from in refl;
    capped = omega arith;
    dropped = λ e. refl;
  })
