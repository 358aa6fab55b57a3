-- ===== src/Upstream/Scanner/Chunks.antt =====
-- src/upstream.rs: the loop of `feed` on a buffer that comes in two parts.
use patchbay.Common.{
  ℕ, zero, suc, ◌<◌, ◌≡◌, refl, ap, sym, ◌∙◌, inl, inr, Option, none, some, ◌++◌, arith, length,
  length-drop, drop-append, take-append, take, drop, Option-cases,
}
use patchbay.Upstream.{Bytes, Usage}
use patchbay.Upstream.Scanner.{
  UsageScanner, find_event_boundary, take_payload, process_event, drain, settle,
}
use patchbay.Upstream.Scanner.Boundary.{find_event_boundary-bounds, find_event_boundary-append}

abbrev pub append : UsageScanner → Bytes → UsageScanner
append s more = record s { buf = s.buf ++ more }

module _ (parse_envelope : Bytes → Option (Option Usage)) where
  -- An event is processed without a look at the buffer.
  pub process_event-append :
      (s : UsageScanner) (more event : Bytes)
      → process_event parse_envelope (append s more) event
        ≡ append (process_event parse_envelope s event) more
  unfolding process_event take_payload
  process_event-append s more event = ground arith

  process_event-buf :
      (s : UsageScanner) (event : Bytes) → (process_event parse_envelope s event).buf ≡ s.buf
  unfolding process_event take_payload
  process_event-buf s event = ground arith

  process_event-overflowed :
      (s : UsageScanner) (event : Bytes)
      → (process_event parse_envelope s event).overflowed ≡ s.overflowed
  unfolding process_event take_payload
  process_event-overflowed s event = ground arith

  -- One round of the loop of `feed`, on a boundary that was found.
  abbrev pub round : UsageScanner → ℕ → ℕ → UsageScanner
  round s e c = process_event parse_envelope (record s { buf = drop c s.buf }) (take e s.buf)

  pub length-round :
      (s : UsageScanner) (e c : ℕ)
      → find_event_boundary s.buf ≡ some (e, c)
      → length (round s e c).buf < length s.buf
  length-round s e c found =
      let b = find_event_boundary-bounds s.buf e c found in
      let kept : (round s e c).buf ≡ drop c s.buf = process_event-buf _ _ in
      rw kept (omega (arith, length-drop c s.buf, b.0, b.1))

  pub drain-none :
      (fuel : ℕ) (s : UsageScanner)
      → find_event_boundary s.buf ≡ none
      → drain parse_envelope fuel s ≡ s
  unfolding drain
  drain-none zero s found = refl
  drain-none (suc fuel) s found = ground arith

  pub drain-some :
      (fuel : ℕ) (s : UsageScanner) (e c : ℕ)
      → find_event_boundary s.buf ≡ some (e, c)
      → drain parse_envelope (suc fuel) s ≡ drain parse_envelope fuel (round s e c)
  unfolding drain
  drain-some fuel s e c found = ground arith

  -- More fuel than the buffer has bytes changes nothing.
  pub drain-fuel :
      (f g : ℕ) (s : UsageScanner)
      → length s.buf < f
      → length s.buf < g
      → drain parse_envelope f s ≡ drain parse_envelope g s
  drain-fuel zero g s hf hg = elim hf [ ]
  drain-fuel (suc f) zero s hf hg = elim hg [ ]
  drain-fuel (suc f) (suc g) s hf hg = elim (Option-cases (find_event_boundary s.buf)) [
    | inl found ↦ drain-none (suc f) s found ∙ sym (drain-none (suc g) s found)
    | inr ((e, c), found) ↦
        let shorter = length-round s e c found in
        drain-some f s e c found
        ∙ drain-fuel f g (round s e c) (omega arith) (omega arith)
        ∙ sym (drain-some g s e c found)
  ]

  -- When the loop ends by its test, no complete event is left.
  pub drain-settled :
      (f : ℕ) (s : UsageScanner)
      → length s.buf < f
      → find_event_boundary (drain parse_envelope f s).buf ≡ none
  drain-settled zero s hf = elim hf [ ]
  drain-settled (suc f) s hf = elim (Option-cases (find_event_boundary s.buf)) [
    | inl found ↦ rw (drain-none (suc f) s found) found
    | inr ((e, c), found) ↦
        let shorter = length-round s e c found in
        rw (drain-some f s e c found) (drain-settled f (round s e c) (omega arith))
  ]

  pub settle-some :
      (s : UsageScanner) (e c : ℕ)
      → find_event_boundary s.buf ≡ some (e, c)
      → settle parse_envelope s ≡ settle parse_envelope (round s e c)
  settle-some s e c found =
      let shorter = length-round s e c found in
      drain-some (length s.buf) s e c found
      ∙ drain-fuel (length s.buf) (suc (length (round s e c).buf)) (round s e c) shorter
          (omega arith)

  round-append :
      (s : UsageScanner) (more : Bytes) (e c : ℕ)
      → find_event_boundary s.buf ≡ some (e, c)
      → round (append s more) e c ≡ append (round s e c) more
  round-append s more e c found =
      let b = find_event_boundary-bounds s.buf e c found in
      rw (drop-append c s.buf more b.1, take-append e s.buf more (omega (arith, b.0, b.1)))
        (process_event-append (record s { buf = drop c s.buf }) more (take e s.buf))

  -- Events may be taken out before more bytes arrive.
  pub settle-append :
      (f : ℕ) (s : UsageScanner) (more : Bytes)
      → length s.buf < f
      → settle parse_envelope (append (drain parse_envelope f s) more)
        ≡ settle parse_envelope (append s more)
  settle-append zero s more hf = elim hf [ ]
  settle-append (suc f) s more hf = elim (Option-cases (find_event_boundary s.buf)) [
    | inl found ↦ rw (drain-none (suc f) s found)
    | inr ((e, c), found) ↦
        let shorter = length-round s e c found in
        let later = find_event_boundary-append s.buf more e c found in
        rw (drain-some f s e c found) (
          settle-append f (round s e c) more (omega arith)
          ∙ sym (ap (settle parse_envelope) (round-append s more e c found))
          ∙ sym (settle-some (append s more) e c later))
  ]

  pub drain-overflowed :
      (f : ℕ) (s : UsageScanner) → (drain parse_envelope f s).overflowed ≡ s.overflowed
  drain-overflowed zero s = unfold drain in refl
  drain-overflowed (suc f) s = elim (Option-cases (find_event_boundary s.buf)) [
    | inl found ↦ ap (λ (t : UsageScanner). t.overflowed) (drain-none (suc f) s found)
    | inr ((e, c), found) ↦
        rw (drain-some f s e c found)
          (drain-overflowed f (round s e c) ∙ process_event-overflowed _ _)
  ]
