-- ===== src/Upstream/Relay/Report.antt =====
-- src/upstream.rs: what the client of a relay gets, and what the relay reports.
use patchbay.Common.{
  ℕ, ◌+◌, ◌%◌, ◌<◌, ◌≡◌, refl, ap, ◌∙◌, ◌⊎◌, inl, inr, Bool, true, false, Option, List, [], ◌∷◌,
  arith, length, Bool-cases,
}
use patchbay.Common.Texts.{Text}
use patchbay.Upstream.{
  Bytes, u64_mod, Usage, RelayOutcome, completed, stalled, client_disconnected, upstream_error,
  RelaySummary,
}
use patchbay.Upstream.Scanner.{feed}
use patchbay.Upstream.Scanner.Feed.{feed_all}
use patchbay.Upstream.Relay.{
  UpstreamPoll, RelayPoll, SseRelay, new_relay, report, drop_relay, poll_next, run,
}

-- Every later poll answers that the stream has ended.
abbrev pub AllEnded : List RelayPoll → Type 0
AllEnded [] = Unit
AllEnded (o ∷ os) = (o ≡ RelayPoll.ended) × AllEnded os

-- The client gets each chunk as it came, up to the first error, end or stall, and nothing after it.
abbrev pub IsFaithful : ℕ → List (ℕ × UpstreamPoll) → List RelayPoll → Type 0
IsFaithful timeout [] [] = Unit
IsFaithful timeout ((now, UpstreamPoll.chunk c) ∷ ps) (o ∷ os) =
    (o ≡ RelayPoll.chunk c) × IsFaithful timeout ps os
IsFaithful timeout ((now, UpstreamPoll.failed e) ∷ ps) (o ∷ os) =
    (o ≡ RelayPoll.upstream e) × AllEnded os
IsFaithful timeout ((now, UpstreamPoll.ended) ∷ ps) (o ∷ os) = (o ≡ RelayPoll.ended) × AllEnded os
IsFaithful timeout ((now, UpstreamPoll.pending) ∷ ps) (o ∷ os) =
    ((o ≡ RelayPoll.pending) × IsFaithful timeout ps os)
    ⊎ ((o ≡ RelayPoll.stall_timeout timeout) × AllEnded os)
IsFaithful timeout _ _ = ⊥

-- The chunks that the client got.
abbrev pub chunks_of : List RelayPoll → List Bytes
chunks_of [] = []
chunks_of (RelayPoll.chunk c ∷ os) = c ∷ chunks_of os
chunks_of (_ ∷ os) = chunks_of os

abbrev pub total : List Bytes → ℕ
total [] = 0
total (c ∷ cs) = length c + total cs

-- How the stream ended, by what the client got; without an end the client has gone away.
abbrev pub outcome_of : List RelayPoll → RelayOutcome
outcome_of [] = client_disconnected
outcome_of (RelayPoll.chunk c ∷ os) = outcome_of os
outcome_of (RelayPoll.pending ∷ os) = outcome_of os
outcome_of (RelayPoll.ended ∷ os) = completed
outcome_of (RelayPoll.upstream e ∷ os) = upstream_error e
outcome_of (RelayPoll.stall_timeout t ∷ os) = stalled

chunks_of-AllEnded : (os : List RelayPoll) → AllEnded os → chunks_of os ≡ []
chunks_of-AllEnded [] h = refl
chunks_of-AllEnded (RelayPoll.ended ∷ os) h = chunks_of-AllEnded os h.1
chunks_of-AllEnded (RelayPoll.chunk c ∷ os) h = cc (h.0)
chunks_of-AllEnded (RelayPoll.upstream e ∷ os) h = cc (h.0)
chunks_of-AllEnded (RelayPoll.stall_timeout t ∷ os) h = cc (h.0)
chunks_of-AllEnded (RelayPoll.pending ∷ os) h = cc (h.0)

abbrev stopped : SseRelay → RelayOutcome → SseRelay
stopped s outcome = report (record s { finished = true }) outcome

stopped-finished : (s : SseRelay) (o : RelayOutcome) → (stopped s o).finished ≡ true
unfolding report
stopped-finished s o = ground arith

module _ (parse_envelope : Bytes → Option (Option Usage)) (fired : ℕ → ℕ → Bool) where
  abbrev poll : ℕ → UpstreamPoll → SseRelay → SseRelay × RelayPoll
  poll = poll_next parse_envelope fired

  abbrev taken : ℕ → Bytes → SseRelay → SseRelay
  taken now c s = record s {
    scanner = feed parse_envelope s.scanner c;
    bytes_relayed = (s.bytes_relayed + length c) % u64_mod;
    deadline = now + s.timeout;
  }

  poll-finished :
      (now : ℕ) (answer : UpstreamPoll) (s : SseRelay)
      → s.finished ≡ true
      → poll now answer s ≡ (s, RelayPoll.ended)
  unfolding poll_next
  poll-finished now answer s h = ground arith

  module _ (now : ℕ) (s : SseRelay) (live : s.finished ≡ false) where
    poll-chunk :
        (c : Bytes) → poll now (UpstreamPoll.chunk c) s ≡ (taken now c s, RelayPoll.chunk c)
    unfolding poll_next
    poll-chunk c = ground arith

    poll-failed :
        (e : Text)
        → poll now (UpstreamPoll.failed e) s ≡ (stopped s (upstream_error e), RelayPoll.upstream e)
    unfolding poll_next
    poll-failed e = ground arith

    poll-ended : poll now UpstreamPoll.ended s ≡ (stopped s completed, RelayPoll.ended)
    unfolding poll_next
    poll-ended = ground arith

    poll-pending :
        fired s.deadline now ≡ false → poll now UpstreamPoll.pending s ≡ (s, RelayPoll.pending)
    unfolding poll_next
    poll-pending h = ground arith

    poll-stalled :
        fired s.deadline now ≡ true
        → poll now UpstreamPoll.pending s ≡ (stopped s stalled, RelayPoll.stall_timeout s.timeout)
    unfolding poll_next
    poll-stalled h = ground arith

  abbrev outs : SseRelay → List (ℕ × UpstreamPoll) → List RelayPoll
  outs s ps = (run parse_envelope fired s ps).1

  abbrev last : SseRelay → List (ℕ × UpstreamPoll) → SseRelay
  last s ps = (run parse_envelope fired s ps).0

  run-finished :
      (s : SseRelay) (ps : List (ℕ × UpstreamPoll))
      → s.finished ≡ true
      → (last s ps ≡ s) × AllEnded (outs s ps)
  unfolding run
  run-finished s [] h = (refl, tt)
  run-finished s ((now, answer) ∷ ps) h =
      let later = run-finished s ps h in
      rw (poll-finished now answer s h) (later.0, (refl, later.1))

  run-stopped :
      (s : SseRelay) (o : RelayOutcome) (ps : List (ℕ × UpstreamPoll))
      → (last (stopped s o) ps ≡ stopped s o) × AllEnded (outs (stopped s o) ps)
  run-stopped s o ps = run-finished (stopped s o) ps (stopped-finished s o)

  -- While the relay lives, each chunk of the upstream is the client's answer to that poll, byte for
  -- byte; a pending upstream is pending, or a stall; an error, the end or a stall comes through
  -- once, and all later polls answer that the stream has ended.
  pub run-IsFaithful :
      (s : SseRelay) (ps : List (ℕ × UpstreamPoll))
      → s.finished ≡ false
      → IsFaithful s.timeout ps (run parse_envelope fired s ps).1
  unfolding run
  run-IsFaithful s [] h = tt
  run-IsFaithful s ((now, UpstreamPoll.chunk c) ∷ ps) h =
      rw (poll-chunk now s h c) (refl, run-IsFaithful (taken now c s) ps h)
  run-IsFaithful s ((now, UpstreamPoll.failed e) ∷ ps) h =
      rw (poll-failed now s h e) (refl, (run-stopped s (upstream_error e) ps).1)
  run-IsFaithful s ((now, UpstreamPoll.ended) ∷ ps) h =
      rw (poll-ended now s h) (refl, (run-stopped s completed ps).1)
  run-IsFaithful s ((now, UpstreamPoll.pending) ∷ ps) h = elim (Bool-cases (fired s.deadline now)) [
    | inl t ↦ rw (poll-stalled now s h t) (inr (refl, (run-stopped s stalled ps).1))
    | inr f ↦ rw (poll-pending now s h f) (inl (refl, run-IsFaithful s ps h))
  ]

  record IsLive (s : SseRelay) : Type 0 where
    running : s.finished ≡ false
    can_report : s.reporter ≡ true
    unreported : s.sent ≡ []
    in_range : s.bytes_relayed < u64_mod

  -- The summary of what the client got from a relay in the state `s`.
  abbrev pub summary_of : SseRelay → List RelayPoll → RelaySummary
  summary_of s os =
      let seen = feed_all parse_envelope s.scanner (chunks_of os) in
      record {
        outcome = outcome_of os;
        usage = seen.last_usage;
        saw_done = seen.saw_done;
        bytes_relayed = (s.bytes_relayed + total (chunks_of os)) % u64_mod;
      }

  taken-IsLive : (now : ℕ) (c : Bytes) (s : SseRelay) → IsLive s → IsLive (taken now c s)
  taken-IsLive now c s l = record {
    running = l.running;
    can_report = l.can_report;
    unreported = l.unreported;
    in_range = omega arith;
  }

  -- the summary that `report` sends when the client gets no more chunks
  report-sent :
      (s : SseRelay) (o : RelayOutcome) (fin : Bool) (os : List RelayPoll)
      → IsLive s
      → outcome_of os ≡ o
      → chunks_of os ≡ []
      → (report (record s { finished = fin }) o).sent ≡ summary_of s os ∷ []
  unfolding report feed_all
  report-sent s o fin os l e none_left =
      let size : (s.bytes_relayed + 0) % u64_mod ≡ s.bytes_relayed = omega (arith, l.in_range) in
      rw (none_left, e, size) (ground arith)

  drop-stopped : (s : SseRelay) (o : RelayOutcome) → drop_relay (stopped s o) ≡ stopped s o
  unfolding drop_relay report
  drop-stopped s o = ground arith

  drop-live : (s : SseRelay) → IsLive s → (drop_relay s).sent ≡ summary_of s [] ∷ []
  unfolding drop_relay
  drop-live s l = report-sent s client_disconnected s.finished [] l refl refl

  -- after a stop nothing is sent any more
  stopped-sent :
      (s : SseRelay) (o : RelayOutcome) (first : RelayPoll) (ps : List (ℕ × UpstreamPoll))
      → IsLive s
      → outcome_of (first ∷ outs (stopped s o) ps) ≡ o
      → chunks_of (first ∷ outs (stopped s o) ps) ≡ []
      → (drop_relay (last (stopped s o) ps)).sent
        ≡ summary_of s (first ∷ outs (stopped s o) ps) ∷ []
  stopped-sent s o first ps l e none_left =
      ap (λ (r : SseRelay). (drop_relay r).sent) ((run-stopped s o ps).0)
      ∙ ap (λ (r : SseRelay). r.sent) (drop-stopped s o)
      ∙ report-sent s o true (first ∷ outs (stopped s o) ps) l e none_left

  summary_of-taken :
      (now : ℕ) (c : Bytes) (s : SseRelay) (os : List RelayPoll)
      → summary_of (taken now c s) os ≡ summary_of s (RelayPoll.chunk c ∷ os)
  unfolding feed_all
  summary_of-taken now c s os =
      let sum : ((s.bytes_relayed + length c) % u64_mod + total (chunks_of os)) % u64_mod
          ≡ (s.bytes_relayed + (length c + total (chunks_of os))) % u64_mod =
        omega arith in
      rw sum

  run-sent :
      (s : SseRelay) (ps : List (ℕ × UpstreamPoll))
      → IsLive s
      → (drop_relay (last s ps)).sent ≡ summary_of s (outs s ps) ∷ []
  unfolding run
  run-sent s [] l = drop-live s l
  run-sent s ((now, UpstreamPoll.chunk c) ∷ ps) l = rw (poll-chunk now s l.running c) (
      run-sent (taken now c s) ps (taken-IsLive now c s l)
      ∙ ap (λ (r : RelaySummary). r ∷ []) (summary_of-taken now c s (outs (taken now c s) ps)))
  run-sent s ((now, UpstreamPoll.failed e) ∷ ps) l =
      let o = upstream_error e in
      rw (poll-failed now s l.running e) (
        stopped-sent s o (RelayPoll.upstream e) ps l refl
          (chunks_of-AllEnded (outs (stopped s o) ps) (run-stopped s o ps).1))
  run-sent s ((now, UpstreamPoll.ended) ∷ ps) l = rw (poll-ended now s l.running) (
      stopped-sent s completed RelayPoll.ended ps l refl
        (chunks_of-AllEnded (outs (stopped s completed) ps) (run-stopped s completed ps).1))
  run-sent s ((now, UpstreamPoll.pending) ∷ ps) l = elim (Bool-cases (fired s.deadline now)) [
    | inl t ↦ rw (poll-stalled now s l.running t) (
        stopped-sent s stalled (RelayPoll.stall_timeout s.timeout) ps l refl
          (chunks_of-AllEnded (outs (stopped s stalled) ps) (run-stopped s stalled ps).1))
    | inr f ↦ rw (poll-pending now s l.running f) (run-sent s ps l)
  ]

  -- However a relay is polled and then dropped, its channel gets exactly one summary: with the
  -- outcome that the client saw, or a disconnect when it saw no end, with the accounting that the
  -- scanner has after exactly the chunks that the client got, and with their total length mod 2^64.
  pub run-summary :
      (now timeout : ℕ) (ps : List (ℕ × UpstreamPoll))
      → (drop_relay (run parse_envelope fired (new_relay now timeout) ps).0).sent
        ≡ summary_of (new_relay now timeout) (run parse_envelope fired (new_relay now timeout) ps).1
          ∷ []
  run-summary now timeout ps = run-sent (new_relay now timeout) ps (
      unfold new_relay in
      record { running = refl; can_report = refl; unreported = refl; in_range = omega arith })
