-- ===== src/Upstream/Relay.antt =====
-- src/upstream.rs: `SseRelay`, the stream that forwards the chunks of an upstream and reports once.
pub mod Report
use patchbay.Common.{
  ℕ, ◌+◌, ◌%◌, Bool, true, false, Option, List, [], ◌∷◌, ◌++◌, length, if◌then◌else◌,
}
use patchbay.Common.Texts.{Text}
use patchbay.Upstream.{
  Bytes, u64_mod, Usage, RelayOutcome, completed, stalled, client_disconnected, upstream_error,
  RelaySummary,
}
use patchbay.Upstream.Scanner.{UsageScanner, new_scanner, feed}

-- What polling the upstream answers.
pub data UpstreamPoll : Type 0 where
  chunk : Bytes → UpstreamPoll
  failed : Text → UpstreamPoll
  ended pending : UpstreamPoll

-- What polling the relay answers: an error is `RelayError::Upstream` or `RelayError::StallTimeout`.
pub data RelayPoll : Type 0 where
  chunk : Bytes → RelayPoll
  upstream : Text → RelayPoll
  stall_timeout : ℕ → RelayPoll
  ended pending : RelayPoll

-- `deadline` is the state of the sleep, `reporter` says whether the sender of the channel is still
-- there, and `sent` is what the receiver gets. Times are in milliseconds.
pub record SseRelay : Type 0 where
  pub scanner : UsageScanner
  pub deadline : ℕ
  pub timeout : ℕ
  pub reporter : Bool
  pub sent : List RelaySummary
  pub bytes_relayed : ℕ
  pub finished : Bool

-- `SseRelay::new`, at the time `now`
unfoldable pub new_relay : ℕ → ℕ → SseRelay
new_relay now timeout = record {
  scanner = new_scanner;
  deadline = now + timeout;
  timeout = timeout;
  reporter = true;
  sent = [];
  bytes_relayed = 0;
  finished = false;
}

unfoldable pub report : SseRelay → RelayOutcome → SseRelay
report s outcome =
    if s.reporter
    then record s {
      reporter = false;
      sent =
          s.sent
          ++ (record {
            outcome = outcome;
            usage = s.scanner.last_usage;
            saw_done = s.scanner.saw_done;
            bytes_relayed = s.bytes_relayed;
          }
              ∷ []);
    }
    else s

abbrev finish : SseRelay → RelayOutcome → SseRelay
finish s = report (record s { finished = true })

-- `Drop`
unfoldable pub drop_relay : SseRelay → SseRelay
drop_relay s = report s client_disconnected

-- `fired deadline now` is the answer of the sleep.
module _ (parse_envelope : Bytes → Option (Option Usage)) (fired : ℕ → ℕ → Bool) where
  unfoldable pub poll_next : ℕ → UpstreamPoll → SseRelay → SseRelay × RelayPoll
  poll_next now answer s = if s.finished then (s, RelayPoll.ended) else elim answer [
    | UpstreamPoll.chunk c ↦ (
      record s {
        scanner = feed parse_envelope s.scanner c;
        bytes_relayed = (s.bytes_relayed + length c) % u64_mod;
        deadline = now + s.timeout;
      },
      RelayPoll.chunk c,
    )
    | UpstreamPoll.failed e ↦ (finish s (upstream_error e), RelayPoll.upstream e)
    | UpstreamPoll.ended ↦ (finish s completed, RelayPoll.ended)
    | UpstreamPoll.pending ↦
        if fired s.deadline now
        then (finish s stalled, RelayPoll.stall_timeout s.timeout)
        else (s, RelayPoll.pending)
  ]

  -- The client polls, at the times and with the upstream's answers given.
  pub run : SseRelay → List (ℕ × UpstreamPoll) → SseRelay × List RelayPoll
  run s [] = (s, [])
  run s ((now, answer) ∷ polls) =
      let (s', out) = poll_next now answer s in
      let (last, outs) = run s' polls in (last, out ∷ outs)
