-- ===== src/Server/Tasks/Tracked.antt =====
-- src/server.rs: what a stream that is served knows of the chunks that its client has got.
use mathlib.Core.Path.{subst}
use patchbay.Common.{
  ℕ, ◌+◌, ◌%◌, length, ◌≡◌, refl, ap, sym, ◌∙◌, inl, inr, ◌⊎◌, Bool, true, false, Option, List, [],
  ◌∷◌, ◌++◌, arith, Bool-cases, is_empty,
}
use patchbay.Common.Texts.{Text}
use patchbay.Upstream.{
  u64_mod, Bytes, Usage, RelayOutcome, RelaySummary, client_disconnected, completed, stalled,
  upstream_error,
}
use patchbay.Upstream.Scanner.{UsageScanner, new_scanner, feed}
use patchbay.Upstream.Scanner.Feed.{feed_all}
use patchbay.Upstream.Relay.{UpstreamPoll, SseRelay, new_relay, report, drop_relay, poll_next}
use patchbay.Limits.{Governor}
use patchbay.Server.{World}
use patchbay.Server.Tasks.{Stream, on_poll, on_drop}
use patchbay.Server.Tasks.Cases.{IsFresh}

module _ (g : Governor) (w : World) (parse_envelope : Bytes → Option (Option Usage))
    (fired : ℕ → ℕ → Bool) where
  -- The scanner after the chunks that the client has got.
  abbrev pub scanned : Stream → UsageScanner
  scanned st = feed_all parse_envelope new_scanner st.got

  pub record IsOpen (st : Stream) : Type 0 where
    pub reports : st.relay.reporter ≡ true
    pub unsent : st.relay.sent ≡ []
    pub running : st.relay.finished ≡ false
    pub held : st.dropped ≡ false
    pub waits : st.waiting ≡ true
    pub scans : st.relay.scanner ≡ scanned st

  pub record IsClosed (st : Stream) : Type 0 where
    pub reported : st.relay.reporter ≡ false
    pub summary : RelaySummary
    pub sent : st.relay.sent ≡ summary ∷ []
    pub usage : summary.usage ≡ (scanned st).last_usage
    pub over : (st.relay.finished ≡ true) ⊎ (st.dropped ≡ true)

  abbrev pub IsTracked : Stream → Type 0
  IsTracked st = IsOpen st ⊎ IsClosed st

  pub IsFresh-IsTracked :
      (now : ℕ) (key : Text) (st : Stream) → IsFresh g w now key st → IsTracked st
  unfolding feed_all new_relay
  IsFresh-IsTracked now key st f = inl (record {
    reports = ap (λ (r : SseRelay). r.reporter) f.relay;
    unsent = ap (λ (r : SseRelay). r.sent) f.relay;
    running = ap (λ (r : SseRelay). r.finished) f.relay;
    held = f.dropped;
    waits = f.waiting;
    scans =
        ap (λ (r : SseRelay). r.scanner) f.relay
        ∙ ap (feed_all parse_envelope new_scanner) (sym f.got);
  })

  feed_all-snoc :
      (s : UsageScanner) (cs : List Bytes) (c : Bytes)
      → feed_all parse_envelope s (cs ++ (c ∷ []))
        ≡ feed parse_envelope (feed_all parse_envelope s cs) c
  unfolding feed_all
  feed_all-snoc s [] c = refl
  feed_all-snoc s (d ∷ cs) c = feed_all-snoc (feed parse_envelope s d) cs c

  -- A report of an open stream closes it.
  report-IsClosed :
      (st : Stream) (fin gone : Bool) (o : RelayOutcome)
      → IsOpen st
      → (fin ≡ true) ⊎ (gone ≡ true)
      → IsClosed
          (record st { relay = report (record st.relay { finished = fin }) o; dropped = gone })
  unfolding report
  report-IsClosed st fin gone o s over = record {
    reported = ground (arith, s.reports);
    summary = record {
      outcome = o;
      usage = st.relay.scanner.last_usage;
      saw_done = st.relay.scanner.saw_done;
      bytes_relayed = st.relay.bytes_relayed;
    };
    sent = ground (arith, s.reports, s.unsent);
    usage = ap (λ (r : UsageScanner). r.last_usage) s.scans;
    over = ground (arith, s.reports, over);
  }

  abbrev polled : ℕ → UpstreamPoll → Stream → Stream
  polled = on_poll g w parse_envelope fired

  abbrev stopped : Stream → RelayOutcome → Stream
  stopped st o = record st { relay = report (record st.relay { finished = true }) o }

  on_poll-closed :
      (now : ℕ) (up : UpstreamPoll) (st : Stream)
      → IsClosed st
      → st.dropped ≡ false
      → polled now up st ≡ st
  unfolding on_poll poll_next
  on_poll-closed now up st s held =
      let done : st.relay.finished ≡ true = ground (arith, s.over) in ground arith

  on_poll-open :
      (now : ℕ) (up : UpstreamPoll) (st : Stream) → IsOpen st → IsTracked (polled now up st)
  unfolding on_poll poll_next
  on_poll-open now (UpstreamPoll.chunk c) st s =
      let next : Stream = record st {
        relay = record st.relay {
          scanner = feed parse_envelope st.relay.scanner c;
          bytes_relayed = (st.relay.bytes_relayed + length c) % u64_mod;
          deadline = now + st.relay.timeout;
        };
        got = st.got ++ (c ∷ []);
      } in
      let e : polled now (UpstreamPoll.chunk c) st ≡ next = ground (arith, s.running) in
      subst IsTracked (sym e) (
        inl (record {
          reports = s.reports;
          unsent = s.unsent;
          running = s.running;
          held = s.held;
          waits = s.waits;
          scans =
              ap (λ r. feed parse_envelope r c) s.scans ∙ sym (feed_all-snoc new_scanner st.got c);
        }))
  on_poll-open now (UpstreamPoll.failed e) st s =
      subst IsTracked
        (sym (
          let q : polled now (UpstreamPoll.failed e) st ≡ stopped st (upstream_error e) =
            ground (arith, s.running) in
          q))
        (inr (report-IsClosed st true st.dropped (upstream_error e) s (inl refl)))
  on_poll-open now UpstreamPoll.ended st s =
      subst IsTracked
        (sym (
          let q : polled now UpstreamPoll.ended st ≡ stopped st completed =
            ground (arith, s.running) in
          q))
        (inr (report-IsClosed st true st.dropped completed s (inl refl)))
  on_poll-open now UpstreamPoll.pending st s = elim (Bool-cases (fired st.relay.deadline now)) [
    | inl t ↦
        subst IsTracked
          (sym (
            let q : polled now UpstreamPoll.pending st ≡ stopped st stalled =
              ground (arith, s.running) in
            q))
          (inr (report-IsClosed st true st.dropped stalled s (inl refl)))
    | inr f ↦
        subst IsTracked
          (sym (let q : polled now UpstreamPoll.pending st ≡ st = ground (arith, s.running) in q))
          (inl s)
  ]

  pub on_poll-IsTracked :
      (now : ℕ) (up : UpstreamPoll) (st : Stream)
      → IsTracked st
      → st.dropped ≡ false
      → IsTracked (polled now up st) × ((polled now up st ≡ st) ⊎ (st.waiting ≡ true))
  on_poll-IsTracked now up st (inl s) held = (on_poll-open now up st s, inr s.waits)
  on_poll-IsTracked now up st (inr s) held =
      let same = on_poll-closed now up st s held in (rw same (inr s), inl same)

  -- A relay that is dropped after its report reports nothing more.
  drop_relay-closed : (r : SseRelay) → r.reporter ≡ false → drop_relay r ≡ r
  unfolding drop_relay report
  drop_relay-closed r h = ground arith

  pub on_drop-IsTracked :
      (st : Stream) → IsTracked st → IsTracked (on_drop g w parse_envelope fired st)
  unfolding drop_relay
  on_drop-IsTracked st (inl s) =
      inr (report-IsClosed st st.relay.finished true client_disconnected s (inr refl))
  on_drop-IsTracked st (inr s) =
      let same = drop_relay-closed st.relay s.reported in
      inr (record {
        reported = ap (λ (r : SseRelay). r.reporter) same ∙ s.reported;
        summary = s.summary;
        sent = ap (λ (r : SseRelay). r.sent) same ∙ s.sent;
        usage = s.usage;
        over = inr refl;
      })

  pub on_summary-IsTracked :
      (st : Stream) → IsTracked st → is_empty st.relay.sent ≡ false → IsClosed st
  on_summary-IsTracked st (inl s) ready = cc (ready, ap is_empty s.unsent)
  on_summary-IsTracked st (inr s) ready = s
