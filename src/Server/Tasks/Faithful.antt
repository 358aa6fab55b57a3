-- ===== src/Server/Tasks/Faithful.antt =====
-- src/server.rs, src/upstream.rs: what the clients of streams get, beside other requests.
use mathlib.Core.Path.{subst}
use mathlib.Core.List.{append-nil}
use patchbay.Common.{
  ℕ, ◌+◌, ◌==◌, ◌≡◌, refl, ap, sym, ◌∙◌, inl, inr, Bool, Option, none, some, [], ◌∷◌, ◌++◌, arith,
  Result, get_elem?, set_at, Bool-cases, if◌then◌else◌,
}
use patchbay.Auth.{KeyIdentity}
use patchbay.Config.{Backend}
use patchbay.Upstream.{Bytes, Usage}
use patchbay.Upstream.Relay.{UpstreamPoll, SseRelay, new_relay, drop_relay, report, poll_next}
use patchbay.Upstream.Client.{UpstreamError, HttpResponse}
use patchbay.Limits.{Governor}
use patchbay.Server.{stall_timeout_ms, CompletionRequest, World, AppState}
use patchbay.Server.Tasks.{
  Stream, forwarding, reading, streaming, begin, on_answer, on_body, on_poll, on_drop, on_summary,
  Gateway, arrive, answer, read, poll, drop, summarised, Reach, start, later,
}
use patchbay.Common.Texts.{Text}
use patchbay.Server.Tasks.Cases.{IsFresh, begin-cases, on_answer-cases}
use patchbay.Server.Tasks.Relayed.{
  Polls, chunks_until, deadline_after, after_end, then_deadline, chunks_until-snoc,
  deadline_after-snoc, IsAt, Relays, Relayed, Relayed-append, Relayed-moved, Relayed-set_at,
}

module _ (g : Governor) (w : World) (parse_envelope : Bytes → Option (Option Usage))
    (fired : ℕ → ℕ → Bool) where
  abbrev polled : ℕ → UpstreamPoll → Stream → Stream
  polled = on_poll g w parse_envelope fired

  -- A poll of a stream that has finished, or that goes on to a deadline.
  record Polled (d : Option ℕ) (now : ℕ) (up : UpstreamPoll) (st : Stream) : Type 0 where
    got : (polled now up st).got ≡ st.got ++ after_end fired d now up
    at : IsAt fired (polled now up st).relay (then_deadline fired d now up)
    timeout : (polled now up st).relay.timeout ≡ st.relay.timeout

  on_poll-timeout :
      (now : ℕ) (up : UpstreamPoll) (st : Stream)
      → (polled now up st).relay.timeout ≡ st.relay.timeout
  unfolding on_poll poll_next report
  on_poll-timeout now up st = ground arith

  on_poll-Polled :
      (d : Option ℕ) (now : ℕ) (up : UpstreamPoll) (st : Stream)
      → IsAt fired st.relay d
      → st.relay.timeout ≡ stall_timeout_ms
      → Polled d now up st
  unfolding on_poll poll_next report chunks_until deadline_after after_end then_deadline
  on_poll-Polled none now up st done known = record {
    got = ground (arith, append-nil st.got);
    at = ground arith;
    timeout = on_poll-timeout now up st;
  }
  on_poll-Polled (some deadline) now (UpstreamPoll.chunk c) st (running, same) known = record {
    got = ground arith;
    at = (ground arith, ground arith);
    timeout = on_poll-timeout now (UpstreamPoll.chunk c) st;
  }
  on_poll-Polled (some deadline) now (UpstreamPoll.failed e) st (running, same) known = record {
    got = ground (arith, append-nil st.got);
    at = ground arith;
    timeout = on_poll-timeout now (UpstreamPoll.failed e) st;
  }
  on_poll-Polled (some deadline) now UpstreamPoll.ended st (running, same) known = record {
    got = ground (arith, append-nil st.got);
    at = ground arith;
    timeout = on_poll-timeout now UpstreamPoll.ended st;
  }
  on_poll-Polled (some deadline) now UpstreamPoll.pending st (running, same) known =
      elim (Bool-cases (fired deadline now)) [
        | inl late ↦ record {
          got = ground (arith, append-nil st.got);
          at = rw late (ground arith);
          timeout = on_poll-timeout now UpstreamPoll.pending st;
        }
        | inr soon ↦ record {
          got = ground (arith, append-nil st.got);
          at = rw soon (ground arith, ground arith);
          timeout = on_poll-timeout now UpstreamPoll.pending st;
        }
      ]

  on_poll-Relays :
      (opened now : ℕ) (up : UpstreamPoll) (st : Stream) (ps : Polls)
      → Relays fired opened ps st
      → Relays fired opened (ps ++ ((now, up) ∷ [])) (polled now up st)
  on_poll-Relays opened now up st ps r =
      let d = deadline_after fired (opened + stall_timeout_ms) ps in
      let p = on_poll-Polled d now up st r.at r.timeout in
      record {
        got =
            p.got
            ∙ ap (λ l. l ++ after_end fired d now up) r.got
            ∙ sym (chunks_until-snoc fired (opened + stall_timeout_ms) ps now up);
        at =
            subst (IsAt fired (polled now up st).relay)
              (sym (deadline_after-snoc fired (opened + stall_timeout_ms) ps now up)) p.at;
        timeout = p.timeout ∙ r.timeout;
      }

  -- A drop reports, and leaves the rest of the relay.
  IsAt-drop : (r : SseRelay) (d : Option ℕ) → IsAt fired r d → IsAt fired (drop_relay r) d
  unfolding drop_relay report
  IsAt-drop r none at = ground arith
  IsAt-drop r (some deadline) at = (ground arith, ground arith)

  drop_relay-timeout : (r : SseRelay) → (drop_relay r).timeout ≡ r.timeout
  unfolding drop_relay report
  drop_relay-timeout r = ground arith

  on_drop-Relays :
      (opened : ℕ) (st : Stream) (ps : Polls)
      → Relays fired opened ps st
      → Relays fired opened ps (on_drop g w parse_envelope fired st)
  on_drop-Relays opened st ps r = record {
    got = r.got;
    at = IsAt-drop st.relay (deadline_after fired (opened + stall_timeout_ms) ps) r.at;
    timeout = drop_relay-timeout st.relay ∙ r.timeout;
  }

  begin-Relayed :
      (now : ℕ) (identity : KeyIdentity) (body : Bytes) (s : AppState g) (opened : ℕ) (ps : Polls)
      → Relayed fired opened ps none
      → Relayed fired opened ps (some (begin g w now identity body s).1)
  begin-Relayed now identity body s opened ps unheard = elim (begin-cases g w now identity body s) [
    | inl (status, type, cause, e) ↦ rw e unheard
    | inr (b, routed, e) ↦ rw e unheard
  ]

  new_relay-Relays :
      (now : ℕ) (key : Text) (st : Stream) (ps : Polls)
      → IsFresh g w now key st
      → ps ≡ []
      → Relays fired now ps st
  unfolding new_relay chunks_until deadline_after
  new_relay-Relays now key st ps fresh unheard =
      subst (λ l. Relays fired now l st) (sym unheard)
        (record {
          got = fresh.got;
          at = (
            ap (λ (r : SseRelay). r.finished) fresh.relay,
            ap (λ (r : SseRelay). r.deadline) fresh.relay,
          );
          timeout = ap (λ (r : SseRelay). r.timeout) fresh.relay;
        })

  on_answer-Relayed :
      (now : ℕ) (result : Result UpstreamError HttpResponse) (identity : KeyIdentity)
      (req : CompletionRequest) (b : Backend) (body : Bytes) (attempt : ℕ) (s : AppState g)
      (ps : Polls)
      → ps ≡ []
      → Relayed fired now ps (some (on_answer g w now result identity req b body attempt s).1)
  on_answer-Relayed now result identity req b body attempt s ps unheard =
      elim (on_answer-cases g w now result identity req b body attempt s) [
        | inl (status, type, cause, e) ↦ rw e unheard
        | inr (inl (e, more)) ↦ rw e unheard
        | inr (inr (inl (resp, e))) ↦ rw e unheard
        | inr (inr (inr (st, e, fresh))) ↦
            subst (λ t. Relayed fired now ps (some t)) (sym e)
              (new_relay-Relays now identity.name st ps fresh unheard)
      ]

  module _ (s : AppState g) where
    -- The answers that the upstream of the stream at a place has given to its polls, with their times.
    pub heard : (i : ℕ) {t : Gateway g w} → Reach g w parse_envelope fired s t → Polls
    heard i start = []
    heard i (later r (poll now j up st found live)) =
        let before = heard i r in if j == i then before ++ ((now, up) ∷ []) else before
    heard i (later r (arrive now identity body)) = heard i r
    heard i (later r (answer now j result identity req b body attempt found)) = heard i r
    heard i (later r (read now j key backend resp found)) = heard i r
    heard i (later r (drop j st found live)) = heard i r
    heard i (later r (summarised now j st found waits ready)) = heard i r

    -- When the request at a place last had an answer of its backend.
    pub opened : (i : ℕ) {t : Gateway g w} → Reach g w parse_envelope fired s t → ℕ
    opened i start = 0
    opened i (later r (answer now j result identity req b body attempt found)) =
        let before = opened i r in if j == i then now else before
    opened i (later r (poll now j up st found live)) = opened i r
    opened i (later r (arrive now identity body)) = opened i r
    opened i (later r (read now j key backend resp found)) = opened i r
    opened i (later r (drop j st found live)) = opened i r
    opened i (later r (summarised now j st found waits ready)) = opened i r

    same_if : (b : Bool) (ps : Polls) → (if b then ps else ps) ≡ ps
    same_if b ps = ground arith

    same_time_if : (b : Bool) (n : ℕ) → (if b then n else n) ≡ n
    same_time_if b n = ground arith

    Reach-Relayed :
        (i : ℕ) (t : Gateway g w) (r : Reach g w parse_envelope fired s t)
        → Relayed fired (opened i r) (heard i r) (get_elem? t.tasks i)
    unfolding heard opened
    Reach-Relayed i _ start = refl
    Reach-Relayed i _ (later {t} r (arrive now identity body)) =
        Relayed-append fired t.tasks (begin g w now identity body t.state).1 i (opened i r)
          (heard i r) (begin-Relayed now identity body t.state (opened i r) (heard i r))
          (Reach-Relayed i t r)
    Reach-Relayed i _ (later {t} r (answer now j result identity req b body attempt found)) =
        subst
          (λ ps. Relayed fired (if j == i then now else opened i r) ps (
            get_elem?
              (set_at t.tasks j (on_answer g w now result identity req b body attempt t.state).1)
              i))
          (same_if (j == i) (heard i r))
          (Relayed-moved fired t.tasks j i (forwarding identity req b body attempt)
            (on_answer g w now result identity req b body attempt t.state).1 (opened i r) now
            (heard i r) (heard i r) found
            (on_answer-Relayed now result identity req b body attempt t.state (heard i r))
            (Reach-Relayed i t r))
    Reach-Relayed i _ (later {t} r (read now j key backend resp found)) =
        Relayed-set_at fired t.tasks j i (reading key backend resp)
          (on_body g w now key backend resp t.state).1 (opened i r) (heard i r) found
          (λ unheard. unheard) (Reach-Relayed i t r)
    Reach-Relayed i _ (later {t} r (poll now j up st found live)) =
        subst
          (λ n.
            Relayed fired n (if j == i then heard i r ++ ((now, up) ∷ []) else heard i r)
              (get_elem? (set_at t.tasks j (streaming (polled now up st))) i))
          (same_time_if (j == i) (opened i r))
          (Relayed-moved fired t.tasks j i (streaming st) (streaming (polled now up st))
            (opened i r) (opened i r) (heard i r) (heard i r ++ ((now, up) ∷ [])) found
            (on_poll-Relays (opened i r) now up st (heard i r)) (Reach-Relayed i t r))
    Reach-Relayed i _ (later {t} r (drop j st found live)) =
        Relayed-set_at fired t.tasks j i (streaming st)
          (streaming (on_drop g w parse_envelope fired st)) (opened i r) (heard i r) found
          (on_drop-Relays (opened i r) st (heard i r)) (Reach-Relayed i t r)
    Reach-Relayed i _ (later {t} r (summarised now j st found waits ready)) =
        Relayed-set_at fired t.tasks j i (streaming st)
          (streaming (on_summary g w parse_envelope fired st)) (opened i r) (heard i r) found
          (λ known. record { got = known.got; at = known.at; timeout = known.timeout })
          (Reach-Relayed i t r)

    -- However requests interleave, the client of a stream has got exactly the chunks that the upstream
    -- of its own request has given at the polls of the stream, unchanged and in their order, up to the
    -- end of the upstream, an error of it, or a poll that finds nothing when the deadline has fired. The
    -- deadline is the stall timeout after the answer that opened the stream, and after each chunk.
    pub Reach-got :
        (i : ℕ) (t : Gateway g w) (r : Reach g w parse_envelope fired s t) (st : Stream)
        → get_elem? t.tasks i ≡ some (streaming st)
        → st.got ≡ chunks_until fired (opened i r + stall_timeout_ms) (heard i r)
    Reach-got i t r st found =
        let known : Relays fired (opened i r) (heard i r) st =
          subst (Relayed fired (opened i r) (heard i r)) found (Reach-Relayed i t r) in
        known.got
