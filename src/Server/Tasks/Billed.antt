-- ===== src/Server/Tasks/Billed.antt =====
-- src/server.rs: the charges of all runs.
use patchbay.Common.{
  ℕ, ◌≡◌, refl, ap, sym, inl, inr, Bool, true, false, Option, List, arith, All-get_elem?,
  All-append,
}
use patchbay.Upstream.{Bytes, Usage}
use patchbay.Upstream.Relay.{UpstreamPoll}
use patchbay.Limits.{Governor}
use patchbay.Budget.Accounting.{used_by, spent, InRange}
use patchbay.Server.{World, AppState}
use patchbay.Server.Tasks.{
  Stream, Task, forwarding, reading, streaming, begin, on_answer, on_body, on_poll, on_drop,
  on_summary, Gateway, Step, arrive, answer, read, poll, drop, summarised, Reach, start, later,
}
use patchbay.Server.Tasks.Cases.{begin-Fixed, on_answer-Fixed}
use patchbay.Server.Tasks.Tracked.{
  IsTracked, on_poll-IsTracked, on_drop-IsTracked, on_summary-IsTracked,
}
use patchbay.Server.Tasks.Billing.{entry, stream_charge, charges, charges-append, IsSpent-same}
use patchbay.Server.Tasks.Ledger.{
  Tracks, IsBilled, set_uncharged, set_charged, begin-charge, on_answer-charge, on_body-charge,
  account_stream-before,
}

module _ (g : Governor) (w : World) (parse_envelope : Bytes → Option (Option Usage))
    (fired : ℕ → ℕ → Bool) (s : AppState g) (key : List ℕ) where
  abbrev B : Gateway g w → Type 0
  B = IsBilled g w parse_envelope fired s key

  abbrev TracksAll : Task → Type 0
  TracksAll = Tracks g w parse_envelope fired

  poll-charge :
      (now : ℕ) (up : UpstreamPoll) (st : Stream)
      → IsTracked g w parse_envelope fired st
      → st.dropped ≡ false
      → stream_charge g w parse_envelope fired st.waiting
          (on_poll g w parse_envelope fired now up st)
        ≡ stream_charge g w parse_envelope fired st.waiting st
  poll-charge now up st tracked held =
      elim ((on_poll-IsTracked g w parse_envelope fired now up st tracked held).1) [
        | inl same ↦ ap (stream_charge g w parse_envelope fired st.waiting) same
        | inr waits ↦ rw waits refl
      ]

  drop-charge :
      (waits : Bool) (st : Stream)
      → stream_charge g w parse_envelope fired waits (on_drop g w parse_envelope fired st)
        ≡ stream_charge g w parse_envelope fired waits st
  drop-charge true st = refl
  drop-charge false st = refl

  Step-IsBilled : {t u : Gateway g w} → Step g w parse_envelope fired t u → B t → B u
  Step-IsBilled {t} (arrive now identity body) b =
      let begun = begin g w now identity body t.state in
      let (free, tracks) = begin-charge g w parse_envelope fired now identity body t.state in
      record {
        tracked = All-append (Tracks g w parse_envelope fired) t.tasks begun.1 b.tracked tracks;
        billed =
            IsSpent-same (used_by s.budget key) (used_by t.state.budget key)
              (used_by begun.0.budget key) (charges g w parse_envelope fired t.tasks) _ key b.billed
              (ap (λ l. used_by l key) (begin-Fixed g w now identity body t.state).1)
              (λ count. omega (
                arith,
                charges-append g w parse_envelope fired count key t.tasks begun.1,
                ap (λ l. spent count l key) free,
              ));
      }
  Step-IsBilled {t} (answer now i result identity req c body attempt found) b =
      let after = on_answer g w now result identity req c body attempt t.state in
      let (free, tracks) =
        on_answer-charge g w parse_envelope fired now result identity req c body attempt t.state in
      set_uncharged g w parse_envelope fired s key t i (forwarding identity req c body attempt)
        after.1 after.0 b found free
        (ap (λ l. used_by l key)
          (on_answer-Fixed g w now result identity req c body attempt t.state).1)
        tracks
  Step-IsBilled {t} (read now i k backend resp found) b =
      let after = on_body g w now k backend resp t.state in
      let (u, kept, paid) =
        on_body-charge g w parse_envelope fired now k backend key resp t.state in
      set_charged g w parse_envelope fired s key t i (reading k backend resp) after.1 after.0 k u b
        found refl paid kept tt
  Step-IsBilled {t} (poll now i up st found held) b =
      let tracked = All-get_elem? TracksAll t.tasks i b.tracked found in
      let next = on_poll-IsTracked g w parse_envelope fired now up st tracked held in
      set_uncharged g w parse_envelope fired s key t i (streaming st) _ t.state b found
        (unfold on_poll in poll-charge now up st tracked held) refl next.0
  Step-IsBilled {t} (drop i st found held) b =
      let tracked = All-get_elem? TracksAll t.tasks i b.tracked found in
      set_uncharged g w parse_envelope fired s key t i (streaming st) _ t.state b found
        (drop-charge st.waiting st) refl (on_drop-IsTracked g w parse_envelope fired st tracked)
  Step-IsBilled {t} (summarised now i st found waits ready) b =
      let tracked = All-get_elem? TracksAll t.tasks i b.tracked found in
      let closed = on_summary-IsTracked g w parse_envelope fired st tracked ready in
      set_charged g w parse_envelope fired s key t i (streaming st)
        (streaming (on_summary g w parse_envelope fired st)) _ st.key closed.summary.usage b found
        (ap (λ x. stream_charge g w parse_envelope fired x st) waits)
        (ap (entry st.key) (sym closed.usage))
        (account_stream-before g now st.key st.backend key closed.summary st.relay.sent t.state
          closed.sent)
        (inr (record {
          reported = closed.reported;
          summary = closed.summary;
          sent = closed.sent;
          usage = closed.usage;
          over = closed.over;
        }))

  -- However requests interleave, and whenever clients poll and drop their streams, the counters of a
  -- key in the ledger, when they were below 2^64 at first, are what they were plus, mod 2^64, the usage
  -- of each body that was answered to the key, and of each of its streams that has been accounted for
  -- the usage that the scanner has after exactly the chunks that the client has got; each is counted
  -- once.
  pub Reach-IsBilled :
      {t : Gateway g w}
      → InRange (used_by s.budget key)
      → Reach g w parse_envelope fired s t
      → IsBilled g w parse_envelope fired s key t
  Reach-IsBilled r start = record {
    tracked = tt;
    billed = omega (arith, r.prompt, r.completion, r.total);
  }
  Reach-IsBilled r (later before step) = Step-IsBilled step (Reach-IsBilled r before)
