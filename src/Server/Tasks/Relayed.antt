-- ===== src/Server/Tasks/Relayed.antt =====
-- src/upstream.rs, src/server.rs: what the client of a stream is to get of the answers of its upstream.
use mathlib.Core.Path.{subst}
use patchbay.Common.{
  ℕ, zero, suc, ◌+◌, ◌==◌, ◌≡◌, refl, ap, sym, ◌∙◌, inl, inr, Bool, true, false, Option, none, some,
  List, [], ◌∷◌, ◌++◌, arith, get_elem?, set_at, get_elem?-set_at_same, get_elem?-set_at_other,
  Bool-cases, if◌then◌else◌,
}
use patchbay.Upstream.{Bytes}
use patchbay.Upstream.Relay.{UpstreamPoll, SseRelay}
use patchbay.Server.{stall_timeout_ms}
use patchbay.Server.Tasks.{Stream, Task, streaming}

abbrev pub Polls : Type 0
Polls = List (ℕ × UpstreamPoll)

module _ (fired : ℕ → ℕ → Bool) where
  -- What a client is to get of the answers of the upstream, each with its time: every chunk, up to the
  -- end, an error, or a poll that finds nothing when the deadline has passed; a chunk sets the deadline
  -- anew.
  unfoldable pub chunks_until : ℕ → Polls → List Bytes
  chunks_until deadline [] = []
  chunks_until deadline ((now, UpstreamPoll.chunk c) ∷ ps) =
      c ∷ chunks_until (now + stall_timeout_ms) ps
  chunks_until deadline ((now, UpstreamPoll.pending) ∷ ps) =
      let rest = chunks_until deadline ps in if fired deadline now then [] else rest
  chunks_until deadline ((now, UpstreamPoll.failed e) ∷ ps) = []
  chunks_until deadline ((now, UpstreamPoll.ended) ∷ ps) = []

  -- The deadline after these answers, when the stream goes on.
  unfoldable pub deadline_after : ℕ → Polls → Option ℕ
  deadline_after deadline [] = some deadline
  deadline_after deadline ((now, UpstreamPoll.chunk c) ∷ ps) =
      deadline_after (now + stall_timeout_ms) ps
  deadline_after deadline ((now, UpstreamPoll.pending) ∷ ps) =
      let rest = deadline_after deadline ps in if fired deadline now then none else rest
  deadline_after deadline ((now, UpstreamPoll.failed e) ∷ ps) = none
  deadline_after deadline ((now, UpstreamPoll.ended) ∷ ps) = none

  unfoldable pub after_end : Option ℕ → ℕ → UpstreamPoll → List Bytes
  after_end none now up = []
  after_end (some deadline) now up = chunks_until deadline ((now, up) ∷ [])

  unfoldable pub then_deadline : Option ℕ → ℕ → UpstreamPoll → Option ℕ
  then_deadline none now up = none
  then_deadline (some deadline) now up = deadline_after deadline ((now, up) ∷ [])

  pub chunks_until-snoc :
      (deadline : ℕ) (ps : Polls) (now : ℕ) (up : UpstreamPoll)
      → chunks_until deadline (ps ++ ((now, up) ∷ []))
        ≡ chunks_until deadline ps ++ after_end (deadline_after deadline ps) now up
  unfolding chunks_until deadline_after after_end
  chunks_until-snoc deadline [] now up = refl
  chunks_until-snoc deadline ((at, UpstreamPoll.chunk c) ∷ ps) now up =
      ap (λ l. c ∷ l) (chunks_until-snoc (at + stall_timeout_ms) ps now up)
  chunks_until-snoc deadline ((at, UpstreamPoll.pending) ∷ ps) now up =
      let rest = chunks_until-snoc deadline ps now up in
      elim (Bool-cases (fired deadline at)) [ inl late ↦ rw late refl | inr soon ↦ rw soon rest ]
  chunks_until-snoc deadline ((at, UpstreamPoll.failed e) ∷ ps) now up = refl
  chunks_until-snoc deadline ((at, UpstreamPoll.ended) ∷ ps) now up = refl

  pub deadline_after-snoc :
      (deadline : ℕ) (ps : Polls) (now : ℕ) (up : UpstreamPoll)
      → deadline_after deadline (ps ++ ((now, up) ∷ []))
        ≡ then_deadline (deadline_after deadline ps) now up
  unfolding deadline_after then_deadline
  deadline_after-snoc deadline [] now up = refl
  deadline_after-snoc deadline ((at, UpstreamPoll.chunk c) ∷ ps) now up =
      deadline_after-snoc (at + stall_timeout_ms) ps now up
  deadline_after-snoc deadline ((at, UpstreamPoll.pending) ∷ ps) now up =
      let rest = deadline_after-snoc deadline ps now up in
      elim (Bool-cases (fired deadline at)) [ inl late ↦ rw late refl | inr soon ↦ rw soon rest ]
  deadline_after-snoc deadline ((at, UpstreamPoll.failed e) ∷ ps) now up = refl
  deadline_after-snoc deadline ((at, UpstreamPoll.ended) ∷ ps) now up = refl

  abbrev pub IsAt : SseRelay → Option ℕ → Type 0
  IsAt r none = r.finished ≡ true
  IsAt r (some deadline) = (r.finished ≡ false) × (r.deadline ≡ deadline)

  -- A stream that was opened at a time, after the answers of its upstream.
  pub record Relays (opened : ℕ) (ps : Polls) (st : Stream) : Type 0 where
    pub got : st.got ≡ chunks_until (opened + stall_timeout_ms) ps
    pub at : IsAt st.relay (deadline_after (opened + stall_timeout_ms) ps)
    pub timeout : st.relay.timeout ≡ stall_timeout_ms

  -- What is known of the task at a place.
  abbrev pub Relayed : ℕ → Polls → Option Task → Type 0
  Relayed opened ps (some (streaming st)) = Relays opened ps st
  Relayed opened ps _ = ps ≡ []

  pub Relayed-append :
      (ts : List Task) (t : Task) (i opened : ℕ) (ps : Polls)
      → (Relayed opened ps none → Relayed opened ps (some t))
      → Relayed opened ps (get_elem? ts i)
      → Relayed opened ps (get_elem? (ts ++ (t ∷ [])) i)
  Relayed-append [] t zero opened ps fresh known = fresh known
  Relayed-append [] t (suc i) opened ps fresh known = known
  Relayed-append (u ∷ ts) t zero opened ps fresh known = known
  Relayed-append (u ∷ ts) t (suc i) opened ps fresh known =
      Relayed-append ts t i opened ps fresh known

  -- The task at a place has moved, with what is known of it.
  pub Relayed-moved :
      (ts : List Task) (j i : ℕ) (old new : Task) (opened opened' : ℕ) (ps ps' : Polls)
      → get_elem? ts j ≡ some old
      → (Relayed opened ps (some old) → Relayed opened' ps' (some new))
      → Relayed opened ps (get_elem? ts i)
      → Relayed
          (if j == i then opened' else opened)
          (if j == i then ps' else ps)
          (get_elem? (set_at ts j new) i)
  Relayed-moved ts j i old new opened opened' ps ps' found next known = elim (Bool-cases (j == i)) [
    | inl here ↦
        let same : j ≡ i = ground arith in
        let mine : get_elem? ts i ≡ some old = ap (get_elem? ts) (sym same) ∙ found in
        let after : get_elem? (set_at ts j new) i ≡ some new =
          ap (get_elem? (set_at ts j new)) (sym same) ∙ get_elem?-set_at_same ts j old new found in
        rw (here, after) (next (subst (Relayed opened ps) mine known))
    | inr other ↦ let after = get_elem?-set_at_other ts j i new other in rw (other, after) known
  ]

  pub Relayed-set_at :
      (ts : List Task) (j i : ℕ) (old new : Task) (opened : ℕ) (ps : Polls)
      → get_elem? ts j ≡ some old
      → (Relayed opened ps (some old) → Relayed opened ps (some new))
      → Relayed opened ps (get_elem? ts i)
      → Relayed opened ps (get_elem? (set_at ts j new) i)
  Relayed-set_at [] j i old new opened ps found next known = cc
  Relayed-set_at (t ∷ ts) zero zero old new opened ps found next known =
      next (subst (Relayed opened ps) found known)
  Relayed-set_at (t ∷ ts) zero (suc i) old new opened ps found next known = known
  Relayed-set_at (t ∷ ts) (suc j) zero old new opened ps found next known = known
  Relayed-set_at (t ∷ ts) (suc j) (suc i) old new opened ps found next known =
      Relayed-set_at ts j i old new opened ps found next known
