-- ===== src/Upstream/Scanner/Runs/Ends.antt =====
-- src/upstream.rs: that the loops of the scanner end, and with what.
use mathlib.Core.Path.{subst}
use patchbay.Common.{
  ℕ, zero, suc, ◌+◌, ◌<◌, ◌≤◌, ◌≡◌, ◌≢◌, ◌↔◌, refl, ap, ◌∙◌, inl, inr, true, false, Option, arith,
  ltb, leb, Bool-cases, length, take, drop, Option-cases,
}
use patchbay.Upstream.{Bytes, Usage}
use patchbay.Upstream.Scanner.{
  len, term_at, find_from, find_event_boundary, slice, Collected, collect_data_line, collect_from,
  collect, UsageScanner, process_event, drain, settle,
}
use patchbay.Upstream.Scanner.Boundary.{is_not, is_incomplete, is_len, Term-cases, term_at-len}
use patchbay.Upstream.Scanner.Chunks.{drain-none, drain-some, length-round, round, settle-some}
use patchbay.Upstream.Scanner.Runs.{
  Finds, at_end, not_here, undecided, one_only, second_undecided, two, Collects, line_end,
  last_line, within, nothing_yet, absorbed, Drains, idle, next_event,
}

find_from-Finds :
    (fuel : ℕ) (buf : Bytes) (i : ℕ) → length buf ≤ fuel + i → Finds buf i (find_from fuel buf i)
unfolding find_from
find_from-Finds zero buf i enough = at_end i (omega arith)
find_from-Finds (suc fuel) buf i enough = elim (Bool-cases (ltb i (length buf))) [
  | inr outside ↦ rw (find_from, outside) (at_end i (ground arith))
  | inl inside ↦
      let here : i < length buf = ground arith in
      elim (Term-cases (term_at buf i)) [
        | is_not t ↦
            rw (find_from, inside, t)
              (not_here i here t (find_from-Finds fuel buf (i + 1) (omega arith)))
        | is_incomplete t ↦ rw (find_from, inside, t) (undecided i here t)
        | is_len l t ↦
            let long = term_at-len buf i l t in
            elim (Term-cases (term_at buf (i + l))) [
              | is_not u ↦
                  rw (find_from, inside, t, u)
                    (one_only i l here t u (find_from-Finds fuel buf (i + l) (omega (arith, long))))
              | is_incomplete u ↦ rw (find_from, inside, t, u) (second_undecided i l here t u)
              | is_len m u ↦ rw (find_from, inside, t, u) (two i l m here t u)
            ]
      ]
]

find_event_boundary-Finds : (buf : Bytes) → Finds buf 0 (find_event_boundary buf)
unfolding find_event_boundary
find_event_boundary-Finds buf = find_from-Finds (length buf) buf 0 (omega arith)

-- A place where no terminator stands.
collect_from-within :
    (fuel : ℕ) (event : Bytes) (i line_start : ℕ) (c : Collected)
    → ((l : ℕ) → term_at event i ≢ len l)
    → i ≤ length event
    → ((i < length event)
        → Collects event (i + 1) line_start c (collect_from fuel event (i + 1) line_start c))
    → Collects event i line_start c (elim (leb (length event) i) [
      | true ↦ collect_data_line (drop line_start event) c
      | false ↦ collect_from fuel event (i + 1) line_start c
    ])
collect_from-within fuel event i line_start c none_here inside later =
    elim (Bool-cases (leb (length event) i)) [
      | inl over ↦ rw over (last_line i line_start c none_here (ground arith))
      | inr more ↦
          let here : i < length event = ground arith in
          rw more (within i line_start c none_here here (later here))
    ]

collect_from-Collects :
    (fuel : ℕ) (event : Bytes) (i line_start : ℕ) (c : Collected)
    → i ≤ length event
    → length event < fuel + i
    → Collects event i line_start c (collect_from fuel event i line_start c)
unfolding collect_from
collect_from-Collects zero event i line_start c inside enough = absurd (omega arith)
collect_from-Collects (suc fuel) event i line_start c inside enough =
    let later : (i < length event)
        → Collects event (i + 1) line_start c (collect_from fuel event (i + 1) line_start c) =
      λ here. collect_from-Collects fuel event (i + 1) line_start c (omega arith) (omega arith) in
    elim (Term-cases (term_at event i)) [
      | is_not t ↦
          rw (collect_from, t)
            (collect_from-within fuel event i line_start c (λ l e. cc (e, t)) inside later)
      | is_incomplete t ↦
          rw (collect_from, t)
            (collect_from-within fuel event i line_start c (λ l e. cc (e, t)) inside later)
      | is_len l t ↦
          let long = term_at-len event i l t in
          rw (collect_from, t)
            (line_end i line_start l c t (
              collect_from-Collects fuel event (i + l) (i + l)
                (collect_data_line (slice event line_start i) c) (omega (arith, long))
                (omega (arith, long))))
    ]

collect-Collects : (event : Bytes) → Collects event 0 0 nothing_yet (collect event)
unfolding collect
collect-Collects event =
    collect_from-Collects (suc (length event)) event 0 0 nothing_yet (omega arith) (omega arith)

-- A run ends with what the function on enough fuel gives.
Finds-find_from :
    (fuel : ℕ) (buf : Bytes) {i : ℕ} {r : Option (ℕ × ℕ)}
    → Finds buf i r
    → length buf ≤ fuel + i
    → find_from fuel buf i ≡ r
unfolding find_from
Finds-find_from zero buf (at_end i h) enough = refl
Finds-find_from zero buf (not_here i h t f) enough = absurd (omega arith)
Finds-find_from zero buf (undecided i h t) enough = refl
Finds-find_from zero buf (one_only i l h t u f) enough = absurd (omega arith)
Finds-find_from zero buf (second_undecided i l h t u) enough = refl
Finds-find_from zero buf (two i l m h t u) enough = absurd (omega arith)
Finds-find_from (suc fuel) buf (at_end i h) enough = ground arith
Finds-find_from (suc fuel) buf (not_here i h t f) enough =
    ground (arith, Finds-find_from fuel buf f (omega arith))
Finds-find_from (suc fuel) buf (undecided i h t) enough = ground arith
Finds-find_from (suc fuel) buf (one_only i l h t u f) enough =
    ground (arith, Finds-find_from fuel buf f (omega (arith, term_at-len buf i l t)))
Finds-find_from (suc fuel) buf (second_undecided i l h t u) enough = ground arith
Finds-find_from (suc fuel) buf (two i l m h t u) enough = ground arith

Finds-find_event_boundary :
    (buf : Bytes) {r : Option (ℕ × ℕ)} → Finds buf 0 r → find_event_boundary buf ≡ r
unfolding find_event_boundary
Finds-find_event_boundary buf f = Finds-find_from (length buf) buf f (omega arith)

Collects-collect_from :
    (fuel : ℕ) (event : Bytes) {i line_start : ℕ} {c d : Collected}
    → Collects event i line_start c d
    → i ≤ length event
    → length event < fuel + i
    → collect_from fuel event i line_start c ≡ d
unfolding collect_from
Collects-collect_from zero event run inside enough = absurd (omega arith)
Collects-collect_from (suc fuel) event (line_end i line_start l c t run) inside enough =
    let long = term_at-len event i l t in
    ground (arith, Collects-collect_from fuel event run (omega (arith, long)) (omega (arith, long)))
Collects-collect_from (suc fuel) event (last_line i line_start c t h) inside enough =
    elim (Term-cases (term_at event i)) [
      | is_not u ↦ ground arith
      | is_incomplete u ↦ ground arith
      | is_len l u ↦ absurd (t l u)
    ]
Collects-collect_from (suc fuel) event (within i line_start c t h run) inside enough =
    let later = Collects-collect_from fuel event run (omega arith) (omega arith) in
    elim (Term-cases (term_at event i)) [
      | is_not u ↦ ground arith
      | is_incomplete u ↦ ground arith
      | is_len l u ↦ absurd (t l u)
    ]

Collects-collect :
    (event : Bytes) {d : Collected} → Collects event 0 0 nothing_yet d → collect event ≡ d
unfolding collect
Collects-collect event run =
    Collects-collect_from (suc (length event)) event run (omega arith) (omega arith)

module _ (parse_envelope : Bytes → Option (Option Usage)) where
  drain-Drains :
      (fuel : ℕ) (s : UsageScanner)
      → length s.buf < fuel
      → Drains parse_envelope s (drain parse_envelope fuel s)
  unfolding process_event
  drain-Drains zero s enough = elim enough [ ]
  drain-Drains (suc fuel) s enough = elim (Option-cases (find_event_boundary s.buf)) [
    | inl found ↦
        rw (drain-none parse_envelope (suc fuel) s found)
          (idle s (subst (Finds s.buf 0) found (find_event_boundary-Finds s.buf)))
    | inr ((e, c), found) ↦
        let shorter = length-round parse_envelope s e c found in
        let later : Drains parse_envelope (round parse_envelope s e c)
            (drain parse_envelope fuel (round parse_envelope s e c)) =
          drain-Drains fuel (round parse_envelope s e c) (omega arith) in
        rw (drain-some parse_envelope fuel s e c found) (
          next_event s e c (collect (take e s.buf))
            (subst (Finds s.buf 0) found (find_event_boundary-Finds s.buf))
            (collect-Collects (take e s.buf)) later)
  ]

  Drains-settle : {s t : UsageScanner} → Drains parse_envelope s t → settle parse_envelope s ≡ t
  unfolding process_event collect
  Drains-settle (idle s f) =
      drain-none parse_envelope (suc (length s.buf)) s (Finds-find_event_boundary s.buf f)
  Drains-settle (next_event s e c d f collects run) =
      let same = Collects-collect (take e s.buf) collects in
      settle-some parse_envelope s e c (Finds-find_event_boundary s.buf f)
      ∙ ap
          (λ x. settle parse_envelope (absorbed parse_envelope x (record s { buf = drop c s.buf })))
          same
      ∙ Drains-settle run

  -- On every buffer the loops of the scanner end, written as the source has them: the search for a
  -- boundary, the reading of each event, and the loop over the events that `feed` runs. A run ends
  -- in a state exactly when the definitions on fuel give that state.
  pub settle_iff : (s t : UsageScanner) → Drains parse_envelope s t ↔ (settle parse_envelope s ≡ t)
  settle_iff s t = (
    Drains-settle,
    λ same.
        subst (Drains parse_envelope s) same (drain-Drains (suc (length s.buf)) s (omega arith)),
  )
