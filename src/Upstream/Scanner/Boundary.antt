-- ===== src/Upstream/Scanner/Boundary.antt =====
-- src/upstream.rs: the boundary of an event in a buffer that grows.
use native.Mathlib.Nat.{suc-add}
use patchbay.Common.{
  ℕ, zero, suc, ◌+◌, ◌<◌, ◌≤◌, ◌≡◌, ◌≢◌, refl, inl, inr, none, some, [], ◌∷◌, ◌++◌, arith, length,
  length-append, get_elem?, Option-cases,
}
use patchbay.Upstream.{Bytes}
use patchbay.Upstream.Scanner.{
  Term, not_term, incomplete, len, term_at, find_from, find_event_boundary,
}

get_elem?-append : (xs ys : Bytes) (i : ℕ) → i < length xs → get_elem? (xs ++ ys) i ≡ get_elem? xs i
get_elem?-append [] ys i h = elim h [ ]
get_elem?-append (x ∷ xs) ys zero h = refl
get_elem?-append (x ∷ xs) ys (suc i) h = get_elem?-append xs ys i (omega arith)

pub get_elem?-none : (xs : Bytes) (i : ℕ) → get_elem? xs i ≡ none → length xs ≤ i
get_elem?-none [] i h = omega arith
get_elem?-none (x ∷ xs) zero h = cc
get_elem?-none (x ∷ xs) (suc i) h = omega (arith, get_elem?-none xs i h)

pub get_elem?-some : (xs : Bytes) (i b : ℕ) → get_elem? xs i ≡ some b → i < length xs
get_elem?-some [] i b h = cc
get_elem?-some (x ∷ xs) zero b h = omega arith
get_elem?-some (x ∷ xs) (suc i) b h = omega (arith, get_elem?-some xs i b h)

-- A terminator has one or two bytes, and they lie in the buffer.
pub term_at-len :
    (buf : Bytes) (i l : ℕ) → term_at buf i ≡ len l → (0 < l) × (l ≤ 2) × (i + l ≤ length buf)
unfolding term_at
term_at-len buf i l h = elim (Option-cases (get_elem? buf i)) [
  | inl outside ↦ ground arith
  | inr (b, here) ↦ elim (Option-cases (get_elem? buf (suc i))) [
    | inl last ↦ ground (arith, get_elem?-some buf i b here)
    | inr (d, next) ↦ ground (arith, get_elem?-some buf i b here, get_elem?-some buf (suc i) d next)
  ]
]

-- Inside the buffer what stands at a place is settled, unless it is incomplete.
pub term_at-append :
    (buf more : Bytes) (i : ℕ)
    → i < length buf
    → term_at buf i ≢ incomplete
    → term_at (buf ++ more) i ≡ term_at buf i
unfolding term_at
term_at-append buf more i inside settled = elim (Option-cases (get_elem? buf (suc i))) [
  | inl last ↦ ground (arith, get_elem?-append buf more i inside)
  | inr (d, next) ↦ ground (
    arith,
    get_elem?-append buf more i inside,
    get_elem?-append buf more (suc i) (get_elem?-some buf (suc i) d next),
  )
]

pub data TermCases (t : Term) : Type 0 where
  is_not : t ≡ not_term → TermCases t
  is_incomplete : t ≡ incomplete → TermCases t
  is_len : (l : ℕ) → t ≡ len l → TermCases t

pub Term-cases : (t : Term) → TermCases t
Term-cases not_term = is_not refl
Term-cases incomplete = is_incomplete refl
Term-cases (len l) = is_len l refl

-- The event ends before the boundary, and the boundary lies in the buffer.
find_from-bounds :
    (fuel : ℕ) (buf : Bytes) (i e c : ℕ)
    → find_from fuel buf i ≡ some (e, c)
    → (i ≤ e) × (e < c) × (c ≤ length buf)
unfolding find_from
find_from-bounds zero buf i e c h = cc
find_from-bounds (suc fuel) buf i e c h = elim (Term-cases (term_at buf i)) [
  | is_not t ↦ ground (arith, find_from-bounds fuel buf (i + 1) e c)
  | is_incomplete t ↦ ground arith
  | is_len l t ↦ elim (Term-cases (term_at buf (i + l))) [
    | is_not u ↦ ground (arith, find_from-bounds fuel buf (i + l) e c)
    | is_incomplete u ↦ ground arith
    | is_len m u ↦ ground (arith, term_at-len buf i l t, term_at-len buf (i + l) m u)
  ]
]

-- A boundary that is found lies in the buffer, behind the event that it ends.
pub find_event_boundary-bounds :
    (buf : Bytes) (e c : ℕ) → find_event_boundary buf ≡ some (e, c) → (e < c) × (c ≤ length buf)
unfolding find_event_boundary
find_event_boundary-bounds buf e c h =
    let bounds = find_from-bounds (length buf) buf 0 e c h in (bounds.1, bounds.2)

find_from-inside :
    (fuel : ℕ) (buf : Bytes) (i e c : ℕ) → find_from fuel buf i ≡ some (e, c) → i < length buf
find_from-inside fuel buf i e c h = omega (arith, find_from-bounds fuel buf i e c h)

-- A boundary that is found stays found, with more fuel and more bytes.
pub find_from-append :
    (fuel extra : ℕ) (buf more : Bytes) (i e c : ℕ)
    → find_from fuel buf i ≡ some (e, c)
    → find_from (fuel + extra) (buf ++ more) i ≡ some (e, c)
unfolding find_from
find_from-append zero extra buf more i e c h = cc
find_from-append (suc fuel) extra buf more i e c h =
    let inside = find_from-inside (suc fuel) buf i e c h in
    let longer = length-append buf more in
    rw suc-add (elim (Term-cases (term_at buf i)) [
      | is_not t ↦ ground (
        arith,
        term_at-append buf more i inside,
        find_from-append fuel extra buf more (i + 1) e c,
      )
      | is_incomplete t ↦ ground arith
      | is_len l t ↦ elim (Term-cases (term_at buf (i + l))) [
        | is_not u ↦
            let rest : find_from fuel buf (i + l) ≡ some (e, c) = ground arith in
            let inside' = find_from-inside fuel buf (i + l) e c rest in
            ground (
              arith,
              term_at-append buf more i inside,
              term_at-append buf more (i + l) inside',
              find_from-append fuel extra buf more (i + l) e c rest,
            )
        | is_incomplete u ↦ ground arith
        | is_len m u ↦ ground (
          arith,
          term_at-append buf more i inside,
          term_at-append buf more (i + l),
          term_at-len buf (i + l) m u,
        )
      ]
    ])

-- A boundary that is found stays where it is when more bytes arrive.
pub find_event_boundary-append :
    (buf more : Bytes) (e c : ℕ)
    → find_event_boundary buf ≡ some (e, c)
    → find_event_boundary (buf ++ more) ≡ some (e, c)
unfolding find_event_boundary
find_event_boundary-append buf more e c h =
    rw length-append (find_from-append (length buf) (length more) buf more 0 e c h)
