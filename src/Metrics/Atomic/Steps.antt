-- ===== src/Metrics/Atomic/Steps.antt =====
-- src/metrics.rs: what a step of a thread does to the counts.
use patchbay.Common.{
  ℕ, zero, suc, ◌+◌, ◌%◌, ◌<◌, ◌≡◌, refl, ap, ◌∙◌, inl, inr, false, none, some, List, [], ◌∷◌, ◌++◌,
  arith, length, set_at, Bool-cases, Option-cases, if◌then◌else◌,
}
use patchbay.Common.Texts.{Text, text_eq, text_eq_iff}
use patchbay.Common.Maps.{Map, get, insert, get-insert}
use patchbay.Upstream.{u64_mod}
use patchbay.Metrics.Atomic.{
  Shared, Adding, locating, missing, holding, added, cell_at, advance, counted,
}

-- What a call has added under a label, and what its next access adds.
abbrev pub landing : Text → Adding → ℕ
landing k (added key n) = if text_eq key k then n else 0
landing k _ = 0

abbrev pub gain : Text → Adding → ℕ
gain k (holding key c n) = if text_eq key k then n else 0
gain k _ = 0

-- A call that holds a counter holds that of its label, which has one at the end of the call.
abbrev pub Holds : Map ℕ → Adding → Type 0
Holds table (holding key c n) = get table key ≡ some c
Holds table (added key n) = (c : ℕ) × (get table key ≡ some c)
Holds table _ = Unit

pub record IsSound (m : Shared) : Type 0 where
  pub inside : (k : Text) (c : ℕ) → get m.table k ≡ some c → c < length m.cells
  pub apart : (k l : Text) (c : ℕ) → get m.table k ≡ some c → get m.table l ≡ some c → k ≡ l

-- The table with a new counter for a label.
abbrev pub created : Shared → Text → Shared
created m key = record { table = insert m.table key (length m.cells); cells = m.cells ++ (0 ∷ []) }

module _ (m : Shared) (key : Text) (n : ℕ) where
  pub locating-absent : get m.table key ≡ none → advance m (locating key n) ≡ (m, missing key n)
  unfolding advance
  locating-absent nobody = ground arith

  pub locating-found :
      (c : ℕ) → get m.table key ≡ some c → advance m (locating key n) ≡ (m, holding key c n)
  unfolding advance
  locating-found c found = ground arith

  pub missing-absent :
      get m.table key ≡ none
      → advance m (missing key n) ≡ (created m key, holding key (length m.cells) n)
  unfolding advance
  missing-absent nobody = ground arith

  pub missing-found :
      (c : ℕ) → get m.table key ≡ some c → advance m (missing key n) ≡ (m, holding key c n)
  unfolding advance
  missing-found c found = ground arith

cell_at-append : (cells : List ℕ) (c : ℕ) → cell_at (cells ++ (0 ∷ [])) c ≡ cell_at cells c
cell_at-append [] zero = refl
cell_at-append [] (suc c) = refl
cell_at-append (n ∷ cells) zero = refl
cell_at-append (n ∷ cells) (suc c) = cell_at-append cells c

cell_at-length : (cells : List ℕ) → cell_at cells (length cells) ≡ 0
cell_at-length [] = refl
cell_at-length (n ∷ cells) = cell_at-length cells

pub length-snoc : (cells : List ℕ) → length (cells ++ (0 ∷ [])) ≡ length cells + 1
length-snoc [] = refl
length-snoc (n ∷ cells) = let rest = length-snoc cells in omega (arith, rest)

cell_at-set_at_same :
    (cells : List ℕ) (c n : ℕ) → c < length cells → cell_at (set_at cells c n) c ≡ n
cell_at-set_at_same [] c n h = absurd (omega arith)
cell_at-set_at_same (x ∷ cells) zero n h = refl
cell_at-set_at_same (x ∷ cells) (suc c) n h = cell_at-set_at_same cells c n (omega arith)

cell_at-set_at_other :
    (cells : List ℕ) (c d n : ℕ) → ¬ (c ≡ d) → cell_at (set_at cells c n) d ≡ cell_at cells d
cell_at-set_at_other [] c d n h = refl
cell_at-set_at_other (x ∷ cells) zero zero n h = absurd (h refl)
cell_at-set_at_other (x ∷ cells) zero (suc d) n h = refl
cell_at-set_at_other (x ∷ cells) (suc c) zero n h = refl
cell_at-set_at_other (x ∷ cells) (suc c) (suc d) n h =
    cell_at-set_at_other cells c d n (λ e. h (ap suc e))

pub landing-advance :
    (m : Shared) (a : Adding) (k : Text) → landing k (advance m a).1 ≡ landing k a + gain k a
unfolding advance
landing-advance m (locating key n) k = ground arith
landing-advance m (missing key n) k = ground arith
landing-advance m (holding key c n) k = omega arith
landing-advance m (added key n) k = omega arith

counted-holding :
    (m : Shared) (key : Text) (c n : ℕ) (k : Text)
    → IsSound m
    → get m.table key ≡ some c
    → counted (advance m (holding key c n)).0 k
      ≡ (if text_eq key k then (counted m k + n) % u64_mod else counted m k)
unfolding advance counted
counted-holding m key c n k sound mine =
    let new = (cell_at m.cells c + n) % u64_mod in
    elim (Option-cases (get m.table k)) [
      | inl unknown ↦
          let differs : text_eq key k ≡ false = ground (arith, text_eq_iff key k) in ground arith
      | inr (d, found) ↦ elim (Bool-cases (text_eq key k)) [
        | inl same ↦
            let e : key ≡ k = (text_eq_iff key k).0 same in
            let here = cell_at-set_at_same m.cells c new (sound.inside key c mine) in
            let both : c ≡ d = ground arith in ground (arith, here)
        | inr other ↦
            let there = cell_at-set_at_other m.cells c d new (λ e.
              let l : key ≡ k = sound.apart key k c mine (rw e found) in
              let no = (text_eq_iff key k).1 l in cc) in
            ground (arith, there)
      ]
    ]

cell_at-new : (cells : List ℕ) → cell_at (cells ++ (0 ∷ [])) (length cells) ≡ 0
cell_at-new cells = cell_at-append cells (length cells) ∙ cell_at-length cells

counted-created :
    (m : Shared) (key k : Text) → get m.table key ≡ none → counted (created m key) k ≡ counted m k
unfolding counted
counted-created m key k nobody =
    let now = get-insert m.table key k (length m.cells) in
    let fresh = cell_at-new m.cells in
    elim (Option-cases (get m.table k)) [
      | inl unknown ↦ elim (Bool-cases (text_eq key k)) [
        | inl same ↦ ground (arith, now, fresh)
        | inr other ↦ ground (arith, now)
      ]
      | inr (d, found) ↦
          let old = cell_at-append m.cells d in ground (arith, now, old, text_eq_iff key k)
    ]

counted-missing :
    (m : Shared) (key : Text) (n : ℕ) (k : Text)
    → counted (advance m (missing key n)).0 k ≡ counted m k
counted-missing m key n k = elim (Option-cases (get m.table key)) [
  | inr (c, found) ↦ rw (missing-found m key n c found) refl
  | inl nobody ↦ rw (missing-absent m key n nobody) (counted-created m key k nobody)
]

counted-locating :
    (m : Shared) (key : Text) (n : ℕ) (k : Text)
    → counted (advance m (locating key n)).0 k ≡ counted m k
unfolding advance counted
counted-locating m key n k = ground arith

counted-added :
    (m : Shared) (key : Text) (n : ℕ) (k : Text)
    → counted (advance m (added key n)).0 k ≡ counted m k
unfolding advance
counted-added m key n k = refl

pub advance-counted :
    (m : Shared) (a : Adding) (k : Text)
    → IsSound m
    → Holds m.table a
    → counted m k < u64_mod
    → counted (advance m a).0 k ≡ (counted m k + gain k a) % u64_mod
advance-counted m (locating key n) k sound mine small = counted-locating m key n k ∙ omega arith
advance-counted m (missing key n) k sound mine small = counted-missing m key n k ∙ omega arith
advance-counted m (holding key c n) k sound mine small =
    counted-holding m key c n k sound mine ∙ ground arith
advance-counted m (added key n) k sound mine small = counted-added m key n k ∙ omega arith
