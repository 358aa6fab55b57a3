-- ===== src/Common/Threads.antt =====
-- Threads that make their accesses of a shared value in any order: a thread is a call of a given kind,
-- which says where it stands, and `advance` is its next access.
use mathlib.Core.Path.{◌≡◌, refl, ap, sym, ◌∙◌}
use mathlib.Core.List.{List, [], ◌∷◌}
use mathlib.Core.Logic.{inl, inr}
use mathlib.Core.Option.{Option, none, some}
use Prim.Native.Nat.{ℕ, zero, suc, ◌+◌, ◌-◌, ◌≤◌}
use native.Mathlib.Omega.{arith}
use patchbay.Common.Tests.{if◌then◌else◌, Bool-cases, Option-cases, ◌==◌}
use patchbay.Common.Lists.{
  length, get_elem?, set_at, length-set_at, get_elem?-set_at_same, get_elem?-set_at_other,
}

pub record Threads (S A : Type 0) : Type 0 where
  pub shared : S
  pub calls : List A

-- How often a place has its turn.
abbrev pub turns : ℕ → List ℕ → ℕ
turns i [] = 0
turns i (j ∷ schedule) = (if j == i then 1 else 0) + turns i schedule

module _ {A : Type 0} (weight : A → ℕ) where
  unfoldable pub total : List A → ℕ
  total [] = 0
  total (a ∷ calls) = weight a + total calls

  pub total-set_at :
      (calls : List A) (i : ℕ) (a a' : A)
      → get_elem? calls i ≡ some a
      → total (set_at calls i a') + weight a ≡ total calls + weight a'
  unfolding total
  total-set_at [] i a a' found = cc
  total-set_at (b ∷ calls) zero a a' found =
      let same : b ≡ a = cc in let weighs = ap weight same in omega (arith, weighs)
  total-set_at (b ∷ calls) (suc i) a a' found =
      let rest = total-set_at calls i a a' found in omega (arith, rest)

module _ {S A : Type 0} (advance : S → A → S × A) where
  -- The call at a place makes its next access.
  unfoldable pub turn : Threads S A → ℕ → Threads S A
  turn s i = elim (get_elem? s.calls i) [
    | none ↦ s
    | some a ↦
        let (shared, a') = advance s.shared a in
        record { shared = shared; calls = set_at s.calls i a' }
  ]

  -- A schedule says whose turn it is.
  unfoldable pub run : Threads S A → List ℕ → Threads S A
  run s [] = s
  run s (i ∷ schedule) = run (turn s i) schedule

  pub turn-idle : (s : Threads S A) (i : ℕ) → get_elem? s.calls i ≡ none → turn s i ≡ s
  unfolding turn
  turn-idle s i nobody = ground arith

  pub turn-advance :
      (s : Threads S A) (i : ℕ) (a : A)
      → get_elem? s.calls i ≡ some a
      → turn s i ≡ record {
        shared = (advance s.shared a).0;
        calls = set_at s.calls i (advance s.shared a).1;
      }
  unfolding turn
  turn-advance s i a found = ground arith

  -- What every access keeps, every schedule keeps.
  pub run-keeps :
      (P : Threads S A → Type 0)
      → ((s : Threads S A) (i : ℕ) (a : A)
          → get_elem? s.calls i ≡ some a
          → P s
          → P (record {
            shared = (advance s.shared a).0;
            calls = set_at s.calls i (advance s.shared a).1;
          }))
      → (s : Threads S A) (schedule : List ℕ) → P s
      → P (run s schedule)
  unfolding run
  run-keeps P step s [] p = p
  run-keeps P step s (i ∷ schedule) p =
      run-keeps P step (turn s i) schedule (elim (Option-cases (get_elem? s.calls i)) [
        | inl nobody ↦ rw (turn-idle s i nobody) p
        | inr (a, found) ↦ rw (turn-advance s i a found) (step s i a found p)
      ])

  module _ (rank : A → ℕ) {B : Type 0} (about : A → B)
      (closer : (shared : S) (a : A) → rank (advance shared a).1 ≤ rank a - 1)
      (same : (shared : S) (a : A) → about (advance shared a).1 ≡ about a) where
    -- What has become of a call at its place.
    abbrev Became : Option A → ℕ → A → Type 0
    Became now had a = (a' : A) × (now ≡ some a') × (rank a' ≤ rank a - had) × (about a' ≡ about a)

    turn-Became :
        (s : Threads S A) (j i : ℕ) (a : A)
        → get_elem? s.calls i ≡ some a
        → Became (get_elem? (turn s j).calls i) (if j == i then 1 else 0) a
    turn-Became s j i a found = elim (Bool-cases (j == i)) [
      | inl here ↦
          let e : j ≡ i = ground arith in
          let mine : get_elem? s.calls j ≡ some a = ap (get_elem? s.calls) e ∙ found in
          let a' = (advance s.shared a).1 in
          let now : get_elem? (set_at s.calls j a') i ≡ some a' =
            ap (get_elem? (set_at s.calls j a')) (sym e)
            ∙ get_elem?-set_at_same s.calls j a a' mine in
          rw (here, turn-advance s j a mine) (a', now, closer s.shared a, same s.shared a)
      | inr other ↦ rw other (elim (Option-cases (get_elem? s.calls j)) [
        | inl nobody ↦ rw (turn-idle s j nobody) (a, found, omega arith, refl)
        | inr (b, there) ↦
            let kept = get_elem?-set_at_other s.calls j i (advance s.shared b).1 other in
            rw (turn-advance s j b there) (a, kept ∙ found, omega arith, refl)
      ])
    ]

    -- Each turn of a call brings it closer to its end.
    pub run-Became :
        (s : Threads S A) (schedule : List ℕ) (i : ℕ) (a : A)
        → get_elem? s.calls i ≡ some a
        → Became (get_elem? (run s schedule).calls i) (turns i schedule) a
    unfolding run
    run-Became s [] i a found = (a, found, omega arith, refl)
    run-Became s (j ∷ schedule) i a found =
        let (b, now, nearer, alike) = turn-Became s j i a found in
        let (c, last, nearest, alike') = run-Became (turn s j) schedule i b now in
        (c, last, omega (arith, nearer, nearest), alike' ∙ alike)

  length-turn : (s : Threads S A) (j : ℕ) → length (turn s j).calls ≡ length s.calls
  length-turn s j = elim (Option-cases (get_elem? s.calls j)) [
    | inl nobody ↦ rw (turn-idle s j nobody) refl
    | inr (b, there) ↦
        rw (turn-advance s j b there) (length-set_at s.calls j (advance s.shared b).1)
  ]

  pub length-run :
      (s : Threads S A) (schedule : List ℕ) → length (run s schedule).calls ≡ length s.calls
  unfolding run
  length-run s [] = refl
  length-run s (j ∷ schedule) = length-run (turn s j) schedule ∙ length-turn s j
