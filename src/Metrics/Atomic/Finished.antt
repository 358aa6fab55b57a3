-- ===== src/Metrics/Atomic/Finished.antt =====
-- src/metrics.rs: each thread comes to its end in three turns.
use patchbay.Common.{
  ℕ, zero, suc, ◌-◌, ◌<◌, ◌≤◌, ◌≡◌, refl, ap, sym, ◌∙◌, some, List, [], ◌∷◌, arith, length,
  get_elem?,
}
use patchbay.Common.Texts.{Text}
use patchbay.Common.Threads.{Threads, turns, run-Became, length-run}
use patchbay.Metrics.Interleaved.{Additions}
use patchbay.Metrics.Atomic.{Shared, Adding, locating, missing, holding, added, advance, run_adding}
use patchbay.Metrics.Atomic.Tallied.{locating_all, empty_table}

-- How many turns a call needs.
abbrev rank : Adding → ℕ
rank (locating key n) = 3
rank (missing key n) = 2
rank (holding key c n) = 1
rank (added key n) = 0

abbrev asked : Adding → Text × ℕ
asked (locating key n) = (key, n)
asked (missing key n) = (key, n)
asked (holding key c n) = (key, n)
asked (added key n) = (key, n)

advance-rank : (m : Shared) (a : Adding) → rank (advance m a).1 ≤ rank a - 1
unfolding advance
advance-rank m (locating key n) = ground arith
advance-rank m (missing key n) = ground arith
advance-rank m (holding key c n) = omega arith
advance-rank m (added key n) = omega arith

advance-asked : (m : Shared) (a : Adding) → asked (advance m a).1 ≡ asked a
unfolding advance
advance-asked m (locating key n) = ground arith
advance-asked m (missing key n) = ground arith
advance-asked m (holding key c n) = refl
advance-asked m (added key n) = refl

rank-zero : (a : Adding) (x : Text × ℕ) → rank a ≤ 0 → asked a ≡ x → a ≡ added x.0 x.1
rank-zero (locating key n) x done e = absurd (omega arith)
rank-zero (missing key n) x done e = absurd (omega arith)
rank-zero (holding key c n) x done e = absurd (omega arith)
rank-zero (added key n) x done e = ap (λ (y : Text × ℕ). added y.0 y.1) e

abbrev pub added_all : Additions → List Adding
added_all [] = []
added_all ((key, n) ∷ xs) = added key n ∷ added_all xs

record IsAt (xs : Additions) (i : ℕ) : Type 0 where
  item : Text × ℕ
  before : get_elem? (locating_all xs) i ≡ some (locating item.0 item.1)
  after : get_elem? (added_all xs) i ≡ some (added item.0 item.1)

at : (xs : Additions) (i : ℕ) → i < length xs → IsAt xs i
at [] i h = absurd (omega arith)
at ((key, n) ∷ xs) zero h = record { item = (key, n); before = refl; after = refl }
at ((key, n) ∷ xs) (suc i) h =
    let rest = at xs i (omega arith) in
    record { item = rest.item; before = rest.before; after = rest.after }

length-locating_all : (xs : Additions) → length (locating_all xs) ≡ length xs
length-locating_all [] = refl
length-locating_all ((key, n) ∷ xs) = ap suc (length-locating_all xs)

length-added_all : (xs : Additions) → length (added_all xs) ≡ length xs
length-added_all [] = refl
length-added_all ((key, n) ∷ xs) = ap suc (length-added_all xs)

same_elements :
    (xs ys : List Adding)
    → length xs ≡ length ys
    → ((i : ℕ) → i < length xs → get_elem? xs i ≡ get_elem? ys i)
    → xs ≡ ys
same_elements [] [] long same = refl
same_elements [] (y ∷ ys) long same = absurd (omega (arith, long))
same_elements (x ∷ xs) [] long same = absurd (omega (arith, long))
same_elements (x ∷ xs) (y ∷ ys) long same =
    let first : x ≡ y = (let e = same 0 (omega arith) in cc) in
    let rest = same_elements xs ys (omega (arith, long)) (λ i h. same (suc i) (omega (arith, h))) in
    cc

-- Every call has three turns at least.
abbrev pub IsFair : Additions → List ℕ → Type 0
IsFair xs schedule = (i : ℕ) → i < length xs → 3 ≤ turns i schedule

pub run-added_all :
    (xs : Additions) (schedule : List ℕ)
    → IsFair xs schedule
    → (run_adding (record { shared = empty_table; calls = locating_all xs }) schedule).calls
      ≡ added_all xs
run-added_all xs schedule fair =
    let s : Threads Shared Adding = record { shared = empty_table; calls = locating_all xs } in
    let long = length-run advance s schedule ∙ length-locating_all xs in
    same_elements (run_adding s schedule).calls (added_all xs) (long ∙ sym (length-added_all xs))
      (λ i h.
        let less : i < length xs = omega (arith, h, long) in
        let here = at xs i less in
        let enough = fair i less in
        let (a, now, near, same) =
          run-Became advance rank asked advance-rank advance-asked s schedule i
            (locating here.item.0 here.item.1) here.before in
        now ∙ ap some (rank-zero a here.item (omega (arith, near, enough)) same) ∙ sym here.after)
