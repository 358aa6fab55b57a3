-- ===== src/Metrics/Atomic/Complete.antt =====
-- src/metrics.rs: what threads that have come to their end leave in the table.
use mathlib.Core.Path.{subst}
use patchbay.Common.{
  ℕ, ◌+◌, ◌%◌, ◌≡◌, refl, ap, sym, ◌∙◌, inl, inr, ◌⊎◌, true, false, none, some, List, [], ◌∷◌,
  arith, All, In, Distinct, Option-cases, Bool-cases,
}
use patchbay.Common.Texts.{Text, text_eq, text_eq_iff}
use patchbay.Common.Maps.{Map, get, get-empty, keys}
use patchbay.Common.Threads.{Threads, total}
use patchbay.Upstream.{u64_mod}
use patchbay.Metrics.{LabeledCounters, count, snapshot}
use patchbay.Metrics.Sorted.{snapshot-SameCounters}
use patchbay.Metrics.Interleaved.{Additions, add_all, tally, raised, get-add_all, add_all-Distinct}
use patchbay.Metrics.Atomic.{Shared, Adding, cell_at, run_adding, counted, loaded}
use patchbay.Metrics.Atomic.Steps.{landing, Holds}
use patchbay.Metrics.Atomic.Tallied.{locating_all, empty_table, labels_of, run-IsTallied}
use patchbay.Metrics.Atomic.Finished.{added_all, IsFair, run-added_all}

-- What additions that all have been made have made of a label.
record Sums (xs : Additions) (k : Text) (n : ℕ) : Type 0 where
  told : tally k xs ≡ some n
  summed : total (landing k) (added_all xs) ≡ n
  there : In k (labels_of xs)

record Lacks (xs : Additions) (k : Text) : Type 0 where
  silent : tally k xs ≡ none
  nothing : total (landing k) (added_all xs) ≡ 0
  absent : ¬ In k (labels_of xs)

abbrev Known : Text → Additions → Type 0
Known k xs = Lacks xs k ⊎ ((n : ℕ) × Sums xs k n)

tally-same :
    (k l : Text) (n : ℕ) (xs : Additions)
    → text_eq l k ≡ true
    → Known k xs
    → (m : ℕ) × Sums ((l, n) ∷ xs) k m
unfolding tally total
tally-same k l n xs same (inl lacks) =
    let told = lacks.silent in
    let summed = lacks.nothing in
    (
      n,
      record {
        told = ground arith;
        summed = rw same (omega (arith, summed));
        there = inl ((text_eq_iff l k).0 same);
      },
    )
tally-same k l n xs same (inr (m, sums)) =
    let told = sums.told in
    let summed = sums.summed in
    (
      n + m,
      record {
        told = ground arith;
        summed = rw same (omega (arith, summed));
        there = inr sums.there;
      },
    )

tally-other :
    (k l : Text) (n : ℕ) (xs : Additions) → text_eq l k ≡ false → Known k xs → Known k ((l, n) ∷ xs)
unfolding tally total
tally-other k l n xs other (inl lacks) =
    let silent = lacks.silent in
    let nothing = lacks.nothing in
    inl (record {
      silent = ground arith;
      nothing = rw other (omega (arith, nothing));
      absent = λ h. elim h [
        | inl e ↦ (let same = (text_eq_iff l k).1 e in cc)
        | inr later ↦ lacks.absent later
      ];
    })
tally-other k l n xs other (inr (m, sums)) =
    let told = sums.told in
    let summed = sums.summed in
    inr (
      m,
      record {
        told = ground arith;
        summed = rw other (omega (arith, summed));
        there = inr sums.there;
      },
    )

tally-cases : (k : Text) (xs : Additions) → Known k xs
unfolding tally total
tally-cases k [] = inl (record { silent = refl; nothing = refl; absent = λ h. absurd h })
tally-cases k ((l, n) ∷ xs) = elim (Bool-cases (text_eq l k)) [
  | inl same ↦ inr (tally-same k l n xs same (tally-cases k xs))
  | inr other ↦ tally-other k l n xs other (tally-cases k xs)
]

Holds-In :
    (table : Map ℕ) (xs : Additions) (k : Text)
    → All (Holds table) (added_all xs)
    → In k (labels_of xs)
    → (c : ℕ) × (get table k ≡ some c)
Holds-In table [] k h m = absurd m
Holds-In table ((l, n) ∷ xs) k h (inl e) =
    let (c, found) = h.0 in (c, subst (λ j. get table j ≡ some c) e found)
Holds-In table ((l, n) ∷ xs) k h (inr m) = Holds-In table xs k h.1 m

get-loaded-some :
    (table : Map ℕ) (cells : List ℕ) (k : Text) (c : ℕ)
    → get table k ≡ some c
    → get (loaded table cells) k ≡ some (cell_at cells c)
unfolding get loaded
get-loaded-some [] cells k c found = cc
get-loaded-some ((l, d) ∷ table) cells k c found = elim (Bool-cases (text_eq l k)) [
  | inl same ↦ let e : d ≡ c = ground arith in rw same (ap (λ i. some (cell_at cells i)) e)
  | inr other ↦ rw other (get-loaded-some table cells k c (ground arith))
]

get-loaded-none :
    (table : Map ℕ) (cells : List ℕ) (k : Text)
    → get table k ≡ none
    → get (loaded table cells) k ≡ none
unfolding get loaded
get-loaded-none [] cells k nobody = refl
get-loaded-none ((l, d) ∷ table) cells k nobody = ground (arith, get-loaded-none table cells k)

keys-loaded : (table : Map ℕ) (cells : List ℕ) → keys (loaded table cells) ≡ keys table
unfolding loaded
keys-loaded [] cells = refl
keys-loaded ((l, d) ∷ table) cells = ap (λ ks. l ∷ ks) (keys-loaded table cells)

counted-some :
    (m : Shared) (k : Text) (c : ℕ) → get m.table k ≡ some c → counted m k ≡ cell_at m.cells c
unfolding counted
counted-some m k c found = ground arith

raised-empty : (k : Text) (n : ℕ) → raised [] k (some n) ≡ some (n % u64_mod)
unfolding count get
raised-empty k n = ap some (omega arith)

module _ (xs : Additions) (schedule : List ℕ) where
  abbrev ended : Threads Shared Adding
  ended = run_adding (record { shared = empty_table; calls = locating_all xs }) schedule

  -- The table as a snapshot loads it.
  abbrev pub read_back : LabeledCounters
  read_back = loaded ended.shared.table ended.shared.cells

  get-read_back : (k : Text) → IsFair xs schedule → get read_back k ≡ get (add_all [] xs) k
  get-read_back k fair =
      let t = run-IsTallied xs schedule in
      let finished = run-added_all xs schedule fair in
      let spec = get-add_all [] xs k in
      elim (tally-cases k xs) [
        | inl lacks ↦
            let nobody : get ended.shared.table k ≡ none =
              elim (Option-cases (get ended.shared.table k)) [
                | inl n ↦ n
                | inr (c, found) ↦ absurd (lacks.absent (t.named k c found))
              ] in
            get-loaded-none ended.shared.table ended.shared.cells k nobody
            ∙ sym (spec ∙ ap (raised [] k) lacks.silent ∙ get-empty k)
        | inr (n, sums) ↦
            let holds : All (Holds ended.shared.table) (added_all xs) =
              subst (λ calls. All (Holds ended.shared.table) calls) finished t.holds in
            let (c, found) = Holds-In ended.shared.table xs k holds sums.there in
            let landed : total (landing k) ended.calls ≡ n =
              ap (total (landing k)) finished ∙ sums.summed in
            let tallies = t.tallies k in
            let value : cell_at ended.shared.cells c ≡ n % u64_mod =
              sym (counted-some ended.shared k c found) ∙ tallies ∙ ap (λ m. m % u64_mod) landed in
            get-loaded-some ended.shared.table ended.shared.cells k c found
            ∙ ap some value
            ∙ sym (spec ∙ ap (raised [] k) sums.told ∙ raised-empty k n)
      ]

  -- Threads that add to one table at the same time, empty at first, lose nothing: whichever of them
  -- looks a label up, makes its counter or adds to one in between the others, once each has had three
  -- turns at least, a snapshot of the table is that of a table to which they have added one after the
  -- other.
  pub run-snapshot : IsFair xs schedule → snapshot read_back ≡ snapshot (add_all [] xs)
  run-snapshot fair =
      let distinct = (run-IsTallied xs schedule).distinct in
      snapshot-SameCounters read_back (add_all [] xs)
        (subst Distinct (sym (keys-loaded ended.shared.table ended.shared.cells)) distinct)
        (add_all-Distinct [] xs tt) (λ k. get-read_back k fair)
