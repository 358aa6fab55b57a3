-- ===== src/Metrics/Atomic/Tallied.antt =====
-- src/metrics.rs: no increment is lost.
use mathlib.Core.Path.{subst}
use patchbay.Common.{
  ℕ, ◌%◌, ◌≡◌, refl, sym, inl, inr, some, List, [], ◌∷◌, map, arith, get_elem?, set_at, All,
  All-set_at, All-get_elem?, In-All, In, Distinct,
}
use patchbay.Common.Texts.{Text}
use patchbay.Common.Maps.{get, keys}
use patchbay.Common.Threads.{Threads, total, total-set_at, run-keeps}
use patchbay.Upstream.{u64_mod}
use patchbay.Metrics.Interleaved.{Additions}
use patchbay.Metrics.Atomic.{Shared, Adding, locating, advance, run_adding, counted}
use patchbay.Metrics.Atomic.Steps.{landing, IsSound, Holds, landing-advance, advance-counted}
use patchbay.Metrics.Atomic.Sound.{
  advance-IsSound, advance-Holds, Holds-kept, label, advance-label, advance-named, advance-Distinct,
}

-- The labels of the table are among those of the calls, and each has what the calls that are at their
-- end have added under it.
pub record IsTallied (labels : List Text) (s : Threads Shared Adding) : Type 0 where
  sound : IsSound s.shared
  pub distinct : Distinct (keys s.shared.table)
  asked : All (λ a. In (label a) labels) s.calls
  pub named : (k : Text) (c : ℕ) → get s.shared.table k ≡ some c → In k labels
  pub holds : All (Holds s.shared.table) s.calls
  pub tallies : (k : Text) → counted s.shared k ≡ total (landing k) s.calls % u64_mod

advance-IsTallied :
    (labels : List Text) (s : Threads Shared Adding) (i : ℕ) (a : Adding)
    → get_elem? s.calls i ≡ some a
    → IsTallied labels s
    → IsTallied labels (record {
      shared = (advance s.shared a).0;
      calls = set_at s.calls i (advance s.shared a).1;
    })
advance-IsTallied labels s i a found t =
    let m' = (advance s.shared a).0 in
    let a' = (advance s.shared a).1 in
    let mine = All-get_elem? (Holds s.shared.table) s.calls i t.holds found in
    let given = All-get_elem? (λ b. In (label b) labels) s.calls i t.asked found in
    record {
      sound = advance-IsSound s.shared a t.sound;
      distinct = advance-Distinct s.shared a t.distinct;
      asked =
          All-set_at (λ b. In (label b) labels) s.calls i a' t.asked
            (subst (λ k. In k labels) (sym (advance-label s.shared a)) given);
      named = λ k c there. elim (advance-named s.shared a k c there) [
        | inl new ↦ subst (λ l. In l labels) new given
        | inr (d, old) ↦ t.named k d old
      ];
      holds =
          All-set_at (Holds m'.table) s.calls i a' (Holds-kept s.shared a s.calls t.holds)
            (advance-Holds s.shared a mine);
      tallies = λ k.
          let before = t.tallies k in
          let grown = advance-counted s.shared a k t.sound mine (omega (arith, before)) in
          let lands = landing-advance s.shared a k in
          let sums = total-set_at (landing k) s.calls i a a' found in
          omega (arith, before, grown, lands, sums);
    }

-- Calls that have not begun.
abbrev pub locating_all : Additions → List Adding
locating_all [] = []
locating_all ((key, n) ∷ xs) = locating key n ∷ locating_all xs

abbrev pub empty_table : Shared
empty_table = record { table = []; cells = [] }

landing-locating_all : (k : Text) (xs : Additions) → total (landing k) (locating_all xs) ≡ 0
unfolding total
landing-locating_all k [] = refl
landing-locating_all k ((key, n) ∷ xs) = omega (arith, landing-locating_all k xs)

locating_all-Holds : (xs : Additions) → All (Holds []) (locating_all xs)
locating_all-Holds [] = tt
locating_all-Holds ((key, n) ∷ xs) = (tt, locating_all-Holds xs)

-- The labels of additions.
abbrev pub labels_of : Additions → List Text
labels_of xs = map (λ x. x.0) xs

locating_all-In :
    (labels : List Text) (xs : Additions)
    → All (λ l. In l labels) (labels_of xs)
    → All (λ a. In (label a) labels) (locating_all xs)
locating_all-In labels [] h = tt
locating_all-In labels ((key, n) ∷ xs) h = (h.0, locating_all-In labels xs h.1)

begin-IsTallied :
    (xs : Additions)
    → IsTallied (labels_of xs) (record { shared = empty_table; calls = locating_all xs })
unfolding counted get
begin-IsTallied xs = record {
  sound = record { inside = λ k c found. cc; apart = λ k l c first second. cc };
  distinct = tt;
  asked =
      locating_all-In (labels_of xs) xs
        (In-All (λ l. In l (labels_of xs)) (labels_of xs) (λ l m. m));
  named = λ k c found. cc;
  holds = locating_all-Holds xs;
  tallies = λ k. let begins = landing-locating_all k xs in omega (arith, begins);
}

pub run-IsTallied :
    (xs : Additions) (schedule : List ℕ)
    → IsTallied
        (labels_of xs)
        (run_adding (record { shared = empty_table; calls = locating_all xs }) schedule)
run-IsTallied xs schedule =
    run-keeps advance (IsTallied (labels_of xs)) (advance-IsTallied (labels_of xs))
      (record { shared = empty_table; calls = locating_all xs }) schedule (begin-IsTallied xs)
