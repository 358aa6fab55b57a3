-- ===== src/Limits/Atomic/Counted.antt =====
-- src/limits.rs: what threads on one counter count together.
use mathlib.Core.Path.{subst}
use patchbay.Common.{
  ℕ, ◌+◌, ◌-◌, ◌%◌, ◌<◌, ◌≤◌, ◌≡◌, refl, ap, ◌∙◌, false, some, List, [], ◌∷◌, arith, leb, get_elem?,
  set_at, All, All-set_at, All-get_elem?,
}
use patchbay.Upstream.{u64_mod}
use patchbay.Limits.{TpmCounter}
use patchbay.Limits.Windows.{AllWithin}
use patchbay.Common.Threads.{Threads, total, total-set_at, run-keeps}
use patchbay.Limits.Atomic.{
  Adding, entering, resetting, storing, bumping, returned, advance, run_adding,
}

-- The tokens of the calls that have returned.
abbrev landing : Adding → ℕ
landing (returned tokens total) = tokens
landing _ = 0

abbrev pub landed : List Adding → ℕ
landed = total landing

-- The counter has grown by no more than what has landed.
record IsBounded (tokens before : ℕ) (s : Threads TpmCounter Adding) : Type 0 where
  bound : s.shared.tokens + before ≤ tokens + landed s.calls

-- Calls that have not made an access yet, given by their times and tokens.
abbrev pub entering_all : List (ℕ × ℕ) → List Adding
entering_all [] = []
entering_all ((now, tokens) ∷ xs) = entering tokens now ∷ entering_all xs

landed-entering_all : (xs : List (ℕ × ℕ)) → landed (entering_all xs) ≡ 0
unfolding total
landed-entering_all [] = refl
landed-entering_all ((now, tokens) ∷ xs) = omega (arith, landed-entering_all xs)

-- A call that finds the window still running, or that has found it so.
abbrev pub IsSteady : ℕ → Adding → Type 0
IsSteady start (entering tokens now) = now < start + 60
IsSteady start (bumping tokens) = Unit
IsSteady start (returned tokens total) = Unit
IsSteady start _ = ⊥

-- What is known in a window that began at `start`.
record IsCounted (start tokens : ℕ) (s : Threads TpmCounter Adding) : Type 0 where
  steady : All (IsSteady start) s.calls
  start_kept : s.shared.window_start ≡ start
  total : s.shared.tokens ≡ (tokens + landed s.calls) % u64_mod

entering_all-IsSteady :
    (start : ℕ) (xs : List (ℕ × ℕ)) → AllWithin start xs → All (IsSteady start) (entering_all xs)
entering_all-IsSteady start [] within = tt
entering_all-IsSteady start ((now, tokens) ∷ xs) within =
    (within.0, entering_all-IsSteady start xs within.1)

record Keeps (c : TpmCounter) (a : Adding) : Type 0 where
  steady : IsSteady c.window_start (advance c a).1
  start_kept : (advance c a).0.window_start ≡ c.window_start
  small : (advance c a).0.tokens < u64_mod
  total :
      ((advance c a).0.tokens + landing a) % u64_mod
      ≡ (c.tokens + landing (advance c a).1) % u64_mod

advance-Keeps :
    (c : TpmCounter) (a : Adding) → c.tokens < u64_mod → IsSteady c.window_start a → Keeps c a
unfolding advance
advance-Keeps c (entering tokens now) few steady =
    let running : leb 60 (now - c.window_start) ≡ false = ground arith in
    record { steady = rw running tt; start_kept = refl; small = few; total = rw running refl }
advance-Keeps c (bumping tokens) few steady = record {
  steady = tt;
  start_kept = refl;
  small = omega arith;
  total = omega arith;
}
advance-Keeps c (returned tokens total) few steady = record {
  steady = tt;
  start_kept = refl;
  small = few;
  total = refl;
}
advance-Keeps c (resetting tokens now) few steady = absurd steady
advance-Keeps c (storing tokens) few steady = absurd steady

advance-IsCounted :
    (start tokens : ℕ) (s : Threads TpmCounter Adding) (i : ℕ) (a : Adding)
    → get_elem? s.calls i ≡ some a
    → IsCounted start tokens s
    → IsCounted start tokens (record {
      shared = (advance s.shared a).0;
      calls = set_at s.calls i (advance s.shared a).1;
    })
advance-IsCounted start tokens s i a found k =
    let steady = All-get_elem? (IsSteady start) s.calls i k.steady found in
    let before = k.total in
    let few : s.shared.tokens < u64_mod = omega (arith, before) in
    let next = advance-Keeps s.shared a few (rw k.start_kept steady) in
    let sums = total-set_at landing s.calls i a (advance s.shared a).1 found in
    let kept = next.total in
    let small = next.small in
    record {
      steady =
          All-set_at (IsSteady start) s.calls i (advance s.shared a).1 k.steady
            (subst (λ n. IsSteady n (advance s.shared a).1) k.start_kept next.steady);
      start_kept = next.start_kept ∙ k.start_kept;
      total = omega (arith, kept, before, small, sums);
    }

-- When every thread adds within the window, at a time less than a minute after its start, no token is
-- lost: however their accesses interleave, the window stays, and the counter, from a count below 2^64,
-- has what it had and what the calls that have returned have added, mod 2^64.
pub run-within :
    (c : TpmCounter) (xs : List (ℕ × ℕ)) (schedule : List ℕ)
    → c.tokens < u64_mod
    → AllWithin c.window_start xs
    → (run_adding (record { shared = c; calls = entering_all xs }) schedule).shared ≡ record c {
      tokens =
          (c.tokens
            + landed (run_adding (record { shared = c; calls = entering_all xs }) schedule).calls)
          % u64_mod;
    }
run-within c xs schedule small within =
    let begins = landed-entering_all xs in
    let s : Threads TpmCounter Adding = record { shared = c; calls = entering_all xs } in
    let k =
      run-keeps advance (IsCounted c.window_start c.tokens)
        (advance-IsCounted c.window_start c.tokens) s schedule
        (record {
          steady = entering_all-IsSteady c.window_start xs within;
          start_kept = refl;
          total = omega (arith, begins);
        }) in
    ap (λ start. record { window_start = start; tokens = (run_adding s schedule).shared.tokens })
      k.start_kept
    ∙ ap (λ n. record { window_start = c.window_start; tokens = n }) k.total
