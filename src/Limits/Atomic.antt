-- ===== src/Limits/Atomic.antt =====
-- src/limits.rs: `TpmCounter::add` when several threads run it on one counter. An access of an atomic
-- is a step, and the steps of the threads come in any order; those of a thread are in the order in
-- which they are written, which `Relaxed` promises for a single atomic only.
pub mod Counted
pub mod Lost
use patchbay.Common.{
  ℕ, ◌+◌, ◌-◌, ◌%◌, ◌≡◌, refl, inl, inr, Bool, true, false, Option, none, some, List, [], ◌∷◌,
  arith, leb, get_elem?, set_at, Bool-cases, if◌then◌else◌,
}
use patchbay.Common.Threads.{Threads, turn, run}
use patchbay.Upstream.{u64_mod}
use patchbay.Limits.{TpmCounter, add}

-- Where a call stands: before it loads `window_start`, before either store of a reset, before the
-- `fetch_add`, or at its end, with the total that it returns. The first number is the tokens.
pub data Adding : Type 0 where
  entering : ℕ → ℕ → Adding
  resetting : ℕ → ℕ → Adding
  storing : ℕ → Adding
  bumping : ℕ → Adding
  returned : ℕ → ℕ → Adding

unfoldable pub advance : TpmCounter → Adding → TpmCounter × Adding
advance c (entering tokens now_secs) =
    (c, if leb 60 (now_secs - c.window_start) then resetting tokens now_secs else bumping tokens)
advance c (resetting tokens now_secs) = (record c { window_start = now_secs }, storing tokens)
advance c (storing tokens) = (record c { tokens = tokens }, returned tokens tokens)
advance c (bumping tokens) =
    let total = (c.tokens + tokens) % u64_mod in
    (record c { tokens = total }, returned tokens total)
advance c (returned tokens total) = (c, returned tokens total)

-- The threads of a counter, before or after some turns.
abbrev pub run_adding : Threads TpmCounter Adding → List ℕ → Threads TpmCounter Adding
run_adding = run advance

-- A call that nothing comes in between does what `add` does.
pub run_alone :
    (c : TpmCounter) (tokens now_secs : ℕ)
    → run_adding (record { shared = c; calls = entering tokens now_secs ∷ [] }) (0 ∷ 0 ∷ 0 ∷ [])
      ≡ record {
        shared = (add c tokens now_secs).0;
        calls = returned tokens (add c tokens now_secs).1 ∷ [];
      }
unfolding run turn advance add
run_alone c tokens now_secs = elim (Bool-cases (leb 60 (now_secs - c.window_start))) [
  | inl elapsed ↦ rw elapsed refl
  | inr running ↦ rw running refl
]
