-- ===== src/Tests/Threads.antt =====
-- Threads on one counter and on one table.
use patchbay.Common.{ℕ, zero, suc, ◌+◌, ◌%◌, ◌≡◌, List, [], ◌∷◌, arith}
use patchbay.Common.Texts.{codes}
use patchbay.Upstream.{u64_mod}
use patchbay.Limits.{TpmCounter, add}
use patchbay.Limits.Atomic
use patchbay.Limits.Atomic.{Adding}
use patchbay.Limits.Atomic.Lost.{IsLost, run-IsLost}
use patchbay.Limits.Atomic.Counted.{entering_all, landed, run-within}
use patchbay.Metrics.{snapshot}
use patchbay.Metrics.Interleaved.{Additions, add_all}
use patchbay.Metrics.Atomic.Finished.{IsFair}
use patchbay.Metrics.Atomic.Complete.{read_back, run-snapshot}

abbrev counter : TpmCounter
counter = record { window_start = 0; tokens = 9 }

-- The stores of the first call come around those of the second.
abbrev stores : List ℕ
stores = 0 ∷ 1 ∷ 1 ∷ 0 ∷ []

run-IsLost_example :
    IsLost 5 7 (
      Atomic.run_adding
        (record { shared = counter; calls = Adding.entering 5 60 ∷ Adding.entering 7 61 ∷ [] })
        (0 ∷ 1 ∷ stores))
    × (add (add counter 5 60).0 7 61
        ≡ (record { window_start = 60; tokens = (5 + 7) % u64_mod }, (5 + 7) % u64_mod))
run-IsLost_example =
    run-IsLost counter 5 7 60 61 stores (omega arith) (omega arith) (omega arith) (omega arith)
      (omega arith)

abbrev uses : List (ℕ × ℕ)
uses = (10, 5) ∷ (20, 7) ∷ []

abbrev turns_taken : List ℕ
turns_taken = 0 ∷ 1 ∷ 1 ∷ 0 ∷ []

run-within_example :
    (Atomic.run_adding (record { shared = counter; calls = entering_all uses }) turns_taken).shared
    ≡ record counter {
      tokens =
          (9
            + landed
                (Atomic.run_adding
                  (record { shared = counter; calls = entering_all uses })
                  turns_taken).calls)
          % u64_mod;
    }
run-within_example =
    run-within counter uses turns_taken (omega arith) (omega arith, (omega arith, tt))

abbrev twice : Additions
twice = (codes "a", 1) ∷ (codes "a", 2) ∷ []

-- Both miss the label before either makes its counter.
abbrev both_miss : List ℕ
both_miss = 0 ∷ 1 ∷ 0 ∷ 1 ∷ 1 ∷ 0 ∷ []

both_miss-IsFair : IsFair twice both_miss
both_miss-IsFair zero h = omega arith
both_miss-IsFair (suc zero) h = omega arith
both_miss-IsFair (suc (suc i)) h = absurd (omega (arith, h))

run-snapshot_example : snapshot (read_back twice both_miss) ≡ snapshot (add_all [] twice)
run-snapshot_example = run-snapshot twice both_miss both_miss-IsFair
