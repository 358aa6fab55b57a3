-- ===== src/Budget/Display.antt =====
-- src/budget.rs: the text of a rejection.
use patchbay.Common.{ℕ, ◌^◌, ◌<◌, ◌≡◌, refl, Option, none, some, ◌++◌}
use patchbay.Common.Texts.{Text, codes, strip_prefix}
use patchbay.Metrics.{decimal}
use patchbay.Metrics.Digits.{read_pair, read_pair-decimal}
use patchbay.Budget.{BudgetExceeded}

used_of_limit : ℕ → ℕ → Text
used_of_limit used limit = decimal used ++ (codes "/" ++ (decimal limit ++ codes ")"))

-- `BudgetExceeded::fmt`
unfoldable pub budget_text : BudgetExceeded → Text
unfolding used_of_limit
budget_text (BudgetExceeded.prompt_tokens used limit) =
    codes "prompt token budget exceeded (" ++ used_of_limit used limit
budget_text (BudgetExceeded.completion_tokens used limit) =
    codes "completion token budget exceeded (" ++ used_of_limit used limit
budget_text (BudgetExceeded.total_tokens used limit) =
    codes "total token budget exceeded (" ++ used_of_limit used limit

exceeded : (ℕ → ℕ → BudgetExceeded) → Option (ℕ × ℕ) → Option BudgetExceeded
exceeded kind none = none
exceeded kind (some (used, limit)) = some (kind used limit)

pub read_budget : Text → Option BudgetExceeded
read_budget t = elim (strip_prefix (codes "prompt token budget exceeded (") t) [
  | some r ↦ exceeded BudgetExceeded.prompt_tokens (read_pair (codes ")") r)
  | none ↦ elim (strip_prefix (codes "completion token budget exceeded (") t) [
    | some r ↦ exceeded BudgetExceeded.completion_tokens (read_pair (codes ")") r)
    | none ↦ elim (strip_prefix (codes "total token budget exceeded (") t) [
      | some r ↦ exceeded BudgetExceeded.total_tokens (read_pair (codes ")") r)
      | none ↦ none
    ]
  ]
]

-- The numbers of a rejection have at most 20 digits, as those of a `u64`.
abbrev pub Fits : BudgetExceeded → Type 0
Fits (BudgetExceeded.prompt_tokens used limit) = (used < 10 ^ 20) × (limit < 10 ^ 20)
Fits (BudgetExceeded.completion_tokens used limit) = (used < 10 ^ 20) × (limit < 10 ^ 20)
Fits (BudgetExceeded.total_tokens used limit) = (used < 10 ^ 20) × (limit < 10 ^ 20)

-- The text of a rejection by the budget tells its kind, the tokens used and the limit: they are read
-- back from it.
pub read_budget-budget_text : (e : BudgetExceeded) → Fits e → read_budget (budget_text e) ≡ some e
unfolding read_budget budget_text used_of_limit exceeded strip_prefix
read_budget-budget_text (BudgetExceeded.prompt_tokens used limit) small =
    let pair = read_pair-decimal used limit (codes ")") small.0 small.1 refl in rw pair refl
read_budget-budget_text (BudgetExceeded.completion_tokens used limit) small =
    let pair = read_pair-decimal used limit (codes ")") small.0 small.1 refl in rw pair refl
read_budget-budget_text (BudgetExceeded.total_tokens used limit) small =
    let pair = read_pair-decimal used limit (codes ")") small.0 small.1 refl in rw pair refl
