-- ===== src/Common/Order.antt =====
-- What `f64` gives the program: constants, arithmetic, comparison.
use Prim.Native.Nat.{ℕ, Ordering}
use mathlib.Core.Path.{◌≡◌}
use mathlib.Core.Logic.{◌≢◌}
use mathlib.Core.Bool.{Bool}

pub record Float64 : Type 1 where
  pub F : Type 0
  pub of_ℕ : ℕ → F
  pub add : F → F → F
  pub sub : F → F → F
  pub mul : F → F → F
  pub lt : F → F → Bool
  pub le : F → F → Bool
  pub is_finite : F → Bool
  pub total_cmp : F → F → Ordering

-- `f64::total_cmp` is documented to be a total order.
pub record IsTotalOrder (x : Float64) : Type 0 where
  pub refl_eq : (a : x.F) → x.total_cmp a a ≡ Ordering.eq
  pub flip : (a b : x.F) → x.total_cmp a b ≡ Ordering.gt → x.total_cmp b a ≡ Ordering.lt
  pub trans :
      (a b c : x.F)
      → x.total_cmp a b ≢ Ordering.gt
      → x.total_cmp b c ≢ Ordering.gt
      → x.total_cmp a c ≢ Ordering.gt
