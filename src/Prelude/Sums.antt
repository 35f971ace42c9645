-- ===== src/Prelude/Sums.antt =====
-- Sums over the numbers below a bound.
use Prim.Native.Nat.{ℕ, zero, suc, ◌+◌, ◌*◌, ◌≤◌, ◌<◌}
use mathlib.Core.Path.{◌≡◌, refl}
use mathlib.Core.Logic.{◌≢◌}
use native.Mathlib.Omega.{arith}
use native.Mathlib.Decide.{ℕ_discrete}

unfoldable pub sum_below : ℕ → (ℕ → ℕ) → ℕ
sum_below zero g = 0
sum_below (suc n) g = sum_below n g + g n

pub sum_below_same :
    (n : ℕ) (g g' : ℕ → ℕ) → ((j : ℕ) → j < n → g' j ≡ g j) → sum_below n g' ≡ sum_below n g
unfolding sum_below
sum_below_same zero g g' h = refl
sum_below_same (suc n) g g' h =
    omega (arith, h n (omega arith), sum_below_same n g g' (λ j lt. h j (omega arith)))

-- A change of one summand.
pub sum_below_change :
    (n i : ℕ) (g g' : ℕ → ℕ)
    → i < n
    → ((j : ℕ) → j < n → j ≢ i → g' j ≡ g j)
    → sum_below n g' + g i ≡ sum_below n g + g' i
unfolding sum_below
sum_below_change zero i g g' h same = absurd (omega arith)
sum_below_change (suc n) i g g' h same = elim (ℕ_discrete i n) [
  | yes e ↦ rw e (
      omega (
        arith,
        sum_below_same n g g' (λ j lt. same j (omega arith) (λ q. absurd (omega (arith, e, q)))),
      ))
  | no ne ↦ omega (
    arith,
    same n (omega arith) (λ q. ne (omega (arith, q))),
    sum_below_change n i g g' (omega arith) (λ j lt. same j (omega arith)),
  )
]

pub sum_below-le : (n b : ℕ) (g : ℕ → ℕ) → ((j : ℕ) → g j ≤ b) → sum_below n g ≤ n * b
unfolding sum_below
sum_below-le zero b g h = omega arith
sum_below-le (suc n) b g h = omega (arith, h n, sum_below-le n b g h)

pub summand-le : (n i : ℕ) (g : ℕ → ℕ) → i < n → g i ≤ sum_below n g
unfolding sum_below
summand-le zero i g h = absurd (omega arith)
summand-le (suc n) i g h = elim (ℕ_discrete i n) [
  | yes e ↦ rw e (omega arith)
  | no ne ↦ omega (arith, summand-le n i g (omega arith))
]
