-- ===== src/Prelude/Sums.antt =====
-- Finite sums of numbers, and how they change with the summands.
use Prim.Native.Nat.{ℕ, zero, suc, ◌+◌, ◌*◌, ◌≤◌, ◌<◌}
use mathlib.Core.Path.{◌≡◌, refl}
use mathlib.Core.Logic.{◌≢◌, inl, inr}
use native.Mathlib.Omega.{arith}
use libcorkipset.Prelude.Tests.{eq-cases}

-- The sum of `f j` for `j < n`.
pub sum_below : ℕ → (ℕ → ℕ) → ℕ
sum_below zero f = 0
sum_below (suc n) f = sum_below n f + f n

pub sum_below-suc : (n : ℕ) (f : ℕ → ℕ) → sum_below (suc n) f ≡ sum_below n f + f n
unfolding sum_below
sum_below-suc n f = refl

-- The sum depends only on the summands below the bound.
pub sum_below-congr :
    (n : ℕ) (f g : ℕ → ℕ) → ((j : ℕ) → j < n → f j ≡ g j) → sum_below n f ≡ sum_below n g
unfolding sum_below
sum_below-congr zero f g h = refl
sum_below-congr (suc n) f g h =
    omega (arith, sum_below-congr n f g (λ j p. h j (omega arith)), h n (omega arith))

-- A change of one summand is a change of the sum.
pub sum_below-change :
    (n : ℕ) (f g : ℕ → ℕ) (i : ℕ)
    → i < n
    → ((j : ℕ) → i ≢ j → f j ≡ g j)
    → sum_below n f + g i ≡ sum_below n g + f i
unfolding sum_below
sum_below-change zero f g i h same = absurd (omega arith)
sum_below-change (suc n) f g i h same = elim (eq-cases i n) [
  | inl e ↦ rw e (omega (arith, sum_below-congr n f g (λ j p. same j (omega arith))))
  | inr ne ↦ omega (arith, sum_below-change n f g i (omega arith) same, same n ne)
]

-- A summand is at most the sum.
pub le-sum_below : (n : ℕ) (f : ℕ → ℕ) (i : ℕ) → i < n → f i ≤ sum_below n f
unfolding sum_below
le-sum_below zero f i h = absurd (omega arith)
le-sum_below (suc n) f i h = elim (eq-cases i n) [
  | inl e ↦ rw e (omega arith)
  | inr ne ↦ omega (arith, le-sum_below n f i (omega arith))
]

-- Summands of at most `b` add up to at most `b * n`.
pub sum_below-le : (n b : ℕ) (f : ℕ → ℕ) → ((j : ℕ) → f j ≤ b) → sum_below n f ≤ b * n
unfolding sum_below
sum_below-le zero b f h = omega arith
sum_below-le (suc n) b f h = grind (arith, sum_below-le n b f h, h n)
