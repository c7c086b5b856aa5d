-- ===== src/Base/Sums.antt =====
-- Sums over the first entries of a table.
use Prim.Native.Nat.{ℕ, zero, suc, ◌+◌, ◌≤◌, ◌<◌}
use mathlib.Core.Path.{◌≡◌, refl}
use mathlib.Core.Logic.{inl, inr}
use native.Mathlib.Omega.{arith}
use xern.Base.Tests.{Bool-cases, ◌==◌}
use xern.Base.Lists.{update}

unfoldable pub sum_below : ℕ → (ℕ → ℕ) → ℕ
sum_below zero f = 0
sum_below (suc n) f = sum_below n f + f n

pub sum_below-alike :
    (n : ℕ) (f g : ℕ → ℕ) → ((i : ℕ) → i < n → g i ≡ f i) → sum_below n g ≡ sum_below n f
unfolding sum_below
sum_below-alike zero f g same = refl
sum_below-alike (suc n) f g same =
    omega (arith, sum_below-alike n f g (λ i h. same i (omega arith)), same n (omega arith))

sum_below-outside :
    (n : ℕ) (f : ℕ → ℕ) (p v : ℕ) → n ≤ p → sum_below n (update f p v) ≡ sum_below n f
sum_below-outside n f p v h = sum_below-alike n f (update f p v) (λ i low. ground arith)

-- What a write at `p` does to the sum.
pub sum_below-update :
    (n : ℕ) (f : ℕ → ℕ) (p v : ℕ) → p < n → sum_below n (update f p v) + f p ≡ sum_below n f + v
unfolding sum_below
sum_below-update zero f p v h = absurd (omega arith)
sum_below-update (suc n) f p v h = elim (Bool-cases (n == p)) [
  | inl here ↦ ground (arith, here, sum_below-outside n f p v)
  | inr there ↦ ground (arith, there, sum_below-update n f p v)
]

-- An entry is at most the sum.
pub le-sum_below : (n : ℕ) (f : ℕ → ℕ) (p : ℕ) → p < n → f p ≤ sum_below n f
unfolding sum_below
le-sum_below zero f p h = absurd (omega arith)
le-sum_below (suc n) f p h = elim (Bool-cases (n == p)) [
  | inl here ↦ ground (arith, here)
  | inr there ↦ ground (arith, there, le-sum_below n f p)
]
