-- ===== src/Bits/Step.antt =====
-- The native `bit_and` and `bit_or` by their lowest digit.
use Prim.Native.Nat.{digits, bit_and-bitwise, bit_or-bitwise}
use guypervisor.Base.{
  ℕ, zero, suc, ◌+◌, ◌*◌, ◌/◌, ◌%◌, ◌≤◌, min, max, bit_and, bit_or, ◌≡◌, refl, arith, ◌∙◌,
}

-- Fuel that is as much as the first number is enough, however much it is.
module _ (base : ℕ → ℕ) (join : ℕ → ℕ → ℕ) where
  enough : (x y k l : ℕ) → (x ≤ k) × (x ≤ l) → digits base join k x y ≡ digits base join l x y
  enough zero y zero zero h = refl
  enough zero y zero (suc l) h = refl
  enough zero y (suc k) zero h = refl
  enough zero y (suc k) (suc l) h = refl
  enough (suc x) y (suc k) (suc l) h = rw (enough (suc x / 2) (y / 2) k l (omega arith)) refl
  enough (suc x) y zero l h = absurd (omega arith)
  enough (suc x) y (suc k) zero h = absurd (omega arith)

pub bit_and_step : (x y : ℕ) → bit_and x y ≡ bit_and (x / 2) (y / 2) * 2 + min (x % 2) (y % 2)
bit_and_step zero y = omega (arith, bit_and-bitwise 0 (y / 2), bit_and-bitwise 0 y)
bit_and_step (suc x) y =
    let halves = enough (λ _. 0) min (suc x / 2) (y / 2) x (suc x / 2) (omega arith) in
    omega (arith, halves, bit_and-bitwise (suc x / 2) (y / 2), bit_and-bitwise (suc x) y)

pub bit_or_step : (x y : ℕ) → bit_or x y ≡ bit_or (x / 2) (y / 2) * 2 + max (x % 2) (y % 2)
bit_or_step zero y = omega (arith, bit_or-bitwise 0 (y / 2), bit_or-bitwise 0 y)
bit_or_step (suc x) y =
    let halves = enough (λ r. r) max (suc x / 2) (y / 2) x (suc x / 2) (omega arith) in
    omega (arith, halves, bit_or-bitwise (suc x / 2) (y / 2), bit_or-bitwise (suc x) y)

digits-right_zero : (k x : ℕ) → digits (λ _. 0) min k x 0 ≡ 0
digits-right_zero zero zero = refl
digits-right_zero zero (suc x) = refl
digits-right_zero (suc k) zero = refl
digits-right_zero (suc k) (suc x) = omega (arith, digits-right_zero k (suc x / 2))

pub bit_and-right_zero : (x : ℕ) → bit_and x 0 ≡ 0
bit_and-right_zero x = bit_and-bitwise x 0 ∙ digits-right_zero x x
