-- ===== src/Bits/Digit.antt =====
-- Single bits. `digit i x` is bit `i` of `x`, as the number 0 or 1.
use guypervisor.Base.{ℕ, zero, suc, ◌/◌, ◌%◌, ◌^◌, ◌≤◌, ◌<◌, min, max, bit_and, bit_or, ◌≡◌, arith}
use native.Mathlib.Nat.{pow-suc}
use guypervisor.Bits.Step.{bit_and_step, bit_or_step}

unfoldable pub digit : ℕ → ℕ → ℕ
digit zero x = x % 2
digit (suc i) x = digit i (x / 2)

pub digit-bit_and : (i a b : ℕ) → digit i (bit_and a b) ≡ min (digit i a) (digit i b)
unfolding digit
digit-bit_and zero a b = omega (arith, bit_and_step a b)
digit-bit_and (suc i) a b =
    let half : bit_and a b / 2 ≡ bit_and (a / 2) (b / 2) = omega (arith, bit_and_step a b) in
    rw half (digit-bit_and i (a / 2) (b / 2))

pub digit-bit_or : (i a b : ℕ) → digit i (bit_or a b) ≡ max (digit i a) (digit i b)
unfolding digit
digit-bit_or zero a b = omega (arith, bit_or_step a b)
digit-bit_or (suc i) a b =
    let half : bit_or a b / 2 ≡ bit_or (a / 2) (b / 2) = omega (arith, bit_or_step a b) in
    rw half (digit-bit_or i (a / 2) (b / 2))

pub digit-le-one : (i a : ℕ) → digit i a ≤ 1
unfolding digit
digit-le-one zero a = omega arith
digit-le-one (suc i) a = digit-le-one i (a / 2)

-- A number is 0 when all its bits are, up to a bound on their number.
pub eq-zero_of_digits : (n a : ℕ) → a < 2 ^ n → ((i : ℕ) → digit i a ≡ 0) → a ≡ 0
unfolding digit
eq-zero_of_digits zero a h z = omega arith
eq-zero_of_digits (suc n) a h z =
    omega (arith, z 0, eq-zero_of_digits n (a / 2) (omega (arith, pow-suc 2 n)) (λ i. z (suc i)))
