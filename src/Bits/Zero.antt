-- ===== src/Bits/Zero.antt =====
-- When `|` is 0, as in a test of joined statuses.
use guypervisor.Base.{ℕ, zero, suc, ◌+◌, ◌/◌, ◌≤◌, bit_or, ◌≡◌, ◌↔◌, arith}
use guypervisor.Bits.Step.{bit_or_step}

both_zero : (n a b : ℕ) → a + b ≤ n → bit_or a b ≡ 0 → (a ≡ 0) × (b ≡ 0)
both_zero zero a b h e = omega arith
both_zero (suc n) zero zero h e = omega arith
both_zero (suc n) a b h e =
    let half : bit_or (a / 2) (b / 2) ≡ 0 = omega (arith, bit_or_step a b) in
    omega (arith, bit_or_step a b, both_zero n (a / 2) (b / 2) (omega arith) half)

pub bit_or-zero_iff : (a b : ℕ) → (bit_or a b ≡ 0) ↔ ((a ≡ 0) × (b ≡ 0))
bit_or-zero_iff a b = (both_zero (a + b) a b (omega arith), λ (p, q). rw (p, q))
