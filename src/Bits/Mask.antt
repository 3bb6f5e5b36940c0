-- ===== src/Bits/Mask.antt =====
-- Masks of low and of high bits as arithmetic, at every width.
use native.Mathlib.Nat.{
  pow-suc, one-le-pow, div-div-eq-div-mul, div-add-mod, mod-eq_of_lt, mod-lt, add-mul-mod_self_left,
  mul_comm, mul-sub, div-lt_iff_lt-mul,
}
use guypervisor.Base.{
  ℕ, zero, suc, ◌+◌, ◌-◌, ◌*◌, ◌/◌, ◌%◌, ◌^◌, ◌<◌, bit_and, ◌≡◌, sym, ap, ◌∙◌, arith,
}
use guypervisor.Bits.Step.{bit_and_step, bit_and-right_zero}

pub mod_halved : (p a : ℕ) → 0 < p → a % (2 * p) ≡ a / 2 % p * 2 + a % 2
mod_halved p a h =
    let split : a ≡ (a / 2 % p * 2 + a % 2) + 2 * p * (a / 2 / p) =
      omega (arith, div-add-mod (a / 2) p) in
    ap (λ t. t % (2 * p)) split
    ∙ add-mul-mod_self_left (a / 2 % p * 2 + a % 2) (2 * p) (a / 2 / p)
    ∙ mod-eq_of_lt (omega (arith, mod-lt (a / 2) h))

pub two-pow-pos : (k : ℕ) → 0 < 2 ^ k
two-pow-pos k = one-le-pow k 2 (omega arith)

pub two-pow-suc : (k : ℕ) → 2 ^ suc k ≡ 2 * 2 ^ k
two-pow-suc k = pow-suc 2 k ∙ mul_comm (2 ^ k) 2

-- A mask of `k` low bits is the remainder by `2 ^ k`.
pub bit_and-low : (k a : ℕ) → bit_and a (2 ^ k - 1) ≡ a % 2 ^ k
bit_and-low zero a = omega (arith, bit_and-right_zero a)
bit_and-low (suc k) a = rw (two-pow-suc k) (
    let half : (2 * 2 ^ k - 1) / 2 ≡ 2 ^ k - 1 = omega (arith, two-pow-pos k) in
    bit_and_step a (2 * 2 ^ k - 1)
    ∙ rw half
        (omega (arith, two-pow-pos k, bit_and-low k (a / 2), mod_halved (2 ^ k) a (two-pow-pos k))))

pub div-two-pow : (k a : ℕ) → a / 2 / 2 ^ k ≡ a / 2 ^ suc k
div-two-pow k a = rw (two-pow-suc k) (div-div-eq-div-mul a 2 (2 ^ k))

-- A mask of the bits from `k` on, of which the number `m` is shifted there.
pub bit_and-shifted : (k m a : ℕ) → bit_and a (m * 2 ^ k) ≡ bit_and (a / 2 ^ k) m * 2 ^ k
bit_and-shifted zero m a =
    let mask : m * 2 ^ 0 ≡ m = omega arith in
    let whole : a / 2 ^ 0 ≡ a = omega arith in rw (mask, whole) (omega arith)
bit_and-shifted (suc k) m a =
    let half : m * 2 ^ suc k / 2 ≡ m * 2 ^ k =
      omega (arith, ap (λ (t : ℕ). m * t) (two-pow-suc k)) in
    let even : m * 2 ^ suc k % 2 ≡ 0 = omega (arith, ap (λ (t : ℕ). m * t) (two-pow-suc k)) in
    bit_and_step a (m * 2 ^ suc k)
    ∙ rw (half, even, ← div-two-pow k a)
        (omega (
          arith,
          bit_and-shifted k m (a / 2),
          ap (λ (t : ℕ). bit_and (a / 2 / 2 ^ k) m * t) (two-pow-suc k),
        ))

-- The mask that clears the low `k` bits of a word of `k + j` bits, `~(2 ^ k - 1)`.
pub bit_and-clear :
    (k j a : ℕ) → a < 2 ^ j * 2 ^ k → bit_and a (2 ^ j * 2 ^ k - 2 ^ k) ≡ a - a % 2 ^ k
bit_and-clear k j a h =
    let mask : 2 ^ j * 2 ^ k - 2 ^ k ≡ (2 ^ j - 1) * 2 ^ k =
      sym (mul_comm (2 ^ j - 1) (2 ^ k) ∙ rw mul-sub (omega arith)) in
    let fits : a / 2 ^ k < 2 ^ j = (div-lt_iff_lt-mul (two-pow-pos k)).1 h in
    rw mask (
      bit_and-shifted k (2 ^ j - 1) a
      ∙ rw (bit_and-low j (a / 2 ^ k), mod-eq_of_lt fits) (omega (arith, div-add-mod a (2 ^ k))))
