-- ===== src/Bits/Slice.antt =====
-- The bits of a field of a word, and the join of fields that do not overlap.
use guypervisor.Base.{
  ℕ, zero, suc, ◌+◌, ◌*◌, ◌/◌, ◌%◌, ◌^◌, ◌≤◌, ◌<◌, bit_or, ◌≡◌, refl, ap, ◌∙◌, arith,
}
use guypervisor.Bits.Step.{bit_or_step}
use guypervisor.Bits.Digit.{digit}
use guypervisor.Bits.Mask.{mod_halved, two-pow-pos, two-pow-suc, div-two-pow}

pub digit-shift : (k i x : ℕ) → digit i (x / 2 ^ k) ≡ digit (k + i) x
unfolding digit
digit-shift zero i x =
    let whole : x / 2 ^ 0 ≡ x = omega arith in
    let same : 0 + i ≡ i = omega arith in rw (whole, same)
digit-shift (suc k) i x =
    let next : suc k + i ≡ suc (k + i) = omega arith in
    rw (next, ← div-two-pow k x) (digit-shift k i (x / 2))

pub digit-low : (k i x : ℕ) → i < k → digit i (x % 2 ^ k) ≡ digit i x
unfolding digit
digit-low zero i x h = elim h [ ]
digit-low (suc k) zero x h =
    rw (two-pow-suc k) (omega (arith, mod_halved (2 ^ k) x (two-pow-pos k)))
digit-low (suc k) (suc i) x h =
    let half : x % (2 * 2 ^ k) / 2 ≡ x / 2 % 2 ^ k =
      omega (arith, mod_halved (2 ^ k) x (two-pow-pos k)) in
    rw (two-pow-suc k) (rw half (digit-low k i (x / 2) (omega arith)))

bit_or-right_zero : (x k : ℕ) → x ≤ k → bit_or x 0 ≡ x
bit_or-right_zero zero k fits = refl
bit_or-right_zero (suc x) (suc k) fits =
    let halves : bit_or (suc x / 2) 0 ≡ suc x / 2 = bit_or-right_zero (suc x / 2) k (omega arith) in
    omega (arith, halves, bit_or_step (suc x) 0)
bit_or-right_zero (suc x) zero fits = absurd (omega arith)

-- A field from bit `k` on and one below it.
pub bit_or-disjoint : (k q r : ℕ) → r < 2 ^ k → bit_or (q * 2 ^ k) r ≡ q * 2 ^ k + r
bit_or-disjoint zero q r h =
    let gone : r ≡ 0 = omega arith in
    rw gone (bit_or-right_zero (q * 2 ^ 0) (q * 2 ^ 0) (omega arith) ∙ omega arith)
bit_or-disjoint (suc k) q r h =
    let twice : q * 2 ^ suc k ≡ 2 * (q * 2 ^ k) =
      omega (arith, ap (λ (t : ℕ). q * t) (two-pow-suc k)) in
    let half : 2 * (q * 2 ^ k) / 2 ≡ q * 2 ^ k = omega arith in
    rw twice (
      bit_or_step (2 * (q * 2 ^ k)) r
      ∙ rw half (omega (arith, bit_or-disjoint k q (r / 2) (omega (arith, two-pow-suc k)))))

bit_or_comm_fuel : (n a b : ℕ) → a ≤ n → b ≤ n → bit_or a b ≡ bit_or b a
bit_or_comm_fuel zero a b h k =
    let a0 : a ≡ 0 = omega arith in let b0 : b ≡ 0 = omega arith in rw (a0, b0)
bit_or_comm_fuel (suc n) a b h k = omega (
  arith,
  bit_or_step a b,
  bit_or_step b a,
  bit_or_comm_fuel n (a / 2) (b / 2) (omega arith) (omega arith),
)

pub bit_or_comm : (a b : ℕ) → bit_or a b ≡ bit_or b a
bit_or_comm a b = bit_or_comm_fuel (a + b) a b (omega arith) (omega arith)
