-- ===== src/Virtualization/Enter/Controls.antt =====
-- What `ModifyControlValue` makes of the settings that a control register allows.
use guypervisor.Base.{
  ℕ, ◌+◌, ◌/◌, ◌^◌, ◌<◌, ◌≡◌, arith, bit_and, bit_or, max, min, ap, refl, ◌∷◌, ◌∙◌,
}
use guypervisor.Bits.Digit.{digit, digit-bit_and, digit-bit_or}
use guypervisor.Bits.Slice.{digit-shift, digit-low}
use guypervisor.Machine.{Platform, World, read_msr}
use guypervisor.Machine.Returns.{Returns, returns}
use guypervisor.Machine.Memory.{field}
use guypervisor.Msr.{Msr, msr_number}
use guypervisor.Virtualization.Enter.{modify_control_value}

-- The low word of the register has the bits that must be 1, the high word those that may be 1. Each of
-- the 32 control bits that `ModifyControlValue` returns is the requested bit where the high word allows
-- it, else 0, raised to 1 where the low word demands it; it calls nothing but the read of the register.
pub modify_control_value-digit :
    (p : Platform) (register : Msr) (requested : ℕ) (w : World) (i : ℕ)
    → i < 32
    → let value = p.datum w.trace (read_msr (msr_number register)) in
      Returns
        (λ result w'.
          (digit i result ≡ max (min (digit i requested) (digit (32 + i) value)) (digit i value))
          × (w'.memory ≡ w.memory)
          × (w'.trace ≡ read_msr (msr_number register) ∷ w.trace))
        (modify_control_value p register requested w)
unfolding modify_control_value
modify_control_value-digit p register requested w i h =
    let value : ℕ = p.datum w.trace (read_msr (msr_number register)) in
    let high : ℕ = field 32 32 value in
    let low : ℕ = field 0 32 value in
    let masked : ℕ = bit_and requested high in
    let whole : value / 2 ^ 0 ≡ value = omega arith in
    let low_bit : digit i low ≡ digit i value =
      digit-low 32 i (value / 2 ^ 0) h ∙ ap (digit i) whole in
    let high_bit : digit i high ≡ digit (32 + i) value =
      digit-low 32 i (value / 2 ^ 32) h ∙ digit-shift 32 i value in
    let bit_of : digit i (bit_or masked low) ≡ max (digit i masked) (digit i low) =
      digit-bit_or i masked low in
    returns (omega (arith, low_bit, high_bit, bit_of, digit-bit_and i requested high), refl, refl)
