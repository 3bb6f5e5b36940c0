-- ===== src/Virtualization/Enter/Registers.antt =====
-- What `EnterVmxonMode` writes to the control registers and to the feature control register
-- (Guypervisor/virtualization.cpp).
use guypervisor.Base.{ℕ, ◌/◌, ◌%◌, ◌^◌, bit_and, ◌≡◌, refl, min, max, arith, ◌∷◌, bit_or}
use guypervisor.Bits.Digit.{digit, digit-bit_and, digit-bit_or}
use guypervisor.Machine.{
  Platform, World, Trace, read_cr0, read_cr4, write_cr0, write_cr4, read_msr, write_msr,
}
use guypervisor.Machine.Returns.{Returns, returns}
use guypervisor.Msr.{
  msr_number, ia32_feature_control, ia32_vmx_cr0_fixed0, ia32_vmx_cr0_fixed1, ia32_vmx_cr4_fixed0,
}
use guypervisor.Virtualization.Enter.{fix_control_registers, enable_feature_control}

-- The calls that adjust CR0, after a trace, and those that adjust CR4.
abbrev pub cr0_read : Trace → Trace
cr0_read t =
    read_msr (msr_number ia32_vmx_cr0_fixed1)
    ∷ read_msr (msr_number ia32_vmx_cr0_fixed0)
    ∷ read_cr0
    ∷ t

abbrev pub cr4_read : Trace → Trace
cr4_read t =
    read_msr (msr_number ia32_vmx_cr0_fixed1)
    ∷ read_msr (msr_number ia32_vmx_cr4_fixed0)
    ∷ read_cr4
    ∷ t

digit-fixed :
    (i x low high : ℕ)
    → digit i (bit_and (bit_or x low) high) ≡ min (max (digit i x) (digit i low)) (digit i high)
digit-fixed i x low high = omega (arith, digit-bit_and i (bit_or x low) high, digit-bit_or i x low)

-- The function writes CR0 once and then CR4 twice. Bit `i` of the first value is that of CR0 as it is
-- read, raised by the bit of IA32_VMX_CR0_FIXED0 and then lowered by that of IA32_VMX_CR0_FIXED1. Bit `i`
-- of the second is that of CR4, raised by the bit of IA32_VMX_CR4_FIXED0 and then lowered by that of
-- IA32_VMX_CR0_FIXED1 too. The third is the CR4 that is read before it with bit 13 set and all others kept.
pub fix_control_registers-digit :
    (p : Platform) (w : World) (i : ℕ)
    → let t = cr0_read w.trace in
      Returns
        (λ _ w'.
          (a : ℕ) × (b : ℕ) × (c : ℕ) × (w'.trace
            ≡ write_cr4 c ∷ read_cr4 ∷ write_cr4 b ∷ cr4_read (write_cr0 a ∷ t))
          × (digit i a
              ≡ min
                  (max
                    (digit i (p.datum w.trace read_cr0))
                    (digit i (p.datum (read_cr0 ∷ w.trace) (read_msr 0x486))))
                  (digit i (p.datum (read_msr 0x486 ∷ read_cr0 ∷ w.trace) (read_msr 0x487))))
          × (digit i b
              ≡ min
                  (max
                    (digit i (p.datum (write_cr0 a ∷ t) read_cr4))
                    (digit i (p.datum (read_cr4 ∷ write_cr0 a ∷ t) (read_msr 0x488))))
                  (digit i
                    (p.datum (read_msr 0x488 ∷ read_cr4 ∷ write_cr0 a ∷ t) (read_msr 0x487))))
          × (c / 2 ^ 13 % 2 ≡ 1)
          × (c % 2 ^ 13 ≡ p.datum (write_cr4 b ∷ cr4_read (write_cr0 a ∷ t)) read_cr4 % 2 ^ 13)
          × (c / 2 ^ 14 ≡ p.datum (write_cr4 b ∷ cr4_read (write_cr0 a ∷ t)) read_cr4 / 2 ^ 14))
        (fix_control_registers p w)
unfolding fix_control_registers msr_number
fix_control_registers-digit p w i =
    returns (
      _,
      _,
      _,
      refl,
      digit-fixed i _ _ _,
      digit-fixed i _ _ _,
      omega arith,
      omega arith,
      omega arith,
    )

-- The feature control register is read and written once: its bits 0 to 2 set, all others kept.
pub enable_feature_control-bits :
    (p : Platform) (w : World)
    → let old = p.datum w.trace (read_msr (msr_number ia32_feature_control)) in
      Returns
        (λ _ w'.
          (v : ℕ) × (w'.trace ≡ write_msr 0x3A v ∷ read_msr 0x3A ∷ w.trace)
          × (v % 8 ≡ 7)
          × (v / 8 ≡ old / 8))
        (enable_feature_control p w)
unfolding enable_feature_control msr_number
enable_feature_control-bits p w = returns (_, refl, omega arith, omega arith)
