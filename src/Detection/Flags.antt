-- ===== src/Detection/Flags.antt =====
-- How `IsCPUIdSupported` tests the flags (Guypervisor/virtualization_helpers.asm).
use guypervisor.Base.{ℕ, ◌*◌, ◌/◌, ◌%◌, ◌^◌, bit_and, bit_or, ◌≡◌, ◌↔◌, refl, true, ◌∷◌, arith}
use guypervisor.Bits.Mask.{bit_and-low, bit_and-shifted}
use guypervisor.Machine.{Platform, World, read_eflags, write_eflags}
use guypervisor.Machine.Returns.{Returns, returns}
use guypervisor.Detection.{is_cpuid_supported}

pub bit_and-single : (k x : ℕ) → bit_and x (1 * 2 ^ k) ≡ x / 2 ^ k % 2 * 2 ^ k
bit_and-single k x = rw (bit_and-shifted k 1 x) (rw (bit_and-low 1 (x / 2 ^ k)) refl)

-- For the mask of bit 21, `IsCPUIdSupported` writes the flags with the mask, reads them, puts back what it
-- read first, and answers yes exactly where the flags that it read last have bit 21 set.
pub is_cpuid_supported-outcome :
    (p : Platform) (w : World)
    → let t = read_eflags ∷ w.trace in
      let flags = p.datum t read_eflags in
      let u = write_eflags (bit_or flags (2 ^ 21)) ∷ read_eflags ∷ t in
      Returns
        (λ answer w'.
          ((answer ≡ true) ↔ (p.datum u read_eflags / 2 ^ 21 % 2 ≡ 1))
          × (w'.trace ≡ write_eflags (p.datum w.trace read_eflags) ∷ read_eflags ∷ u)
          × (w'.memory ≡ w.memory))
        (is_cpuid_supported p (2 ^ 21) w)
unfolding is_cpuid_supported
is_cpuid_supported-outcome p w =
    let t = read_eflags ∷ w.trace in
    let u = write_eflags (bit_or (p.datum t read_eflags) (2 ^ 21)) ∷ read_eflags ∷ t in
    returns (ground (arith, bit_and-single 21 (p.datum u read_eflags)), refl, refl)
