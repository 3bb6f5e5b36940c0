-- ===== src/Driver/Started/Questions.antt =====
-- The three questions of `DriverEntry` to an equipped processor (Guypervisor/virtualization_detection.cpp,
-- Guypervisor/virtualization_helpers.asm).
use guypervisor.Base.{ℕ, ◌/◌, ◌%◌, ◌^◌, ◌≡◌, refl, true, bit_or, max, ◌∷◌, arith}
use guypervisor.Bits.Slice.{digit-shift}
use guypervisor.Detection.Flags.{bit_and-single}
use guypervisor.Bits.Digit.{digit, digit-bit_or, digit-le-one}
use guypervisor.Machine.{Platform, World, Trace, cpuid, read_eflags, write_eflags}
use guypervisor.Machine.Returns.{Returns, returns}
use guypervisor.Detection.{
  is_cpuid_supported, vendor_is_intel, supports_vtx_operation, rev_bit, ia32_cpu_vendor_name,
  ia32_cpu_version, copy_four, same_bytes,
}
use guypervisor.Driver.{has_cpuid_flag_mask}
use guypervisor.Driver.Equipped.{IsEquipped, IsKept}

module _ (p : Platform) (equipped : IsEquipped p) (w : World) where
  mask_set : (v : ℕ) → bit_or v (2 ^ 21) / 2 ^ 21 % 2 ≡ 1
  unfolding digit
  mask_set v =
      let shifted : bit_or v (2 ^ 21) / 2 ^ 21 % 2 ≡ digit 21 (bit_or v (2 ^ 21)) =
        digit-shift 21 0 (bit_or v (2 ^ 21)) in
      let joined : digit 21 (bit_or v (2 ^ 21)) ≡ max (digit 21 v) 1 = digit-bit_or 21 v (2 ^ 21) in
      omega (arith, shifted, joined, digit-le-one 21 v)

  pub is_cpuid_supported-yes :
      Returns
        (λ answer w'. (answer ≡ true) × IsKept p w w')
        (is_cpuid_supported p has_cpuid_flag_mask w)
  unfolding is_cpuid_supported
  is_cpuid_supported-yes =
      let t : Trace = read_eflags ∷ w.trace in
      let v : ℕ = p.datum t read_eflags in
      let u : Trace = write_eflags (bit_or v (2 ^ 21)) ∷ read_eflags ∷ t in
      let set : p.datum u read_eflags / 2 ^ 21 % 2 ≡ 1 = equipped.flag_sticks _ _ (mask_set v) in
      returns (
        ground (arith, bit_and-single 21 (p.datum u read_eflags)),
        record { device = refl; driver = refl; at = refl; completed = refl },
      )

  pub vendor_is_intel-yes :
      Returns (λ answer w'. (answer ≡ true) × IsKept p w w') (vendor_is_intel p w)
  unfolding vendor_is_intel copy_four same_bytes
  vendor_is_intel-yes =
      let ecx : (p.cpu_info w.trace (cpuid ia32_cpu_vendor_name)).ecx ≡ 0x6c65746e =
        equipped.vendor_intel _ in
      returns (ground arith, record { device = refl; driver = refl; at = refl; completed = refl })

  pub supports_vtx_operation-yes :
      Returns (λ answer w'. (answer ≡ true) × IsKept p w w') (supports_vtx_operation p w)
  unfolding supports_vtx_operation rev_bit
  supports_vtx_operation-yes =
      let ecx : (p.cpu_info w.trace (cpuid ia32_cpu_version)).ecx / 2 ^ 26 % 2 ≡ 1 =
        equipped.has_vtx _ in
      returns (ground arith, record { device = refl; driver = refl; at = refl; completed = refl })
