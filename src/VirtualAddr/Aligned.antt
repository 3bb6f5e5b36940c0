-- ===== src/VirtualAddr/Aligned.antt =====
-- The block that `AllocateContingiousPhysicalMemoryAligned` returns lies in the one that it allocates.
use native.Mathlib.Nat.{div-add-mod, mod-lt, mul-mod_right}
use guypervisor.Base.{
  ℕ, ◌+◌, ◌-◌, ◌*◌, ◌/◌, ◌%◌, ◌^◌, ◌≤◌, ◌<◌, bit_and, ◌==◌, ◌≡◌, ◌≢◌, refl, arith, Bool-cases, inl,
  inr, ◌⊎◌, ◌∷◌,
}
use guypervisor.Bits.Mask.{bit_and-clear, two-pow-pos}
use guypervisor.Machine.{Platform, World, allocate_contiguous, cpuid}
use guypervisor.Machine.Returns.{Returns, returns}
use guypervisor.VirtualAddr.{
  ia32_address_width, align_up, acquire_max_physical_address, allocate_aligned,
}

module _ (j k : ℕ) (whole : 2 ^ j * 2 ^ k ≡ 2 ^ 64) where
  pub align_up-cleared :
      (pointer : ℕ)
      → pointer + 2 ^ k ≤ 2 ^ 64
      → align_up pointer (2 ^ k) ≡ pointer + 2 ^ k - 1 - (pointer + 2 ^ k - 1) % 2 ^ k
  unfolding align_up
  align_up-cleared pointer fits =
      let last : ℕ = pointer + 2 ^ k - 1 in
      let wrapped : last % 2 ^ 64 ≡ last = omega (arith, two-pow-pos k) in
      let mask : 2 ^ 64 - 1 - (2 ^ k - 1) ≡ 2 ^ j * 2 ^ k - 2 ^ k = omega (arith, two-pow-pos k) in
      rw (wrapped, mask) (bit_and-clear k j last (omega (arith, two-pow-pos k)))

  pub align_up-bounds :
      (pointer : ℕ)
      → pointer + 2 ^ k ≤ 2 ^ 64
      → (align_up pointer (2 ^ k) % 2 ^ k ≡ 0)
        × (pointer ≤ align_up pointer (2 ^ k))
        × (align_up pointer (2 ^ k) < pointer + 2 ^ k)
  align_up-bounds pointer fits =
      let last : ℕ = pointer + 2 ^ k - 1 in
      let multiple : last - last % 2 ^ k ≡ 2 ^ k * (last / 2 ^ k) =
        omega (arith, div-add-mod last (2 ^ k)) in
      rw (align_up-cleared pointer fits) (
        rw multiple (mul-mod_right (2 ^ k) (last / 2 ^ k)),
        omega (arith, mod-lt last (two-pow-pos k)),
        omega (arith, two-pow-pos k),
      )

-- The pointer that the kernel answers to the request of `size + alignment` bytes.
abbrev pub answered : Platform → (size alignment : ℕ) → World → ℕ
answered p size alignment w =
    let t = cpuid ia32_address_width ∷ w.trace in
    p.datum t (
      allocate_contiguous (size + alignment)
        (2 ^ (bit_and (p.cpu_info w.trace (cpuid ia32_address_width)).eax 0xff) - 1))

-- For an alignment of 2 ^ k, and where the kernel answers with 0 or with a block that ends below 2 ^ 64,
-- the function returns: 0 for 0, with the memory as it was; else a multiple of the alignment from which on
-- `size` bytes lie within the block, and each of these bytes, the one with index `i`, is 0.
pub allocate_aligned-outcome :
    (p : Platform) (j k size i : ℕ) (w : World)
    → 2 ^ j * 2 ^ k ≡ 2 ^ 64
    → answered p size (2 ^ k) w + size + 2 ^ k ≤ 2 ^ 64
    → i < size
    → let pointer = answered p size (2 ^ k) w in
      Returns
        (λ result w'.
          ((pointer ≡ 0) × (result ≡ 0) × (w'.memory ≡ w.memory))
          ⊎ ((pointer ≢ 0)
              × (result % 2 ^ k ≡ 0)
              × (pointer ≤ result)
              × (result + size ≤ pointer + (size + 2 ^ k))
              × (w'.memory (result + i) ≡ 0)))
        (allocate_aligned p size (2 ^ k) w)
unfolding allocate_aligned acquire_max_physical_address
allocate_aligned-outcome p j k size i w whole fits inside =
    let pointer : ℕ = answered p size (2 ^ k) w in
    let bounds = align_up-bounds j k whole pointer (omega arith) in
    elim (Bool-cases (pointer == 0)) [
      | inl null ↦ rw (null, allocate_aligned) (returns (inl (ground arith, refl, refl)))
      | inr given ↦
          rw (given, allocate_aligned)
            (returns (inr (ground arith, bounds.0, bounds.1, omega arith, ground arith)))
    ]
