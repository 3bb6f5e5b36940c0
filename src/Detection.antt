-- ===== src/Detection.antt =====
-- What the driver asks of the processor before it starts (Guypervisor/virtualization_detection.cpp,
-- Guypervisor/virtualization_helpers.asm).
pub mod Answers
pub mod Flags
use guypervisor.Base.{
  ℕ, zero, suc, ◌+◌, ◌-◌, ◌*◌, ◌/◌, ◌%◌, ◌^◌, bit_and, bit_or, Bool, true, false, not, ◌&&◌, ◌==◌,
  List, [], ◌∷◌, ◌++◌,
}
use guypervisor.Machine.{Platform, cpuid, read_eflags, write_eflags}
use guypervisor.Machine.Run.{Io, done, pure, ◌>>=◌, ◌>>◌, ask, issue, read_cpu_info}
use guypervisor.Machine.Memory.{field}

-- `cpuid::intel_e`
abbrev pub ia32_cpu_vendor_name : ℕ
ia32_cpu_vendor_name = 0x0

abbrev pub ia32_cpu_version : ℕ
ia32_cpu_version = 0x1

-- `kVendorName`, "GenuineIntel", by its bytes.
abbrev pub vendor_name : List ℕ
vendor_name = 0x47 ∷ 0x65 ∷ 0x6e ∷ 0x75 ∷ 0x69 ∷ 0x6e ∷ 0x65 ∷ 0x49 ∷ 0x6e ∷ 0x74 ∷ 0x65 ∷ 0x6c ∷ []

-- The four bytes of a register.
abbrev pub bytes : ℕ → List ℕ
bytes x = field 0 8 x ∷ field 8 8 x ∷ field 16 8 x ∷ field 24 8 x ∷ []

-- `memcpy_s(destination, 12, source, 4)`: the first four bytes are replaced.
unfoldable pub copy_four : (destination source : List ℕ) → List ℕ
copy_four (a ∷ b ∷ c ∷ d ∷ rest) source = source ++ rest
copy_four other source = other

-- Whether `memcmp` is 0.
unfoldable pub same_bytes : List ℕ → List ℕ → Bool
same_bytes [] [] = true
same_bytes (a ∷ xs) (b ∷ ys) = a == b && same_bytes xs ys
same_bytes _ _ = false

abbrev pub cells : (count : ℕ) → (ℕ → ℕ) → List ℕ
cells zero f = []
cells (suc n) f = f 0 ∷ cells n (λ i. f (i + 1))

-- Bit `i` of `rev_bitfield` of `Register32` (Guypervisor/processor.h), which declares bit 31 first.
unfoldable pub rev_bit : (i x : ℕ) → ℕ
rev_bit i x = field (31 - i) 1 x

module _ (p : Platform) where
  -- All three copies go to the start of `vendorString`, an array that is not initialised, and the
  -- result of `memcmp` is returned as a `bool`.
  unfoldable pub vendor_is_intel : Io Bool
  unfolding copy_four same_bytes
  vendor_is_intel w =
      (do
        info ← read_cpu_info p (cpuid ia32_cpu_vendor_name)
        let vendor = cells 12 (p.uninitialised w.trace)
        let vendor = copy_four vendor (bytes info.ebx)
        let vendor = copy_four vendor (bytes info.edx)
        let vendor = copy_four vendor (bytes info.ecx)
        pure (not (same_bytes vendor vendor_name)))
        w

  unfoldable pub supports_vtx_operation : Io Bool
  unfolding rev_bit
  supports_vtx_operation = do
    info ← read_cpu_info p (cpuid ia32_cpu_version)
    pure (rev_bit 5 info.ecx == 1)

  -- `IsCPUIdSupported`: whether the bit of the mask stays set in the flags, which are put back. The
  -- result is the low byte of a register.
  unfoldable pub is_cpuid_supported : (mask : ℕ) → Io Bool
  is_cpuid_supported mask = do
    saved ← ask p read_eflags
    flags ← ask p read_eflags
    issue (write_eflags (bit_or flags mask))
    flags ← ask p read_eflags
    issue (write_eflags saved)
    pure (not (bit_and flags mask / 2 ^ 21 % 2 ^ 8 == 0))
