-- ===== src/VirtualAddr.antt =====
-- Aligned contiguous memory (Guypervisor/virtual_addr_helpers.cpp).
pub mod Aligned
pub mod Physical
pub mod Mapped
use guypervisor.Base.{ℕ, ◌+◌, ◌-◌, ◌*◌, ◌%◌, ◌^◌, bit_and, ◌==◌, leb, ltb, ◌&&◌, if◌then◌else◌}
use guypervisor.Machine.{Platform, cpuid, allocate_contiguous}
use guypervisor.Machine.Run.{Io, done, pure, ◌>>=◌, ◌>>◌, ask, read_cpu_info}

-- The processor's leaf for the widths of addresses (Guypervisor/cpuid.h).
abbrev pub ia32_address_width : ℕ
ia32_address_width = 0x80000008

-- `RtlZeroMemory`
abbrev pub zero_memory : (start count : ℕ) → Io (Unit {0})
zero_memory start count w =
    done tt
      (record w { memory = λ a. if leb start a && ltb a (start + count) then 0 else w.memory a })

-- `(pointer + alignment - 1) & ~(alignment - 1)` on 64 bits.
unfoldable pub align_up : (pointer alignment : ℕ) → ℕ
align_up pointer alignment =
    bit_and ((pointer + alignment - 1) % 2 ^ 64) (2 ^ 64 - 1 - (alignment - 1))

module _ (p : Platform) where
  -- The width is below 64, or the shift of the source is undefined.
  unfoldable pub acquire_max_physical_address : Io ℕ
  acquire_max_physical_address = do
    info ← read_cpu_info p (cpuid ia32_address_width)
    pure (2 ^ (bit_and info.eax 0xff) - 1)

  unfoldable pub allocate_aligned : (size alignment : ℕ) → Io ℕ
  allocate_aligned size alignment = do
    highest ← acquire_max_physical_address
    pointer ← ask p (allocate_contiguous (size + alignment) highest)
    if pointer == 0
        then pure 0
        else do zero_memory pointer (size + alignment); pure (align_up pointer alignment)
