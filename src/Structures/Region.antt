-- ===== src/Structures/Region.antt =====
-- The region of 4096 bytes that VMXON and VMPTRLD use, in the block that `InitializeProcessorContext` asks
-- for (Guypervisor/processor_context.cpp, Guypervisor/virtual_addr_helpers.cpp): that has `sizeof(VMCS)`
-- bytes, and one page for the alignment.
use guypervisor.Base.{ℕ, ◌+◌, ◌-◌, ◌%◌, ◌^◌, ◌≤◌, ◌≡◌, ◌≢◌, ◌↔◌, ◌⊎◌, refl, false, ◌==◌, arith}
use guypervisor.Machine.{Platform, World}
use guypervisor.Machine.Returns.{Returns, returns}
use guypervisor.VirtualAddr.{allocate_aligned, align_up, acquire_max_physical_address}
use guypervisor.VirtualAddr.Aligned.{answered, align_up-cleared}
use guypervisor.ProcessorContext.{alignment_size}
use guypervisor.Structures.{size_of}
use guypervisor.Structures.Vmcs.{vmcs_type}

-- For the declared `VMCS`, of 792 bytes: where the kernel answers with a block that ends below 2 ^ 64, the
-- region returned has a whole page within the block exactly where the block is aligned to a page, or
-- stands at most 792 bytes before the next page.
pub allocate_aligned-page :
    (p : Platform) (w : World)
    → p.vmcs_size ≡ size_of vmcs_type
    → answered p p.vmcs_size alignment_size w ≢ 0
    → answered p p.vmcs_size alignment_size w + p.vmcs_size + alignment_size ≤ 2 ^ 64
    → let pointer = answered p p.vmcs_size alignment_size w in
      Returns
        (λ region _.
          (region + 4096 ≤ pointer + (p.vmcs_size + alignment_size))
          ↔ ((pointer % 4096 ≡ 0) ⊎ (4096 ≤ pointer % 4096 + 792)))
        (allocate_aligned p p.vmcs_size alignment_size w)
unfolding allocate_aligned acquire_max_physical_address size_of
allocate_aligned-page p w size there fits =
    let pointer : ℕ = answered p p.vmcs_size 4096 w in
    let given : (pointer == 0) ≡ false = ground arith in
    let bytes : p.vmcs_size ≡ 792 = size in
    let small : pointer + 4096 ≤ 2 ^ 64 = omega (arith, fits) in
    let region : align_up pointer 4096 ≡ pointer + 4096 - 1 - (pointer + 4096 - 1) % 4096 =
      align_up-cleared 52 12 refl pointer small in
    let goal : (align_up pointer 4096 + 4096 ≤ pointer + (p.vmcs_size + 4096))
        ↔ ((pointer % 4096 ≡ 0) ⊎ (4096 ≤ pointer % 4096 + 792)) =
      ground (arith, region, bytes) in
    rw (given, allocate_aligned) (returns goal)
