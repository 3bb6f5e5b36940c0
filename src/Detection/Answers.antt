-- ===== src/Detection/Answers.antt =====
-- What the two questions to the processor answer.
use guypervisor.Base.{◌/◌, ◌%◌, ◌^◌, ◌≡◌, ◌≢◌, ◌↔◌, true, arith}
use guypervisor.Machine.{Platform, World, cpuid}
use guypervisor.Machine.Returns.{Returns, returns}
use guypervisor.Detection.{
  ia32_cpu_vendor_name, ia32_cpu_version, copy_four, same_bytes, rev_bit, vendor_is_intel,
  supports_vtx_operation,
}

-- `VendorIsIntel` answers yes for every processor whose ECX of leaf 0 is not "Genu": for those of Intel,
-- where it is "ntel", and for all others.
pub vendor_is_intel-of_ne :
    (p : Platform) (w : World)
    → (p.cpu_info w.trace (cpuid ia32_cpu_vendor_name)).ecx % 2 ^ 32 ≢ 0x756e6547
    → Returns (λ answer _. answer ≡ true) (vendor_is_intel p w)
unfolding vendor_is_intel copy_four same_bytes
vendor_is_intel-of_ne p w ne = returns (ground arith)

-- `SupportsVtxOperation` returns, and answers yes exactly where bit 26 of ECX of leaf 1 is set, whatever
-- bit 5 is.
pub supports_vtx_operation_iff :
    (p : Platform) (w : World)
    → Returns
        (λ answer _.
          (answer ≡ true) ↔ ((p.cpu_info w.trace (cpuid ia32_cpu_version)).ecx / 2 ^ 26 % 2 ≡ 1))
        (supports_vtx_operation p w)
unfolding supports_vtx_operation rev_bit
supports_vtx_operation_iff p w = returns (ground arith)
