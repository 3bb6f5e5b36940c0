-- ===== src/ProcessorContext/Failed.antt =====
-- What `InitializeProcessorContext` reports where there is no memory (Guypervisor/processor_context.cpp).
use guypervisor.Base.{ℕ, ◌+◌, ◌≡◌, refl, sym, ◌∙◌, true, ◌==◌, some, arith}
use guypervisor.Machine.{Platform, World, ProcessorContext}
use guypervisor.Machine.Returns
use guypervisor.Machine.Returns.{Returns, returns}
use guypervisor.Machine.Status.{IsDocumented, status_failed_to_allocate_memory, base_error}
use guypervisor.VirtualAddr.{allocate_aligned, acquire_max_physical_address}
use guypervisor.VirtualAddr.Aligned.{answered}
use guypervisor.ProcessorContext.{alignment_size, initialize_processor_context}

allocate_memory_lem :
    (p : Platform)
    → IsDocumented p.wdk
    → p.wdk.nt_error (status_failed_to_allocate_memory p.wdk) ≡ 0
unfolding status_failed_to_allocate_memory
allocate_memory_lem p documented =
    rw (documented.error_above (base_error + 0x1) (omega arith) (omega arith))
      (documented.error_below 1 (omega arith))

allocate_aligned-null :
    (p : Platform) (size alignment : ℕ) (w : World)
    → answered p size alignment w ≡ 0
    → Returns
        (λ pointer w'. (pointer ≡ 0) × (w'.context ≡ w.context))
        (allocate_aligned p size alignment w)
unfolding allocate_aligned acquire_max_physical_address
allocate_aligned-null p size alignment w none_left =
    let null : (answered p size alignment w == 0) ≡ true = ground arith in
    rw (null, allocate_aligned) (returns (refl, refl))

-- Where the kernel has no memory for the VMXON region, `InitializeProcessorContext` returns the status 0,
-- which is STATUS_SUCCESS, and leaves that region null and the other fields as they were.
pub initialize_processor_context-of_no_memory :
    (p : Platform) (c : ProcessorContext) (w : World)
    → IsDocumented p.wdk
    → w.context ≡ some c
    → answered p p.vmcs_size alignment_size w ≡ 0
    → Returns
        (λ s w'.
          (s ≡ p.wdk.status_success)
          × (p.wdk.nt_success s ≡ true)
          × (w'.context ≡ some (record c { vmxon_region = 0 })))
        (initialize_processor_context p w)
unfolding initialize_processor_context
initialize_processor_context-of_no_memory p c w documented known none_left =
    Returns.bind (allocate_aligned-null p p.vmcs_size alignment_size w none_left)
      λ pointer w1 (null, same). rw (same ∙ known) (
        rw null (
          returns (
            allocate_memory_lem p documented ∙ sym documented.success_zero,
            rw (allocate_memory_lem p documented) (documented.success_below 0 (omega arith)),
            refl,
          )))
