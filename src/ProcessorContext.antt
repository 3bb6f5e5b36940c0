-- ===== src/ProcessorContext.antt =====
-- The processor's context and its page tables (Guypervisor/processor_context.cpp, Guypervisor/paging.h).
pub mod Ept
pub mod Freed
pub mod Failed
pub mod Tables
use guypervisor.Base.{
  ℕ, zero, suc, ◌+◌, ◌*◌, ◌/◌, ◌^◌, Bool, not, ◌&&◌, ◌==◌, if◌then◌else◌, Option, none, some,
}
use guypervisor.Machine.{
  Platform, World, ProcessorContext, allocate_pool, free_pool, free_contiguous,
  get_physical_address,
}
use guypervisor.Machine.Run.{
  Io, done, crash, pure, ◌>>=◌, ◌>>◌, ask, issue, the_context, update_context,
}
use guypervisor.Machine.Memory.{load, set_field, write_bytes}
use guypervisor.Machine.Status.{status_failed_to_allocate_memory}
use guypervisor.VirtualAddr.{zero_memory, allocate_aligned}

-- `kAlignmentSize`
abbrev pub alignment_size : ℕ
alignment_size = 4 * 1024

-- `kPml4EntryCount`, `kPdptEntryCount` and `kPageDirectoryEntryCount`; an entry has eight bytes.
abbrev pub entry_count : ℕ
entry_count = 512

-- A write through a pointer, which crashes where it is null.
abbrev pub through : ℕ → Io (Unit {0}) → Io (Unit {0})
through pointer m = if pointer == 0 then crash else m

module _ (p : Platform) where
  open p use {wdk}

  unfoldable pub initialize_processor_context : Io ℕ
  initialize_processor_context = do
    vmxon ← allocate_aligned p p.vmcs_size alignment_size
    update_context (λ c. record c { vmxon_region = vmxon })
    if vmxon == 0 then pure (wdk.nt_error (status_failed_to_allocate_memory wdk)) else do
      vmcs ← allocate_aligned p p.vmcs_size alignment_size
      update_context (λ c. record c { vmcs_region = vmcs })
      if vmcs == 0 then pure (status_failed_to_allocate_memory wdk) else do
        pml4 ← ask p (allocate_pool (entry_count * 8))
        update_context (λ c. record c { ept_pml4_entries = pml4 })
        through pml4 (zero_memory pml4 (entry_count * 8))
        bitmap ← allocate_aligned p 1 alignment_size
        update_context (λ c. record c { msr_bitmap = bitmap })
        guest ← ask p (allocate_pool (12 * wdk.page_size))
        update_context (λ c. record c { guest_stack = guest })
        host ← ask p (allocate_pool (12 * wdk.page_size))
        update_context (λ c. record c { host_stack = host })
        pure wdk.status_success

  -- The macro `IF_NOT_NULLPTR_THEN_FREE_AND_SET_NULLPTR` on a field that holds `pointer`.
  unfoldable pub free_region : (pointer : ℕ) → (ProcessorContext → ProcessorContext) → Io (Unit {0})
  free_region pointer forget =
      if pointer == 0 then pure tt else do issue (free_contiguous pointer); update_context forget

  -- `delete` of a pointer.
  unfoldable pub delete_pointer : ℕ → Io (Unit {0})
  delete_pointer pointer =
      if (pointer == 0) && not p.deletes_null then pure tt else issue (free_pool pointer)

  -- A field that holds `pointer` is set to `nullptr` first, and then that is deleted.
  unfoldable pub forget_and_delete :
      (pointer : ℕ) → (ProcessorContext → ProcessorContext) → Io (Unit {0})
  unfolding delete_pointer
  forget_and_delete pointer forget =
      if pointer == 0 then pure tt else do update_context forget; delete_pointer 0

  unfoldable pub free_processor_context : Io (Unit {0})
  unfolding delete_pointer
  free_processor_context = do
    c ← the_context
    free_region c.vmxon_region (λ k. record k { vmxon_region = 0 })
    free_region c.vmcs_region (λ k. record k { vmcs_region = 0 })
    free_region c.msr_bitmap (λ k. record k { msr_bitmap = 0 })
    forget_and_delete c.guest_stack (λ k. record k { guest_stack = 0 })
    forget_and_delete c.host_stack (λ k. record k { host_stack = 0 })
    forget_and_delete c.ept_pml4_entries (λ k. record k { ept_pml4_entries = 0 })
    λ w. done tt (record w { context = none })
    delete_pointer 0
