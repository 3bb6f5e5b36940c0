-- ===== src/Driver.antt =====
-- The entry point (Guypervisor/Driver.cpp).
pub mod Entry
pub mod Equipped
pub mod Started
use guypervisor.Base.{ℕ, ◌+◌, ◌*◌, ◌^◌, not, ◌==◌, if◌then◌else◌, none, some}
use guypervisor.Machine.{Platform, World, ProcessorContext, allocate_pool}
use guypervisor.Machine.Run.{Io, done, pure, ◌>>=◌, ◌>>◌, ask}
use guypervisor.Machine.Memory.{load}
use guypervisor.Detection.{is_cpuid_supported, vendor_is_intel, supports_vtx_operation}
use guypervisor.Device.{new_device, init_device, create_symlink, delete_guypervisor}
use guypervisor.ProcessorContext.{initialize_processor_context, free_processor_context}
use guypervisor.ProcessorContext.Ept.{initialize_ept}
use guypervisor.IrpHandlers.{enter_vmx_handler}

-- `HAS_CPUID_FLAG_MASK`
abbrev pub has_cpuid_flag_mask : ℕ
has_cpuid_flag_mask = 2 ^ 21

module _ (p : Platform) where
  -- `new processorContext`, whose fields are what the memory holds.
  unfoldable pub new_context : Io (Unit {0})
  new_context = do
    c ← ask p (allocate_pool p.context_size)
    if c == 0 then (λ w. done tt (record w { context = none })) else λ w. done tt (record w {
      context = some (record {
        vmxon_region = load w.memory 8 c;
        vmcs_region = load w.memory 8 (c + 8);
        ept_pml4_entries = load w.memory 8 (c + 16);
        msr_bitmap = load w.memory 8 (c + 24);
        guest_stack = load w.memory 8 (c + 32);
        host_stack = load w.memory 8 (c + 40);
      });
    })

module _ (p : Platform) (fuel : ℕ) where
  open p use {wdk}

  -- From the device object on; the status of `EnterVmxHandler` is not looked at.
  unfoldable pub set_up : Io ℕ
  unfolding new_context
  set_up = do
    new_device p
    status ← init_device p
    if not (wdk.nt_success status) then pure status else do
      status ← create_symlink p
      if not (wdk.nt_success status) then pure status else do
        new_context p
        status ← initialize_processor_context p
        if not (wdk.nt_success status) then pure status else do
          status ← initialize_ept p
          if not (wdk.nt_success status)
              then pure status
              else do ignored ← enter_vmx_handler p fuel; pure status

  -- The code before the label `cleanup`.
  unfoldable pub entry_stages : Io ℕ
  entry_stages = do
    cpuid_supported ← is_cpuid_supported p has_cpuid_flag_mask
    if not cpuid_supported then pure wdk.status_not_supported else do
      intel ← vendor_is_intel p
      if not intel then pure wdk.status_not_supported else do
        supports_vtx ← supports_vtx_operation p
        if not supports_vtx then pure wdk.status_not_supported else set_up

  -- The code at the label `cleanup`.
  unfoldable pub entry_cleanup : (status : ℕ) → Io ℕ
  entry_cleanup status = if wdk.nt_success status then pure status else do
    λ w. elim w.device [ none ↦ done tt w | some d ↦ delete_guypervisor p w ]
    λ w. elim w.context [ none ↦ done tt w | some c ↦ free_processor_context p w ]
    pure status

  unfoldable pub driver_entry : Io ℕ
  unfolding entry_stages entry_cleanup
  driver_entry = do status ← entry_stages; entry_cleanup status
