-- ===== src/Virtualization/Populate/Controls.antt =====
-- The control fields in `PopulateActiveVMCS` (Guypervisor/virtualization.cpp).
use guypervisor.Base.{ℕ, ◌-◌, ◌^◌, [], ◌∷◌, ◌==◌, if◌then◌else◌}
use guypervisor.Machine.{Platform}
use guypervisor.Machine.Run.{Io, ◌>>=◌}
use guypervisor.Machine.Memory.{field, set_field}
use guypervisor.Msr.{
  read_msr, ia32_vmx_basic, ia32_vmx_procbased_ctls2, ia32_vmx_true_pinbased_ctls,
  ia32_vmx_pinbased_ctls, ia32_vmx_true_procbased_ctls, ia32_vmx_procbased_ctls,
  ia32_vmx_true_exit_ctls, ia32_vmx_exit_ctls, ia32_vmx_true_entry_ctls, ia32_vmx_entry_ctls,
}
use guypervisor.Fields.{guest64, control32, guest32, guest_natural}
use guypervisor.Fields.Control.{
  control_secondary_processor_vm_execution_controls, control_pin_based_vm_execution_controls,
  control_primary_processor_vm_execution_controls, control_exception_bitmap,
  control_vm_exit_controls, control_vm_entry_controls,
}
use guypervisor.Fields.Guest.{
  guest_vmcs_link_ptr_full, guest_activity_state, guest_interruptibility_state,
  guest_pending_debug_exceptions,
}
use guypervisor.Virtualization.Access.{write_vmcs_field_natural}
use guypervisor.Virtualization.Enter.{modify_control_value}
use guypervisor.Virtualization.Write.{word32, word64, write_each}

module _ (p : Platform) (fuel : ℕ) where
  -- The writes of the controls: the statuses are joined, and lost in `populate_controls`.
  unfoldable pub write_controls : Io ℕ
  write_controls = do
    basic ← read_msr p ia32_vmx_basic
    let consult_true_msr = field 55 1 basic == 1
    status ← write_each p fuel 0 (word64 (guest64 guest_vmcs_link_ptr_full) (2 ^ 64 - 1) ∷ [])
    secondary ← modify_control_value p ia32_vmx_procbased_ctls2 0
    status ←
        write_each p fuel status
          (word32 (control32 control_secondary_processor_vm_execution_controls) secondary ∷ [])
    pin_based ←
        modify_control_value p
          (if consult_true_msr then ia32_vmx_true_pinbased_ctls else ia32_vmx_pinbased_ctls) 0
    status ←
        write_each p fuel status
          (word32 (control32 control_pin_based_vm_execution_controls) pin_based ∷ [])
    -- `activateSecondaryControls`
    primary ←
        modify_control_value p
          (if consult_true_msr then ia32_vmx_true_procbased_ctls else ia32_vmx_procbased_ctls)
          (set_field 31 1 1 0)
    status ← write_each p fuel status (
        word32 (control32 control_primary_processor_vm_execution_controls) primary
        ∷ word32 (control32 control_exception_bitmap) 0
        ∷ [])
    -- `hostAddrSpaceSize`
    exit ←
        modify_control_value p
          (if consult_true_msr then ia32_vmx_true_exit_ctls else ia32_vmx_exit_ctls)
          (set_field 9 1 1 0)
    status ← write_each p fuel status (word32 (control32 control_vm_exit_controls) exit ∷ [])
    -- `ia32ModeGuest`
    entry ←
        modify_control_value p
          (if consult_true_msr then ia32_vmx_true_entry_ctls else ia32_vmx_entry_ctls)
          (set_field 9 1 1 0)
    write_each p fuel status (
        word32 (control32 control_vm_entry_controls) entry
        ∷ word32 (guest32 guest_activity_state) 0
        ∷ word32 (guest32 guest_interruptibility_state) 0
        ∷ [])

  -- The write of the pending debug exceptions assigns `status` anew.
  unfoldable pub populate_controls : Io ℕ
  unfolding write_controls
  populate_controls = do
    status ← write_controls
    write_vmcs_field_natural p fuel (guest_natural guest_pending_debug_exceptions) 0
