-- ===== src/Virtualization/Populate/Expected.antt =====
-- The fields that `PopulateActiveVMCS` is to write (Guypervisor/virtualization.cpp), by the component and
-- the width that Guypervisor/vmcs_field_index.h gives them.
use guypervisor.Base.{ℕ, Bool, true, false, if◌then◌else◌}
use guypervisor.Fields.{
  VmcsField, guest16, host16, guest64, control32, guest32, host32, control_natural, guest_natural,
  host_natural,
}
use guypervisor.Fields.Control.{
  Control32, control_pin_based_vm_execution_controls,
  control_primary_processor_vm_execution_controls,
  control_secondary_processor_vm_execution_controls, control_exception_bitmap,
  control_vm_exit_controls, control_vm_entry_controls, ControlNatural, control_cr0_mask,
  control_cr0_read_shadow, control_cr4_mask, control_cr4_read_shadow,
}
use guypervisor.Fields.Guest.{
  Guest16, guest_interrupt_status, guest_pml_index, Guest64, guest_vmcs_link_ptr_full, Guest32,
  guest_smbase, guest_vmx_preemption_timer_value, GuestNatural, guest_ia32_s_cet, guest_ia32_ssp,
  guest_ia32_interrupt_ssp_table_addr,
}
use guypervisor.Fields.Host.{
  HostNatural, host_ia32_s_cet, host_ia32_ssp, host_ia32_interrupt_ssp_table_addr,
}

abbrev pub is_populated_control32 : Control32 → Bool
is_populated_control32 control_pin_based_vm_execution_controls = true
is_populated_control32 control_primary_processor_vm_execution_controls = true
is_populated_control32 control_secondary_processor_vm_execution_controls = true
is_populated_control32 control_exception_bitmap = true
is_populated_control32 control_vm_exit_controls = true
is_populated_control32 control_vm_entry_controls = true
is_populated_control32 _ = false

abbrev pub is_populated_control_natural : ControlNatural → Bool
is_populated_control_natural control_cr0_mask = true
is_populated_control_natural control_cr0_read_shadow = true
is_populated_control_natural control_cr4_mask = true
is_populated_control_natural control_cr4_read_shadow = true
is_populated_control_natural _ = false

abbrev pub is_populated_guest16 : Guest16 → Bool
is_populated_guest16 guest_interrupt_status = false
is_populated_guest16 guest_pml_index = false
is_populated_guest16 _ = true

abbrev pub is_populated_guest64 : Guest64 → Bool
is_populated_guest64 guest_vmcs_link_ptr_full = true
is_populated_guest64 _ = false

abbrev pub is_populated_guest32 : Guest32 → Bool
is_populated_guest32 guest_smbase = false
is_populated_guest32 guest_vmx_preemption_timer_value = false
is_populated_guest32 _ = true

abbrev pub is_populated_guest_natural : GuestNatural → Bool
is_populated_guest_natural guest_ia32_s_cet = false
is_populated_guest_natural guest_ia32_ssp = false
is_populated_guest_natural guest_ia32_interrupt_ssp_table_addr = false
is_populated_guest_natural _ = true

abbrev pub is_populated_host_natural : HostNatural → Bool
is_populated_host_natural host_ia32_s_cet = false
is_populated_host_natural host_ia32_ssp = false
is_populated_host_natural host_ia32_interrupt_ssp_table_addr = false
is_populated_host_natural _ = true

-- Six controls, the masks and shadows of CR0 and CR4, the link pointer; of the guest and the host every
-- other field, but those of 64 bits, of shadow stacks, of SMM, of the preemption timer, of virtual
-- interrupts and of the page-modification log; nothing of what an exit reports.
abbrev pub is_populated : VmcsField → Bool
is_populated (control32 f) = is_populated_control32 f
is_populated (control_natural f) = is_populated_control_natural f
is_populated (guest16 f) = is_populated_guest16 f
is_populated (guest64 f) = is_populated_guest64 f
is_populated (guest32 f) = is_populated_guest32 f
is_populated (guest_natural f) = is_populated_guest_natural f
is_populated (host16 f) = true
is_populated (host32 f) = true
is_populated (host_natural f) = is_populated_host_natural f
is_populated _ = false

-- The count that `is_populated` promises.
abbrev pub promise : VmcsField → ℕ
promise f = if is_populated f then 1 else 0
