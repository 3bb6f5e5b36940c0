-- ===== src/Fields/Listed/Other.antt =====
-- The fields of 32 bits and of natural width, in the order of the enumeration
-- (Guypervisor/vmcs_field_index.h).
use guypervisor.Base.{List, [], ◌∷◌}
use guypervisor.Fields.{
  VmcsField, control32, exit32, guest32, host32, control_natural, exit_natural, guest_natural,
  host_natural,
}
use guypervisor.Fields.Control.{
  control_pin_based_vm_execution_controls, control_primary_processor_vm_execution_controls,
  control_exception_bitmap, control_page_fault_error_code_mask, control_page_fault_error_code_match,
  control_cr3_target_count, control_vm_exit_controls, control_vm_exit_msr_store_count,
  control_vm_exit_msr_load_count, control_vm_entry_controls, control_vm_entry_msr_load_count,
  control_vm_entry_interruption_information_field, control_vm_entry_exception_error_code,
  control_vm_entry_instruction_length, control_tpr_threshold,
  control_secondary_processor_vm_execution_controls, control_ple_gap, control_ple_window,
  control_cr0_mask, control_cr4_mask, control_cr0_read_shadow, control_cr4_read_shadow,
  control_cr3_target_value0, control_cr3_target_value1, control_cr3_target_value2,
  control_cr3_target_value3,
}
use guypervisor.Fields.Guest.{
  guest_es_limit, guest_cs_limit, guest_ss_limit, guest_ds_limit, guest_fs_limit, guest_gs_limit,
  guest_ldtr_limit, guest_tr_limit, guest_gdtr_limit, guest_idtr_limit, guest_es_access_rights,
  guest_cs_access_rights, guest_ss_access_rights, guest_ds_access_rights, guest_fs_access_rights,
  guest_gs_access_rights, guest_ldtr_access_rights, guest_tr_access_rights,
  guest_interruptibility_state, guest_activity_state, guest_smbase, guest_ia32_sysenter_cs,
  guest_vmx_preemption_timer_value, guest_cr0, guest_cr3, guest_cr4, guest_es_base, guest_cs_base,
  guest_ss_base, guest_ds_base, guest_fs_base, guest_gs_base, guest_ldtr_base, guest_tr_base,
  guest_gdtr_base, guest_idtr_base, guest_dr7, guest_rsp, guest_rip, guest_r_flags,
  guest_pending_debug_exceptions, guest_ia32_sysenter_esp, guest_ia32_sysenter_eip,
  guest_ia32_s_cet, guest_ia32_ssp, guest_ia32_interrupt_ssp_table_addr,
}
use guypervisor.Fields.Host.{
  host_ia32_sysenter_cs, host_cr0, host_cr3, host_cr4, host_fs_base, host_gs_base, host_tr_base,
  host_gdtr_base, host_idtr_base, host_ia32_sysenter_esp, host_ia32_sysenter_eip, host_rsp,
  host_rip, host_ia32_s_cet, host_ia32_ssp, host_ia32_interrupt_ssp_table_addr,
}
use guypervisor.Fields.Exit.{
  vm_instruction_error, exit_reason, vm_exit_interruption_information,
  vm_exit_interruption_error_code, idt_vectoring_information_field, idt_vectoring_error_code,
  vm_exit_instruction_length, vm_exit_instruction_information, vm_exit_qualification,
  vm_exit_io_rcx, vm_exit_io_rsi, vm_exit_io_rdi, vm_exit_io_rip, vm_exit_guest_linear_addr,
}

unfoldable pub fields32 : List VmcsField
fields32 =
    control32 control_pin_based_vm_execution_controls
    ∷ control32 control_primary_processor_vm_execution_controls
    ∷ control32 control_exception_bitmap
    ∷ control32 control_page_fault_error_code_mask
    ∷ control32 control_page_fault_error_code_match
    ∷ control32 control_cr3_target_count
    ∷ control32 control_vm_exit_controls
    ∷ control32 control_vm_exit_msr_store_count
    ∷ control32 control_vm_exit_msr_load_count
    ∷ control32 control_vm_entry_controls
    ∷ control32 control_vm_entry_msr_load_count
    ∷ control32 control_vm_entry_interruption_information_field
    ∷ control32 control_vm_entry_exception_error_code
    ∷ control32 control_vm_entry_instruction_length
    ∷ control32 control_tpr_threshold
    ∷ control32 control_secondary_processor_vm_execution_controls
    ∷ control32 control_ple_gap
    ∷ control32 control_ple_window
    ∷ exit32 vm_instruction_error
    ∷ exit32 exit_reason
    ∷ exit32 vm_exit_interruption_information
    ∷ exit32 vm_exit_interruption_error_code
    ∷ exit32 idt_vectoring_information_field
    ∷ exit32 idt_vectoring_error_code
    ∷ exit32 vm_exit_instruction_length
    ∷ exit32 vm_exit_instruction_information
    ∷ guest32 guest_es_limit
    ∷ guest32 guest_cs_limit
    ∷ guest32 guest_ss_limit
    ∷ guest32 guest_ds_limit
    ∷ guest32 guest_fs_limit
    ∷ guest32 guest_gs_limit
    ∷ guest32 guest_ldtr_limit
    ∷ guest32 guest_tr_limit
    ∷ guest32 guest_gdtr_limit
    ∷ guest32 guest_idtr_limit
    ∷ guest32 guest_es_access_rights
    ∷ guest32 guest_cs_access_rights
    ∷ guest32 guest_ss_access_rights
    ∷ guest32 guest_ds_access_rights
    ∷ guest32 guest_fs_access_rights
    ∷ guest32 guest_gs_access_rights
    ∷ guest32 guest_ldtr_access_rights
    ∷ guest32 guest_tr_access_rights
    ∷ guest32 guest_interruptibility_state
    ∷ guest32 guest_activity_state
    ∷ guest32 guest_smbase
    ∷ guest32 guest_ia32_sysenter_cs
    ∷ guest32 guest_vmx_preemption_timer_value
    ∷ host32 host_ia32_sysenter_cs
    ∷ []

unfoldable pub fields_natural : List VmcsField
fields_natural =
    control_natural control_cr0_mask
    ∷ control_natural control_cr4_mask
    ∷ control_natural control_cr0_read_shadow
    ∷ control_natural control_cr4_read_shadow
    ∷ control_natural control_cr3_target_value0
    ∷ control_natural control_cr3_target_value1
    ∷ control_natural control_cr3_target_value2
    ∷ control_natural control_cr3_target_value3
    ∷ exit_natural vm_exit_qualification
    ∷ exit_natural vm_exit_io_rcx
    ∷ exit_natural vm_exit_io_rsi
    ∷ exit_natural vm_exit_io_rdi
    ∷ exit_natural vm_exit_io_rip
    ∷ exit_natural vm_exit_guest_linear_addr
    ∷ guest_natural guest_cr0
    ∷ guest_natural guest_cr3
    ∷ guest_natural guest_cr4
    ∷ guest_natural guest_es_base
    ∷ guest_natural guest_cs_base
    ∷ guest_natural guest_ss_base
    ∷ guest_natural guest_ds_base
    ∷ guest_natural guest_fs_base
    ∷ guest_natural guest_gs_base
    ∷ guest_natural guest_ldtr_base
    ∷ guest_natural guest_tr_base
    ∷ guest_natural guest_gdtr_base
    ∷ guest_natural guest_idtr_base
    ∷ guest_natural guest_dr7
    ∷ guest_natural guest_rsp
    ∷ guest_natural guest_rip
    ∷ guest_natural guest_r_flags
    ∷ guest_natural guest_pending_debug_exceptions
    ∷ guest_natural guest_ia32_sysenter_esp
    ∷ guest_natural guest_ia32_sysenter_eip
    ∷ guest_natural guest_ia32_s_cet
    ∷ guest_natural guest_ia32_ssp
    ∷ guest_natural guest_ia32_interrupt_ssp_table_addr
    ∷ host_natural host_cr0
    ∷ host_natural host_cr3
    ∷ host_natural host_cr4
    ∷ host_natural host_fs_base
    ∷ host_natural host_gs_base
    ∷ host_natural host_tr_base
    ∷ host_natural host_gdtr_base
    ∷ host_natural host_idtr_base
    ∷ host_natural host_ia32_sysenter_esp
    ∷ host_natural host_ia32_sysenter_eip
    ∷ host_natural host_rsp
    ∷ host_natural host_rip
    ∷ host_natural host_ia32_s_cet
    ∷ host_natural host_ia32_ssp
    ∷ host_natural host_ia32_interrupt_ssp_table_addr
    ∷ []
