-- ===== src/Virtualization/Populate/Targets.antt =====
-- The fields that `PopulateActiveVMCS` writes, in their order (Guypervisor/virtualization.cpp).
use guypervisor.Base.{List, [], ◌∷◌, ◌++◌}
use guypervisor.Fields.{
  VmcsField, guest64, control32, guest32, guest16, guest_natural, host16, host_natural,
  control_natural, host32,
}
use guypervisor.Fields.Guest.{
  guest_vmcs_link_ptr_full, guest_activity_state, guest_interruptibility_state, guest_cs_selector,
  guest_cs_limit, guest_cs_access_rights, guest_cs_base, guest_ss_selector, guest_ss_limit,
  guest_ss_access_rights, guest_ss_base, guest_ds_selector, guest_ds_limit, guest_ds_access_rights,
  guest_ds_base, guest_es_selector, guest_es_limit, guest_es_access_rights, guest_es_base,
  guest_fs_selector, guest_fs_limit, guest_fs_access_rights, guest_fs_base, guest_gs_selector,
  guest_gs_limit, guest_gs_access_rights, guest_gs_base, guest_tr_selector, guest_tr_limit,
  guest_tr_access_rights, guest_tr_base, guest_ldtr_selector, guest_ldtr_limit,
  guest_ldtr_access_rights, guest_ldtr_base, guest_gdtr_limit, guest_gdtr_base, guest_idtr_limit,
  guest_idtr_base, guest_cr0, guest_cr3, guest_cr4, guest_dr7, guest_rsp, guest_rip, guest_r_flags,
  guest_ia32_sysenter_cs, guest_ia32_sysenter_esp, guest_ia32_sysenter_eip,
  guest_pending_debug_exceptions,
}
use guypervisor.Fields.Control.{
  control_secondary_processor_vm_execution_controls, control_pin_based_vm_execution_controls,
  control_primary_processor_vm_execution_controls, control_exception_bitmap,
  control_vm_exit_controls, control_vm_entry_controls, control_cr0_mask, control_cr0_read_shadow,
  control_cr4_mask, control_cr4_read_shadow,
}
use guypervisor.Fields.Host.{
  host_cs_selector, host_ss_selector, host_ds_selector, host_es_selector, host_fs_base,
  host_fs_selector, host_gs_base, host_gs_selector, host_tr_base, host_tr_selector, host_gdtr_base,
  host_idtr_base, host_cr0, host_cr3, host_cr4, host_rsp, host_rip, host_ia32_sysenter_cs,
  host_ia32_sysenter_esp, host_ia32_sysenter_eip,
}

abbrev pub write_fields : List VmcsField
write_fields =
    guest64 guest_vmcs_link_ptr_full
    ∷ control32 control_secondary_processor_vm_execution_controls
    ∷ control32 control_pin_based_vm_execution_controls
    ∷ control32 control_primary_processor_vm_execution_controls
    ∷ control32 control_exception_bitmap
    ∷ control32 control_vm_exit_controls
    ∷ control32 control_vm_entry_controls
    ∷ guest32 guest_activity_state
    ∷ guest32 guest_interruptibility_state
    ∷ []

abbrev pub cs_fields : List VmcsField
cs_fields =
    guest16 guest_cs_selector
    ∷ guest32 guest_cs_limit
    ∷ guest32 guest_cs_access_rights
    ∷ guest_natural guest_cs_base
    ∷ host16 host_cs_selector
    ∷ []

abbrev pub ss_fields : List VmcsField
ss_fields =
    guest16 guest_ss_selector
    ∷ guest32 guest_ss_limit
    ∷ guest32 guest_ss_access_rights
    ∷ guest_natural guest_ss_base
    ∷ host16 host_ss_selector
    ∷ []

abbrev pub ds_fields : List VmcsField
ds_fields =
    guest16 guest_ds_selector
    ∷ guest32 guest_ds_limit
    ∷ guest32 guest_ds_access_rights
    ∷ guest_natural guest_ds_base
    ∷ host16 host_ds_selector
    ∷ []

abbrev pub es_fields : List VmcsField
es_fields =
    guest16 guest_es_selector
    ∷ guest32 guest_es_limit
    ∷ guest32 guest_es_access_rights
    ∷ guest_natural guest_es_base
    ∷ host16 host_es_selector
    ∷ []

abbrev pub fs_fields : List VmcsField
fs_fields =
    guest16 guest_fs_selector
    ∷ guest32 guest_fs_limit
    ∷ guest32 guest_fs_access_rights
    ∷ guest_natural guest_fs_base
    ∷ host_natural host_fs_base
    ∷ host16 host_fs_selector
    ∷ []

abbrev pub gs_fields : List VmcsField
gs_fields =
    guest16 guest_gs_selector
    ∷ guest32 guest_gs_limit
    ∷ guest32 guest_gs_access_rights
    ∷ guest_natural guest_gs_base
    ∷ host_natural host_gs_base
    ∷ host16 host_gs_selector
    ∷ []

abbrev pub tr_fields : List VmcsField
tr_fields =
    guest16 guest_tr_selector
    ∷ guest32 guest_tr_limit
    ∷ guest32 guest_tr_access_rights
    ∷ guest_natural guest_tr_base
    ∷ host_natural host_tr_base
    ∷ host16 host_tr_selector
    ∷ []

abbrev pub ldtr_fields : List VmcsField
ldtr_fields =
    guest16 guest_ldtr_selector
    ∷ guest32 guest_ldtr_limit
    ∷ guest32 guest_ldtr_access_rights
    ∷ guest_natural guest_ldtr_base
    ∷ []

abbrev pub tables_fields : List VmcsField
tables_fields =
    guest32 guest_gdtr_limit
    ∷ guest_natural guest_gdtr_base
    ∷ host_natural host_gdtr_base
    ∷ guest32 guest_idtr_limit
    ∷ guest_natural guest_idtr_base
    ∷ host_natural host_idtr_base
    ∷ []

abbrev pub control_register_fields : List VmcsField
control_register_fields =
    guest_natural guest_cr0
    ∷ host_natural host_cr0
    ∷ control_natural control_cr0_mask
    ∷ control_natural control_cr0_read_shadow
    ∷ guest_natural guest_cr3
    ∷ host_natural host_cr3
    ∷ guest_natural guest_cr4
    ∷ host_natural host_cr4
    ∷ control_natural control_cr4_mask
    ∷ control_natural control_cr4_read_shadow
    ∷ []

abbrev pub context_fields : List VmcsField
context_fields =
    guest_natural guest_dr7
    ∷ guest_natural guest_rsp
    ∷ guest_natural guest_rip
    ∷ guest_natural guest_r_flags
    ∷ host_natural host_rsp
    ∷ host_natural host_rip
    ∷ []

abbrev pub sysenter_fields : List VmcsField
sysenter_fields =
    host32 host_ia32_sysenter_cs
    ∷ guest32 guest_ia32_sysenter_cs
    ∷ guest_natural guest_ia32_sysenter_esp
    ∷ guest_natural guest_ia32_sysenter_eip
    ∷ host_natural host_ia32_sysenter_esp
    ∷ host_natural host_ia32_sysenter_eip
    ∷ []

abbrev pub control_fields : List VmcsField
control_fields = write_fields ++ (guest_natural guest_pending_debug_exceptions ∷ [])

abbrev pub segment_fields : List VmcsField
segment_fields =
    cs_fields
    ++ (ss_fields
        ++ (ds_fields
            ++ (es_fields
                ++ (fs_fields ++ (gs_fields ++ (tr_fields ++ (ldtr_fields ++ tables_fields)))))))

-- All of them.
abbrev pub populated : List VmcsField
populated =
    control_fields
    ++ (segment_fields ++ (control_register_fields ++ (context_fields ++ sysenter_fields)))
