-- ===== src/Fields/Listed/Fixed.antt =====
-- The fields of 16 and of 64 bits, in the order of the enumeration (Guypervisor/vmcs_field_index.h).
use guypervisor.Base.{List, [], ◌∷◌}
use guypervisor.Fields.{VmcsField, control16, guest16, host16, control64, exit64, guest64, host64}
use guypervisor.Fields.Control.{
  control_vpid, control_posted_interrupt_notification_vector, control_eptp_index,
  control_address_io_bitmap_a_full, control_address_io_bitmap_a_high,
  control_address_io_bitmap_b_full, control_address_io_bitmap_b_high,
  control_address_msr_bitmaps_full, control_address_msr_bitmaps_high,
  control_vm_exit_msr_store_addr_full, control_vm_exit_msr_store_addr_high,
  control_vm_exit_msr_load_addr_full, control_vm_exit_msr_load_addr_high,
  control_vm_entry_msr_load_addr_full, control_vm_entry_msr_load_addr_high,
  control_executive_vmcs_ptr_full, control_executive_vmcs_ptr_high, control_pml_address_full,
  control_pml_address_high, control_tsc_offset_full, control_tsc_offset_high,
  control_virtual_apic_addr_full, control_virtual_apic_addr_high, control_apic_access_addr_full,
  control_apic_access_addr_high, control_posted_interrupt_descriptor_addr_full,
  control_posted_interrupt_descriptor_addr_high, control_vm_function_controls_full,
  control_vm_function_controls_high, control_eptp_full, control_eptp_high,
  control_eoi_exit_bitmap0_full, control_eoi_exit_bitmap0_high, control_eoi_exit_bitmap1_full,
  control_eoi_exit_bitmap1_high, control_eoi_exit_bitmap2_full, control_eoi_exit_bitmap2_high,
  control_eoi_exit_bitmap3_full, control_eoi_exit_bitmap3_high, control_eptp_list_addr_full,
  control_eptp_list_addr_high, control_vmread_bitmap_addr_full, control_vmread_bitmap_addr_high,
  control_vmwrite_bitmap_addr_full, control_vmwrite_bitmap_addr_high,
  control_virtualization_exception_information_addr_full,
  control_virtualization_exception_information_addr_high, control_xss_exiting_bitmap_full,
  control_xss_exiting_bitmap_high, control_encls_exiting_bitmap_full,
  control_encls_exiting_bitmap_high, control_subpage_permission_table_ptr_full,
  control_subpage_permission_table_ptr_high, control_tsc_multiplier_full,
  control_tsc_multiplier_high, control_enclv_exiting_bitmap_full, control_enclv_exiting_bitmap_high,
}
use guypervisor.Fields.Guest.{
  guest_es_selector, guest_cs_selector, guest_ss_selector, guest_ds_selector, guest_fs_selector,
  guest_gs_selector, guest_ldtr_selector, guest_tr_selector, guest_interrupt_status,
  guest_pml_index, guest_vmcs_link_ptr_full, guest_vmcs_link_ptr_high, guest_ia32_debug_ctl_full,
  guest_ia32_debug_ctl_high, guest_ia32_pat_full, guest_ia32_pat_high, guest_ia32_efer_full,
  guest_ia32_efer_high, guest_ia32_perf_global_ctrl_full, guest_ia32_perf_global_ctrl_high,
  guest_pdpte0_full, guest_pdpte0_high, guest_pdpte1_full, guest_pdpte1_high, guest_pdpte2_full,
  guest_pdpte2_high, guest_pdpte3_full, guest_pdpte3_high, guest_ia32_bndcfgs_full,
  guest_ia32_bndcfgs_high, guest_ia32_rtit_ctl_full, guest_ia32_rtit_ctl_high, guest_ia32_pkrs_full,
  guest_ia32_pkrs_high,
}
use guypervisor.Fields.Host.{
  host_es_selector, host_cs_selector, host_ss_selector, host_ds_selector, host_fs_selector,
  host_gs_selector, host_tr_selector, host_ia32_pat_full, host_ia32_pat_high, host_ia32_efer_full,
  host_ia32_efer_high, host_ia32_perf_global_ctrl_full, host_ia32_perf_global_ctrl_high,
  host_ia32_pkrs_full, host_ia32_pkrs_high,
}
use guypervisor.Fields.Exit.{guest_physical_addr_full, guest_physical_addr_high}

unfoldable pub fields16 : List VmcsField
fields16 =
    control16 control_vpid
    ∷ control16 control_posted_interrupt_notification_vector
    ∷ control16 control_eptp_index
    ∷ guest16 guest_es_selector
    ∷ guest16 guest_cs_selector
    ∷ guest16 guest_ss_selector
    ∷ guest16 guest_ds_selector
    ∷ guest16 guest_fs_selector
    ∷ guest16 guest_gs_selector
    ∷ guest16 guest_ldtr_selector
    ∷ guest16 guest_tr_selector
    ∷ guest16 guest_interrupt_status
    ∷ guest16 guest_pml_index
    ∷ host16 host_es_selector
    ∷ host16 host_cs_selector
    ∷ host16 host_ss_selector
    ∷ host16 host_ds_selector
    ∷ host16 host_fs_selector
    ∷ host16 host_gs_selector
    ∷ host16 host_tr_selector
    ∷ []

unfoldable pub fields64 : List VmcsField
fields64 =
    control64 control_address_io_bitmap_a_full
    ∷ control64 control_address_io_bitmap_a_high
    ∷ control64 control_address_io_bitmap_b_full
    ∷ control64 control_address_io_bitmap_b_high
    ∷ control64 control_address_msr_bitmaps_full
    ∷ control64 control_address_msr_bitmaps_high
    ∷ control64 control_vm_exit_msr_store_addr_full
    ∷ control64 control_vm_exit_msr_store_addr_high
    ∷ control64 control_vm_exit_msr_load_addr_full
    ∷ control64 control_vm_exit_msr_load_addr_high
    ∷ control64 control_vm_entry_msr_load_addr_full
    ∷ control64 control_vm_entry_msr_load_addr_high
    ∷ control64 control_executive_vmcs_ptr_full
    ∷ control64 control_executive_vmcs_ptr_high
    ∷ control64 control_pml_address_full
    ∷ control64 control_pml_address_high
    ∷ control64 control_tsc_offset_full
    ∷ control64 control_tsc_offset_high
    ∷ control64 control_virtual_apic_addr_full
    ∷ control64 control_virtual_apic_addr_high
    ∷ control64 control_apic_access_addr_full
    ∷ control64 control_apic_access_addr_high
    ∷ control64 control_posted_interrupt_descriptor_addr_full
    ∷ control64 control_posted_interrupt_descriptor_addr_high
    ∷ control64 control_vm_function_controls_full
    ∷ control64 control_vm_function_controls_high
    ∷ control64 control_eptp_full
    ∷ control64 control_eptp_high
    ∷ control64 control_eoi_exit_bitmap0_full
    ∷ control64 control_eoi_exit_bitmap0_high
    ∷ control64 control_eoi_exit_bitmap1_full
    ∷ control64 control_eoi_exit_bitmap1_high
    ∷ control64 control_eoi_exit_bitmap2_full
    ∷ control64 control_eoi_exit_bitmap2_high
    ∷ control64 control_eoi_exit_bitmap3_full
    ∷ control64 control_eoi_exit_bitmap3_high
    ∷ control64 control_eptp_list_addr_full
    ∷ control64 control_eptp_list_addr_high
    ∷ control64 control_vmread_bitmap_addr_full
    ∷ control64 control_vmread_bitmap_addr_high
    ∷ control64 control_vmwrite_bitmap_addr_full
    ∷ control64 control_vmwrite_bitmap_addr_high
    ∷ control64 control_virtualization_exception_information_addr_full
    ∷ control64 control_virtualization_exception_information_addr_high
    ∷ control64 control_xss_exiting_bitmap_full
    ∷ control64 control_xss_exiting_bitmap_high
    ∷ control64 control_encls_exiting_bitmap_full
    ∷ control64 control_encls_exiting_bitmap_high
    ∷ control64 control_subpage_permission_table_ptr_full
    ∷ control64 control_subpage_permission_table_ptr_high
    ∷ control64 control_tsc_multiplier_full
    ∷ control64 control_tsc_multiplier_high
    ∷ control64 control_enclv_exiting_bitmap_full
    ∷ control64 control_enclv_exiting_bitmap_high
    ∷ exit64 guest_physical_addr_full
    ∷ exit64 guest_physical_addr_high
    ∷ guest64 guest_vmcs_link_ptr_full
    ∷ guest64 guest_vmcs_link_ptr_high
    ∷ guest64 guest_ia32_debug_ctl_full
    ∷ guest64 guest_ia32_debug_ctl_high
    ∷ guest64 guest_ia32_pat_full
    ∷ guest64 guest_ia32_pat_high
    ∷ guest64 guest_ia32_efer_full
    ∷ guest64 guest_ia32_efer_high
    ∷ guest64 guest_ia32_perf_global_ctrl_full
    ∷ guest64 guest_ia32_perf_global_ctrl_high
    ∷ guest64 guest_pdpte0_full
    ∷ guest64 guest_pdpte0_high
    ∷ guest64 guest_pdpte1_full
    ∷ guest64 guest_pdpte1_high
    ∷ guest64 guest_pdpte2_full
    ∷ guest64 guest_pdpte2_high
    ∷ guest64 guest_pdpte3_full
    ∷ guest64 guest_pdpte3_high
    ∷ guest64 guest_ia32_bndcfgs_full
    ∷ guest64 guest_ia32_bndcfgs_high
    ∷ guest64 guest_ia32_rtit_ctl_full
    ∷ guest64 guest_ia32_rtit_ctl_high
    ∷ guest64 guest_ia32_pkrs_full
    ∷ guest64 guest_ia32_pkrs_high
    ∷ host64 host_ia32_pat_full
    ∷ host64 host_ia32_pat_high
    ∷ host64 host_ia32_efer_full
    ∷ host64 host_ia32_efer_high
    ∷ host64 host_ia32_perf_global_ctrl_full
    ∷ host64 host_ia32_perf_global_ctrl_high
    ∷ host64 host_ia32_pkrs_full
    ∷ host64 host_ia32_pkrs_high
    ∷ []
