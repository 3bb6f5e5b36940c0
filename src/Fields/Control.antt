-- ===== src/Fields/Control.antt =====
-- The control fields of the `vmcs_field_encoding` enumeration (Guypervisor/vmcs_field_index.h).
-- Each width is a data type with the constants of the enumeration, in its order, and the value
-- of each.
use guypervisor.Base.{ℕ}

pub data Control16 : Type 0 where
  control_vpid : Control16
  control_posted_interrupt_notification_vector : Control16
  control_eptp_index : Control16

unfoldable pub encode_control16 : Control16 → ℕ
encode_control16 control_vpid = 0x0000
encode_control16 control_posted_interrupt_notification_vector = 0x0002
encode_control16 control_eptp_index = 0x0004

pub data Control64 : Type 0 where
  control_address_io_bitmap_a_full : Control64
  control_address_io_bitmap_a_high : Control64
  control_address_io_bitmap_b_full : Control64
  control_address_io_bitmap_b_high : Control64
  control_address_msr_bitmaps_full : Control64
  control_address_msr_bitmaps_high : Control64
  control_vm_exit_msr_store_addr_full : Control64
  control_vm_exit_msr_store_addr_high : Control64
  control_vm_exit_msr_load_addr_full : Control64
  control_vm_exit_msr_load_addr_high : Control64
  control_vm_entry_msr_load_addr_full : Control64
  control_vm_entry_msr_load_addr_high : Control64
  control_executive_vmcs_ptr_full : Control64
  control_executive_vmcs_ptr_high : Control64
  control_pml_address_full : Control64
  control_pml_address_high : Control64
  control_tsc_offset_full : Control64
  control_tsc_offset_high : Control64
  control_virtual_apic_addr_full : Control64
  control_virtual_apic_addr_high : Control64
  control_apic_access_addr_full : Control64
  control_apic_access_addr_high : Control64
  control_posted_interrupt_descriptor_addr_full : Control64
  control_posted_interrupt_descriptor_addr_high : Control64
  control_vm_function_controls_full : Control64
  control_vm_function_controls_high : Control64
  control_eptp_full : Control64
  control_eptp_high : Control64
  control_eoi_exit_bitmap0_full : Control64
  control_eoi_exit_bitmap0_high : Control64
  control_eoi_exit_bitmap1_full : Control64
  control_eoi_exit_bitmap1_high : Control64
  control_eoi_exit_bitmap2_full : Control64
  control_eoi_exit_bitmap2_high : Control64
  control_eoi_exit_bitmap3_full : Control64
  control_eoi_exit_bitmap3_high : Control64
  control_eptp_list_addr_full : Control64
  control_eptp_list_addr_high : Control64
  control_vmread_bitmap_addr_full : Control64
  control_vmread_bitmap_addr_high : Control64
  control_vmwrite_bitmap_addr_full : Control64
  control_vmwrite_bitmap_addr_high : Control64
  control_virtualization_exception_information_addr_full : Control64
  control_virtualization_exception_information_addr_high : Control64
  control_xss_exiting_bitmap_full : Control64
  control_xss_exiting_bitmap_high : Control64
  control_encls_exiting_bitmap_full : Control64
  control_encls_exiting_bitmap_high : Control64
  control_subpage_permission_table_ptr_full : Control64
  control_subpage_permission_table_ptr_high : Control64
  control_tsc_multiplier_full : Control64
  control_tsc_multiplier_high : Control64
  control_enclv_exiting_bitmap_full : Control64
  control_enclv_exiting_bitmap_high : Control64

unfoldable pub encode_control64 : Control64 → ℕ
encode_control64 control_address_io_bitmap_a_full = 0x2000
encode_control64 control_address_io_bitmap_a_high = 0x2001
encode_control64 control_address_io_bitmap_b_full = 0x2002
encode_control64 control_address_io_bitmap_b_high = 0x2003
encode_control64 control_address_msr_bitmaps_full = 0x2004
encode_control64 control_address_msr_bitmaps_high = 0x2005
encode_control64 control_vm_exit_msr_store_addr_full = 0x2006
encode_control64 control_vm_exit_msr_store_addr_high = 0x2007
encode_control64 control_vm_exit_msr_load_addr_full = 0x2008
encode_control64 control_vm_exit_msr_load_addr_high = 0x2009
encode_control64 control_vm_entry_msr_load_addr_full = 0x200a
encode_control64 control_vm_entry_msr_load_addr_high = 0x200b
encode_control64 control_executive_vmcs_ptr_full = 0x200c
encode_control64 control_executive_vmcs_ptr_high = 0x200d
encode_control64 control_pml_address_full = 0x200e
encode_control64 control_pml_address_high = 0x200f
encode_control64 control_tsc_offset_full = 0x2010
encode_control64 control_tsc_offset_high = 0x2011
encode_control64 control_virtual_apic_addr_full = 0x2012
encode_control64 control_virtual_apic_addr_high = 0x2013
encode_control64 control_apic_access_addr_full = 0x2014
encode_control64 control_apic_access_addr_high = 0x2015
encode_control64 control_posted_interrupt_descriptor_addr_full = 0x2016
encode_control64 control_posted_interrupt_descriptor_addr_high = 0x2017
encode_control64 control_vm_function_controls_full = 0x2018
encode_control64 control_vm_function_controls_high = 0x2019
encode_control64 control_eptp_full = 0x201a
encode_control64 control_eptp_high = 0x201b
encode_control64 control_eoi_exit_bitmap0_full = 0x201c
encode_control64 control_eoi_exit_bitmap0_high = 0x201d
encode_control64 control_eoi_exit_bitmap1_full = 0x201e
encode_control64 control_eoi_exit_bitmap1_high = 0x201f
encode_control64 control_eoi_exit_bitmap2_full = 0x2020
encode_control64 control_eoi_exit_bitmap2_high = 0x2021
encode_control64 control_eoi_exit_bitmap3_full = 0x2022
encode_control64 control_eoi_exit_bitmap3_high = 0x2023
encode_control64 control_eptp_list_addr_full = 0x2024
encode_control64 control_eptp_list_addr_high = 0x2025
encode_control64 control_vmread_bitmap_addr_full = 0x2026
encode_control64 control_vmread_bitmap_addr_high = 0x2027
encode_control64 control_vmwrite_bitmap_addr_full = 0x2028
encode_control64 control_vmwrite_bitmap_addr_high = 0x2029
encode_control64 control_virtualization_exception_information_addr_full = 0x202a
encode_control64 control_virtualization_exception_information_addr_high = 0x202b
encode_control64 control_xss_exiting_bitmap_full = 0x202c
encode_control64 control_xss_exiting_bitmap_high = 0x202d
encode_control64 control_encls_exiting_bitmap_full = 0x202e
encode_control64 control_encls_exiting_bitmap_high = 0x202f
encode_control64 control_subpage_permission_table_ptr_full = 0x2030
encode_control64 control_subpage_permission_table_ptr_high = 0x2031
encode_control64 control_tsc_multiplier_full = 0x2032
encode_control64 control_tsc_multiplier_high = 0x2033
encode_control64 control_enclv_exiting_bitmap_full = 0x2036
encode_control64 control_enclv_exiting_bitmap_high = 0x2037

pub data Control32 : Type 0 where
  control_pin_based_vm_execution_controls : Control32
  control_primary_processor_vm_execution_controls : Control32
  control_exception_bitmap : Control32
  control_page_fault_error_code_mask : Control32
  control_page_fault_error_code_match : Control32
  control_cr3_target_count : Control32
  control_vm_exit_controls : Control32
  control_vm_exit_msr_store_count : Control32
  control_vm_exit_msr_load_count : Control32
  control_vm_entry_controls : Control32
  control_vm_entry_msr_load_count : Control32
  control_vm_entry_interruption_information_field : Control32
  control_vm_entry_exception_error_code : Control32
  control_vm_entry_instruction_length : Control32
  control_tpr_threshold : Control32
  control_secondary_processor_vm_execution_controls : Control32
  control_ple_gap : Control32
  control_ple_window : Control32

unfoldable pub encode_control32 : Control32 → ℕ
encode_control32 control_pin_based_vm_execution_controls = 0x4000
encode_control32 control_primary_processor_vm_execution_controls = 0x4002
encode_control32 control_exception_bitmap = 0x4004
encode_control32 control_page_fault_error_code_mask = 0x4006
encode_control32 control_page_fault_error_code_match = 0x4008
encode_control32 control_cr3_target_count = 0x400a
encode_control32 control_vm_exit_controls = 0x400c
encode_control32 control_vm_exit_msr_store_count = 0x400e
encode_control32 control_vm_exit_msr_load_count = 0x4010
encode_control32 control_vm_entry_controls = 0x4012
encode_control32 control_vm_entry_msr_load_count = 0x4014
encode_control32 control_vm_entry_interruption_information_field = 0x4016
encode_control32 control_vm_entry_exception_error_code = 0x4018
encode_control32 control_vm_entry_instruction_length = 0x401a
encode_control32 control_tpr_threshold = 0x401c
encode_control32 control_secondary_processor_vm_execution_controls = 0x401e
encode_control32 control_ple_gap = 0x4020
encode_control32 control_ple_window = 0x4022

pub data ControlNatural : Type 0 where
  control_cr0_mask : ControlNatural
  control_cr4_mask : ControlNatural
  control_cr0_read_shadow : ControlNatural
  control_cr4_read_shadow : ControlNatural
  control_cr3_target_value0 : ControlNatural
  control_cr3_target_value1 : ControlNatural
  control_cr3_target_value2 : ControlNatural
  control_cr3_target_value3 : ControlNatural

unfoldable pub encode_control_natural : ControlNatural → ℕ
encode_control_natural control_cr0_mask = 0x6000
encode_control_natural control_cr4_mask = 0x6002
encode_control_natural control_cr0_read_shadow = 0x6004
encode_control_natural control_cr4_read_shadow = 0x6006
encode_control_natural control_cr3_target_value0 = 0x6008
encode_control_natural control_cr3_target_value1 = 0x600a
encode_control_natural control_cr3_target_value2 = 0x600c
encode_control_natural control_cr3_target_value3 = 0x600e
