-- ===== src/Fields/Host.antt =====
-- The host-state fields of the `vmcs_field_encoding` enumeration (Guypervisor/vmcs_field_index.h).
-- Each width is a data type with the constants of the enumeration, in its order, and the value
-- of each.
use guypervisor.Base.{ℕ}

pub data Host16 : Type 0 where
  host_es_selector : Host16
  host_cs_selector : Host16
  host_ss_selector : Host16
  host_ds_selector : Host16
  host_fs_selector : Host16
  host_gs_selector : Host16
  host_tr_selector : Host16

unfoldable pub encode_host16 : Host16 → ℕ
encode_host16 host_es_selector = 0x0c00
encode_host16 host_cs_selector = 0x0c02
encode_host16 host_ss_selector = 0x0c04
encode_host16 host_ds_selector = 0x0c06
encode_host16 host_fs_selector = 0x0c08
encode_host16 host_gs_selector = 0x0c0a
encode_host16 host_tr_selector = 0x0c0c

pub data Host64 : Type 0 where
  host_ia32_pat_full : Host64
  host_ia32_pat_high : Host64
  host_ia32_efer_full : Host64
  host_ia32_efer_high : Host64
  host_ia32_perf_global_ctrl_full : Host64
  host_ia32_perf_global_ctrl_high : Host64
  host_ia32_pkrs_full : Host64
  host_ia32_pkrs_high : Host64

unfoldable pub encode_host64 : Host64 → ℕ
encode_host64 host_ia32_pat_full = 0x2c00
encode_host64 host_ia32_pat_high = 0x2c01
encode_host64 host_ia32_efer_full = 0x2c02
encode_host64 host_ia32_efer_high = 0x2c03
encode_host64 host_ia32_perf_global_ctrl_full = 0x2c04
encode_host64 host_ia32_perf_global_ctrl_high = 0x2c05
encode_host64 host_ia32_pkrs_full = 0x2c06
encode_host64 host_ia32_pkrs_high = 0x2c07

pub data Host32 : Type 0 where
  host_ia32_sysenter_cs : Host32

unfoldable pub encode_host32 : Host32 → ℕ
encode_host32 host_ia32_sysenter_cs = 0x4c00

pub data HostNatural : Type 0 where
  host_cr0 : HostNatural
  host_cr3 : HostNatural
  host_cr4 : HostNatural
  host_fs_base : HostNatural
  host_gs_base : HostNatural
  host_tr_base : HostNatural
  host_gdtr_base : HostNatural
  host_idtr_base : HostNatural
  host_ia32_sysenter_esp : HostNatural
  host_ia32_sysenter_eip : HostNatural
  host_rsp : HostNatural
  host_rip : HostNatural
  host_ia32_s_cet : HostNatural
  host_ia32_ssp : HostNatural
  host_ia32_interrupt_ssp_table_addr : HostNatural

unfoldable pub encode_host_natural : HostNatural → ℕ
encode_host_natural host_cr0 = 0x6c00
encode_host_natural host_cr3 = 0x6c02
encode_host_natural host_cr4 = 0x6c04
encode_host_natural host_fs_base = 0x6c06
encode_host_natural host_gs_base = 0x6c08
encode_host_natural host_tr_base = 0x6c0a
encode_host_natural host_gdtr_base = 0x6c0c
encode_host_natural host_idtr_base = 0x6c0e
encode_host_natural host_ia32_sysenter_esp = 0x6c10
encode_host_natural host_ia32_sysenter_eip = 0x6c12
encode_host_natural host_rsp = 0x6c14
encode_host_natural host_rip = 0x6c16
encode_host_natural host_ia32_s_cet = 0x6c18
encode_host_natural host_ia32_ssp = 0x6c1a
encode_host_natural host_ia32_interrupt_ssp_table_addr = 0x6c1c
