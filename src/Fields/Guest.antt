-- ===== src/Fields/Guest.antt =====
-- The guest-state fields of the `vmcs_field_encoding` enumeration (Guypervisor/vmcs_field_index.h).
-- Each width is a data type with the constants of the enumeration, in its order, and the value
-- of each.
use guypervisor.Base.{ℕ}

pub data Guest16 : Type 0 where
  guest_es_selector : Guest16
  guest_cs_selector : Guest16
  guest_ss_selector : Guest16
  guest_ds_selector : Guest16
  guest_fs_selector : Guest16
  guest_gs_selector : Guest16
  guest_ldtr_selector : Guest16
  guest_tr_selector : Guest16
  guest_interrupt_status : Guest16
  guest_pml_index : Guest16

unfoldable pub encode_guest16 : Guest16 → ℕ
encode_guest16 guest_es_selector = 0x0800
encode_guest16 guest_cs_selector = 0x0802
encode_guest16 guest_ss_selector = 0x0804
encode_guest16 guest_ds_selector = 0x0806
encode_guest16 guest_fs_selector = 0x0808
encode_guest16 guest_gs_selector = 0x080a
encode_guest16 guest_ldtr_selector = 0x080c
encode_guest16 guest_tr_selector = 0x080e
encode_guest16 guest_interrupt_status = 0x0810
encode_guest16 guest_pml_index = 0x0812

pub data Guest64 : Type 0 where
  guest_vmcs_link_ptr_full : Guest64
  guest_vmcs_link_ptr_high : Guest64
  guest_ia32_debug_ctl_full : Guest64
  guest_ia32_debug_ctl_high : Guest64
  guest_ia32_pat_full : Guest64
  guest_ia32_pat_high : Guest64
  guest_ia32_efer_full : Guest64
  guest_ia32_efer_high : Guest64
  guest_ia32_perf_global_ctrl_full : Guest64
  guest_ia32_perf_global_ctrl_high : Guest64
  guest_pdpte0_full : Guest64
  guest_pdpte0_high : Guest64
  guest_pdpte1_full : Guest64
  guest_pdpte1_high : Guest64
  guest_pdpte2_full : Guest64
  guest_pdpte2_high : Guest64
  guest_pdpte3_full : Guest64
  guest_pdpte3_high : Guest64
  guest_ia32_bndcfgs_full : Guest64
  guest_ia32_bndcfgs_high : Guest64
  guest_ia32_rtit_ctl_full : Guest64
  guest_ia32_rtit_ctl_high : Guest64
  guest_ia32_pkrs_full : Guest64
  guest_ia32_pkrs_high : Guest64

unfoldable pub encode_guest64 : Guest64 → ℕ
encode_guest64 guest_vmcs_link_ptr_full = 0x2800
encode_guest64 guest_vmcs_link_ptr_high = 0x2801
encode_guest64 guest_ia32_debug_ctl_full = 0x2802
encode_guest64 guest_ia32_debug_ctl_high = 0x2803
encode_guest64 guest_ia32_pat_full = 0x2804
encode_guest64 guest_ia32_pat_high = 0x2805
encode_guest64 guest_ia32_efer_full = 0x2806
encode_guest64 guest_ia32_efer_high = 0x2807
encode_guest64 guest_ia32_perf_global_ctrl_full = 0x2808
encode_guest64 guest_ia32_perf_global_ctrl_high = 0x2809
encode_guest64 guest_pdpte0_full = 0x280a
encode_guest64 guest_pdpte0_high = 0x280b
encode_guest64 guest_pdpte1_full = 0x280c
encode_guest64 guest_pdpte1_high = 0x280d
encode_guest64 guest_pdpte2_full = 0x280e
encode_guest64 guest_pdpte2_high = 0x280f
encode_guest64 guest_pdpte3_full = 0x2810
encode_guest64 guest_pdpte3_high = 0x2811
encode_guest64 guest_ia32_bndcfgs_full = 0x2812
encode_guest64 guest_ia32_bndcfgs_high = 0x2813
encode_guest64 guest_ia32_rtit_ctl_full = 0x2814
encode_guest64 guest_ia32_rtit_ctl_high = 0x2815
encode_guest64 guest_ia32_pkrs_full = 0x2816
encode_guest64 guest_ia32_pkrs_high = 0x2817

pub data Guest32 : Type 0 where
  guest_es_limit : Guest32
  guest_cs_limit : Guest32
  guest_ss_limit : Guest32
  guest_ds_limit : Guest32
  guest_fs_limit : Guest32
  guest_gs_limit : Guest32
  guest_ldtr_limit : Guest32
  guest_tr_limit : Guest32
  guest_gdtr_limit : Guest32
  guest_idtr_limit : Guest32
  guest_es_access_rights : Guest32
  guest_cs_access_rights : Guest32
  guest_ss_access_rights : Guest32
  guest_ds_access_rights : Guest32
  guest_fs_access_rights : Guest32
  guest_gs_access_rights : Guest32
  guest_ldtr_access_rights : Guest32
  guest_tr_access_rights : Guest32
  guest_interruptibility_state : Guest32
  guest_activity_state : Guest32
  guest_smbase : Guest32
  guest_ia32_sysenter_cs : Guest32
  guest_vmx_preemption_timer_value : Guest32

unfoldable pub encode_guest32 : Guest32 → ℕ
encode_guest32 guest_es_limit = 0x4800
encode_guest32 guest_cs_limit = 0x4802
encode_guest32 guest_ss_limit = 0x4804
encode_guest32 guest_ds_limit = 0x4806
encode_guest32 guest_fs_limit = 0x4808
encode_guest32 guest_gs_limit = 0x480a
encode_guest32 guest_ldtr_limit = 0x480c
encode_guest32 guest_tr_limit = 0x480e
encode_guest32 guest_gdtr_limit = 0x4810
encode_guest32 guest_idtr_limit = 0x4812
encode_guest32 guest_es_access_rights = 0x4814
encode_guest32 guest_cs_access_rights = 0x4816
encode_guest32 guest_ss_access_rights = 0x4818
encode_guest32 guest_ds_access_rights = 0x481a
encode_guest32 guest_fs_access_rights = 0x481c
encode_guest32 guest_gs_access_rights = 0x481e
encode_guest32 guest_ldtr_access_rights = 0x4820
encode_guest32 guest_tr_access_rights = 0x4822
encode_guest32 guest_interruptibility_state = 0x4824
encode_guest32 guest_activity_state = 0x4826
encode_guest32 guest_smbase = 0x4828
encode_guest32 guest_ia32_sysenter_cs = 0x482a
encode_guest32 guest_vmx_preemption_timer_value = 0x482c

pub data GuestNatural : Type 0 where
  guest_cr0 : GuestNatural
  guest_cr3 : GuestNatural
  guest_cr4 : GuestNatural
  guest_es_base : GuestNatural
  guest_cs_base : GuestNatural
  guest_ss_base : GuestNatural
  guest_ds_base : GuestNatural
  guest_fs_base : GuestNatural
  guest_gs_base : GuestNatural
  guest_ldtr_base : GuestNatural
  guest_tr_base : GuestNatural
  guest_gdtr_base : GuestNatural
  guest_idtr_base : GuestNatural
  guest_dr7 : GuestNatural
  guest_rsp : GuestNatural
  guest_rip : GuestNatural
  guest_r_flags : GuestNatural
  guest_pending_debug_exceptions : GuestNatural
  guest_ia32_sysenter_esp : GuestNatural
  guest_ia32_sysenter_eip : GuestNatural
  guest_ia32_s_cet : GuestNatural
  guest_ia32_ssp : GuestNatural
  guest_ia32_interrupt_ssp_table_addr : GuestNatural

unfoldable pub encode_guest_natural : GuestNatural → ℕ
encode_guest_natural guest_cr0 = 0x6800
encode_guest_natural guest_cr3 = 0x6802
encode_guest_natural guest_cr4 = 0x6804
encode_guest_natural guest_es_base = 0x6806
encode_guest_natural guest_cs_base = 0x6808
encode_guest_natural guest_ss_base = 0x680a
encode_guest_natural guest_ds_base = 0x680c
encode_guest_natural guest_fs_base = 0x680e
encode_guest_natural guest_gs_base = 0x6810
encode_guest_natural guest_ldtr_base = 0x6812
encode_guest_natural guest_tr_base = 0x6814
encode_guest_natural guest_gdtr_base = 0x6816
encode_guest_natural guest_idtr_base = 0x6818
encode_guest_natural guest_dr7 = 0x681a
encode_guest_natural guest_rsp = 0x681c
encode_guest_natural guest_rip = 0x681e
encode_guest_natural guest_r_flags = 0x6820
encode_guest_natural guest_pending_debug_exceptions = 0x6822
encode_guest_natural guest_ia32_sysenter_esp = 0x6824
encode_guest_natural guest_ia32_sysenter_eip = 0x6826
encode_guest_natural guest_ia32_s_cet = 0x6828
encode_guest_natural guest_ia32_ssp = 0x682a
encode_guest_natural guest_ia32_interrupt_ssp_table_addr = 0x682c
