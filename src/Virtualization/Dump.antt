-- ===== src/Virtualization/Dump.antt =====
-- `DumpVmcsGuestArea` (Guypervisor/virtualization.cpp): the fields that it reads, in their order. The
-- lines that it prints are left out.
use guypervisor.Base.{ℕ, Option, some, List, [], ◌∷◌}
use guypervisor.Machine.{Platform}
use guypervisor.Machine.Run.{Io, pure, ◌>>=◌}
use guypervisor.Fields.{VmcsField, exit64, guest16, guest32, guest64, guest_natural}
use guypervisor.Fields.Guest.{
  guest_es_selector, guest_cs_selector, guest_ss_selector, guest_ds_selector, guest_fs_selector,
  guest_gs_selector, guest_ldtr_selector, guest_tr_selector, guest_vmcs_link_ptr_full,
  guest_ia32_debug_ctl_full, guest_ia32_pat_full, guest_ia32_efer_full,
  guest_ia32_perf_global_ctrl_full, guest_pdpte0_full, guest_pdpte1_full, guest_pdpte2_full,
  guest_pdpte3_full, guest_es_limit, guest_cs_limit, guest_ss_limit, guest_ds_limit, guest_fs_limit,
  guest_gs_limit, guest_ldtr_limit, guest_tr_limit, guest_gdtr_limit, guest_idtr_limit,
  guest_es_access_rights, guest_cs_access_rights, guest_ss_access_rights, guest_ds_access_rights,
  guest_fs_access_rights, guest_gs_access_rights, guest_ldtr_access_rights, guest_tr_access_rights,
  guest_interruptibility_state, guest_activity_state, guest_smbase, guest_ia32_sysenter_cs,
  guest_cr0, guest_cr3, guest_cr4, guest_es_base, guest_cs_base, guest_ss_base, guest_ds_base,
  guest_fs_base, guest_gs_base, guest_ldtr_base, guest_tr_base, guest_gdtr_base, guest_idtr_base,
  guest_dr7, guest_rsp, guest_rip, guest_r_flags, guest_pending_debug_exceptions,
  guest_ia32_sysenter_eip, guest_ia32_sysenter_esp,
}
use guypervisor.Fields.Exit.{guest_physical_addr_full}
use guypervisor.Virtualization.Access.{read_vmcs_field_generic}

abbrev pub dumped16 : List VmcsField
dumped16 =
    guest16 guest_es_selector
    ∷ guest16 guest_cs_selector
    ∷ guest16 guest_ss_selector
    ∷ guest16 guest_ds_selector
    ∷ guest16 guest_fs_selector
    ∷ guest16 guest_gs_selector
    ∷ guest16 guest_ldtr_selector
    ∷ guest16 guest_tr_selector
    ∷ []

abbrev pub dumped64 : List VmcsField
dumped64 =
    exit64 guest_physical_addr_full
    ∷ guest64 guest_vmcs_link_ptr_full
    ∷ guest64 guest_ia32_debug_ctl_full
    ∷ guest64 guest_ia32_pat_full
    ∷ guest64 guest_ia32_efer_full
    ∷ guest64 guest_ia32_perf_global_ctrl_full
    ∷ guest64 guest_pdpte0_full
    ∷ guest64 guest_pdpte1_full
    ∷ guest64 guest_pdpte2_full
    ∷ guest64 guest_pdpte3_full
    ∷ []

abbrev pub dumped32 : List VmcsField
dumped32 =
    guest32 guest_es_limit
    ∷ guest32 guest_cs_limit
    ∷ guest32 guest_ss_limit
    ∷ guest32 guest_ds_limit
    ∷ guest32 guest_fs_limit
    ∷ guest32 guest_gs_limit
    ∷ guest32 guest_ldtr_limit
    ∷ guest32 guest_tr_limit
    ∷ guest32 guest_gdtr_limit
    ∷ guest32 guest_idtr_limit
    ∷ guest32 guest_es_access_rights
    ∷ guest32 guest_cs_access_rights
    ∷ guest32 guest_ss_access_rights
    ∷ guest32 guest_ds_access_rights
    ∷ guest32 guest_fs_access_rights
    ∷ guest32 guest_gs_access_rights
    ∷ guest32 guest_ldtr_access_rights
    ∷ guest32 guest_tr_access_rights
    ∷ guest32 guest_interruptibility_state
    ∷ guest32 guest_activity_state
    ∷ guest32 guest_smbase
    ∷ guest32 guest_ia32_sysenter_cs
    ∷ []

abbrev pub dumped_natural : List VmcsField
dumped_natural =
    guest_natural guest_cr0
    ∷ guest_natural guest_cr3
    ∷ guest_natural guest_cr4
    ∷ guest_natural guest_es_base
    ∷ guest_natural guest_cs_base
    ∷ guest_natural guest_ss_base
    ∷ guest_natural guest_ds_base
    ∷ guest_natural guest_fs_base
    ∷ guest_natural guest_gs_base
    ∷ guest_natural guest_ldtr_base
    ∷ guest_natural guest_tr_base
    ∷ guest_natural guest_gdtr_base
    ∷ guest_natural guest_idtr_base
    ∷ guest_natural guest_dr7
    ∷ guest_natural guest_rsp
    ∷ guest_natural guest_rip
    ∷ guest_natural guest_r_flags
    ∷ guest_natural guest_pending_debug_exceptions
    ∷ guest_natural guest_ia32_sysenter_eip
    ∷ guest_natural guest_ia32_sysenter_esp
    ∷ []

module _ (p : Platform) (fuel : ℕ) where
  -- The reads into one variable of `width` bits, which keeps its value where a read fails.
  unfoldable pub dump_fields : (width : ℕ) → List VmcsField → Option ℕ → Io (Option ℕ)
  dump_fields width [] value = pure value
  dump_fields width (f ∷ fs) value = do
    (status, value) ← read_vmcs_field_generic p fuel width f value
    dump_fields width fs value

  unfoldable pub dump_vmcs_guest_area : Io (Unit {0})
  unfolding dump_fields
  dump_vmcs_guest_area = do
    value_16 ← dump_fields 16 dumped16 (some 0)
    value_64 ← dump_fields 64 dumped64 (some 0)
    value_32 ← dump_fields 32 dumped32 (some 0)
    value_64 ← dump_fields 64 dumped_natural value_64
    pure tt
