-- ===== src/Virtualization/Populate/Segments.antt =====
-- The segments and the descriptor tables in `PopulateActiveVMCS` (Guypervisor/virtualization.cpp).
use guypervisor.Base.{ℕ, [], ◌∷◌}
use guypervisor.Machine.{Platform, TableRegister, sgdt, sidt}
use guypervisor.Machine.Run.{Io, pure, ◌>>=◌, read_table}
use guypervisor.Msr.{read_msr, ia32_gs_base}
use guypervisor.Processor.{without_rpl, load_segment_selectors, read_gdt_entry}
use guypervisor.Fields.{guest16, guest32, guest_natural, host16, host_natural}
use guypervisor.Fields.Guest.{
  guest_cs_selector, guest_cs_limit, guest_cs_access_rights, guest_cs_base, guest_ss_selector,
  guest_ss_limit, guest_ss_access_rights, guest_ss_base, guest_ds_selector, guest_ds_limit,
  guest_ds_access_rights, guest_ds_base, guest_es_selector, guest_es_limit, guest_es_access_rights,
  guest_es_base, guest_fs_selector, guest_fs_limit, guest_fs_access_rights, guest_fs_base,
  guest_gs_selector, guest_gs_limit, guest_gs_access_rights, guest_gs_base, guest_tr_selector,
  guest_tr_limit, guest_tr_access_rights, guest_tr_base, guest_ldtr_selector, guest_ldtr_limit,
  guest_ldtr_access_rights, guest_ldtr_base, guest_gdtr_limit, guest_gdtr_base, guest_idtr_limit,
  guest_idtr_base,
}
use guypervisor.Fields.Host.{
  host_cs_selector, host_ss_selector, host_ds_selector, host_es_selector, host_fs_selector,
  host_gs_selector, host_tr_selector, host_fs_base, host_gs_base, host_tr_base, host_gdtr_base,
  host_idtr_base,
}
use guypervisor.Virtualization.Write.{word16, word32, natural, write_each}

module _ (p : Platform) (fuel : ℕ) where
  unfoldable pub populate_cs : TableRegister → (selector status : ℕ) → Io ℕ
  populate_cs gdtr selector status = do
    entry ← read_gdt_entry p gdtr selector
    write_each p fuel status (
        word16 (guest16 guest_cs_selector) selector
        ∷ word32 (guest32 guest_cs_limit) entry.limit
        ∷ word32 (guest32 guest_cs_access_rights) entry.access
        ∷ natural (guest_natural guest_cs_base) entry.base
        ∷ word16 (host16 host_cs_selector) (without_rpl selector)
        ∷ [])

  unfoldable pub populate_ss : TableRegister → (selector status : ℕ) → Io ℕ
  populate_ss gdtr selector status = do
    entry ← read_gdt_entry p gdtr selector
    write_each p fuel status (
        word16 (guest16 guest_ss_selector) selector
        ∷ word32 (guest32 guest_ss_limit) entry.limit
        ∷ word32 (guest32 guest_ss_access_rights) entry.access
        ∷ natural (guest_natural guest_ss_base) entry.base
        ∷ word16 (host16 host_ss_selector) (without_rpl selector)
        ∷ [])

  unfoldable pub populate_ds : TableRegister → (selector status : ℕ) → Io ℕ
  populate_ds gdtr selector status = do
    entry ← read_gdt_entry p gdtr selector
    write_each p fuel status (
        word16 (guest16 guest_ds_selector) selector
        ∷ word32 (guest32 guest_ds_limit) entry.limit
        ∷ word32 (guest32 guest_ds_access_rights) entry.access
        ∷ natural (guest_natural guest_ds_base) entry.base
        ∷ word16 (host16 host_ds_selector) (without_rpl selector)
        ∷ [])

  unfoldable pub populate_es : TableRegister → (selector status : ℕ) → Io ℕ
  populate_es gdtr selector status = do
    entry ← read_gdt_entry p gdtr selector
    write_each p fuel status (
        word16 (guest16 guest_es_selector) selector
        ∷ word32 (guest32 guest_es_limit) entry.limit
        ∷ word32 (guest32 guest_es_access_rights) entry.access
        ∷ natural (guest_natural guest_es_base) entry.base
        ∷ word16 (host16 host_es_selector) (without_rpl selector)
        ∷ [])

  unfoldable pub populate_fs : TableRegister → (selector status : ℕ) → Io ℕ
  populate_fs gdtr selector status = do
    entry ← read_gdt_entry p gdtr selector
    write_each p fuel status (
        word16 (guest16 guest_fs_selector) selector
        ∷ word32 (guest32 guest_fs_limit) entry.limit
        ∷ word32 (guest32 guest_fs_access_rights) entry.access
        ∷ natural (guest_natural guest_fs_base) entry.base
        ∷ natural (host_natural host_fs_base) entry.base
        ∷ word16 (host16 host_fs_selector) (without_rpl selector)
        ∷ [])

  unfoldable pub populate_gs : TableRegister → (selector status : ℕ) → Io ℕ
  populate_gs gdtr selector status = do
    entry ← read_gdt_entry p gdtr selector
    status ← write_each p fuel status (
        word16 (guest16 guest_gs_selector) selector
        ∷ word32 (guest32 guest_gs_limit) entry.limit
        ∷ word32 (guest32 guest_gs_access_rights) entry.access
        ∷ [])
    guest_base ← read_msr p ia32_gs_base
    status ← write_each p fuel status (natural (guest_natural guest_gs_base) guest_base ∷ [])
    host_base ← read_msr p ia32_gs_base
    status ← write_each p fuel status (
        natural (host_natural host_gs_base) host_base
        ∷ word16 (host16 host_gs_selector) (without_rpl selector)
        ∷ [])
    -- printed
    printed ← read_msr p ia32_gs_base
    printed ← read_msr p ia32_gs_base
    pure status

  unfoldable pub populate_tr : TableRegister → (selector status : ℕ) → Io ℕ
  populate_tr gdtr selector status = do
    entry ← read_gdt_entry p gdtr selector
    write_each p fuel status (
        word16 (guest16 guest_tr_selector) selector
        ∷ word32 (guest32 guest_tr_limit) entry.limit
        ∷ word32 (guest32 guest_tr_access_rights) entry.access
        ∷ natural (guest_natural guest_tr_base) entry.base
        ∷ natural (host_natural host_tr_base) entry.base
        ∷ word16 (host16 host_tr_selector) (without_rpl selector)
        ∷ [])

  unfoldable pub populate_ldtr : TableRegister → (selector status : ℕ) → Io ℕ
  populate_ldtr gdtr selector status = do
    entry ← read_gdt_entry p gdtr selector
    write_each p fuel status (
        word16 (guest16 guest_ldtr_selector) selector
        ∷ word32 (guest32 guest_ldtr_limit) entry.limit
        ∷ word32 (guest32 guest_ldtr_access_rights) entry.access
        ∷ natural (guest_natural guest_ldtr_base) entry.base
        ∷ [])

  unfoldable pub populate_tables : (gdtr idtr : TableRegister) (status : ℕ) → Io ℕ
  populate_tables gdtr idtr status = write_each p fuel status (
      word32 (guest32 guest_gdtr_limit) gdtr.limit
      ∷ natural (guest_natural guest_gdtr_base) gdtr.base
      ∷ natural (host_natural host_gdtr_base) gdtr.base
      ∷ word32 (guest32 guest_idtr_limit) idtr.limit
      ∷ natural (guest_natural guest_idtr_base) idtr.base
      ∷ natural (host_natural host_idtr_base) idtr.base
      ∷ [])

  unfoldable pub populate_segments : (status : ℕ) → Io ℕ
  unfolding populate_cs populate_ss populate_ds populate_es populate_fs populate_gs populate_tr
      populate_ldtr populate_tables
  populate_segments status = do
    selectors ← load_segment_selectors p
    gdtr ← read_table p sgdt
    idtr ← read_table p sidt
    status ← populate_cs gdtr selectors.cs_selector status
    status ← populate_ss gdtr selectors.ss_selector status
    status ← populate_ds gdtr selectors.ds_selector status
    status ← populate_es gdtr selectors.es_selector status
    status ← populate_fs gdtr selectors.fs_selector status
    status ← populate_gs gdtr selectors.gs_selector status
    status ← populate_tr gdtr selectors.tr_selector status
    status ← populate_ldtr gdtr selectors.ldtr_selector status
    populate_tables gdtr idtr status
