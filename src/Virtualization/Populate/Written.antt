-- ===== src/Virtualization/Populate/Written.antt =====
-- The fields that `PopulateActiveVMCS` writes (Guypervisor/virtualization.cpp).
use guypervisor.Base.{ℕ, List, [], ◌∷◌, ◌++◌, refl}
use guypervisor.Machine.{Platform, TableRegister, sgdt, sidt}
use guypervisor.Machine.Written.{
  IsWriting, bind-IsWriting, silences, read_table-IsWriting, pure-IsWriting,
}
use guypervisor.Fields.{VmcsField, encode, guest_natural}
use guypervisor.Fields.Guest.{guest_pending_debug_exceptions}
use guypervisor.Virtualization.Written.{
  read_gdt_entry-IsWriting, load_segment_selectors-IsWriting, modify_control_value-IsWriting,
  write_vmcs_field_natural-IsWriting, dump_vmcs_guest_area-IsWriting, then-IsWriting,
  last-IsWriting,
}
use guypervisor.Virtualization.Populate.{populate_active_vmcs}
use guypervisor.Virtualization.Populate.Controls.{write_controls, populate_controls}
use guypervisor.Virtualization.Populate.Segments.{
  populate_cs, populate_ss, populate_ds, populate_es, populate_fs, populate_gs, populate_tr,
  populate_ldtr, populate_tables, populate_segments,
}
use guypervisor.Virtualization.Populate.Registers.{
  populate_control_registers, populate_contexts, populate_sysenter, populate_registers,
}
use guypervisor.Virtualization.Populate.Targets.{
  populated, segment_fields, control_fields, cs_fields, ss_fields, ds_fields, es_fields, fs_fields,
  gs_fields, tr_fields, ldtr_fields, tables_fields, control_register_fields, context_fields,
  sysenter_fields, write_fields,
}

-- The encodings of fields in front of others, each in its turn.
abbrev pub encodings : List VmcsField → List ℕ → List ℕ
encodings [] es = es
encodings (f ∷ fs) es = encodings fs (encode f ∷ es)

module _ (p : Platform) (fuel : ℕ) where
  write_controls-IsWriting :
      {es : List ℕ} → IsWriting es (encodings write_fields es) (write_controls p fuel)
  unfolding write_controls
  write_controls-IsWriting =
      search (silences, modify_control_value-IsWriting, then-IsWriting, last-IsWriting) depth 80

  populate_controls-IsWriting :
      {es : List ℕ} → IsWriting es (encodings control_fields es) (populate_controls p fuel)
  unfolding populate_controls
  populate_controls-IsWriting = bind-IsWriting write_controls-IsWriting λ status.
      write_vmcs_field_natural-IsWriting p fuel (guest_natural guest_pending_debug_exceptions) 0

  module _ {es : List ℕ} where
    module _ (gdtr : TableRegister) (selector status : ℕ) where
      populate_cs-IsWriting :
          IsWriting es (encodings cs_fields es) (populate_cs p fuel gdtr selector status)
      unfolding populate_cs
      populate_cs-IsWriting =
          search (silences, read_gdt_entry-IsWriting, then-IsWriting, last-IsWriting) depth 80

      populate_ss-IsWriting :
          IsWriting es (encodings ss_fields es) (populate_ss p fuel gdtr selector status)
      unfolding populate_ss
      populate_ss-IsWriting =
          search (silences, read_gdt_entry-IsWriting, then-IsWriting, last-IsWriting) depth 80

      populate_ds-IsWriting :
          IsWriting es (encodings ds_fields es) (populate_ds p fuel gdtr selector status)
      unfolding populate_ds
      populate_ds-IsWriting =
          search (silences, read_gdt_entry-IsWriting, then-IsWriting, last-IsWriting) depth 80

      populate_es-IsWriting :
          IsWriting es (encodings es_fields es) (populate_es p fuel gdtr selector status)
      unfolding populate_es
      populate_es-IsWriting =
          search (silences, read_gdt_entry-IsWriting, then-IsWriting, last-IsWriting) depth 80

      populate_fs-IsWriting :
          IsWriting es (encodings fs_fields es) (populate_fs p fuel gdtr selector status)
      unfolding populate_fs
      populate_fs-IsWriting =
          search (silences, read_gdt_entry-IsWriting, then-IsWriting, last-IsWriting) depth 80

      populate_gs-IsWriting :
          IsWriting es (encodings gs_fields es) (populate_gs p fuel gdtr selector status)
      unfolding populate_gs
      populate_gs-IsWriting =
          search (silences, read_gdt_entry-IsWriting, then-IsWriting, last-IsWriting) depth 80

      populate_tr-IsWriting :
          IsWriting es (encodings tr_fields es) (populate_tr p fuel gdtr selector status)
      unfolding populate_tr
      populate_tr-IsWriting =
          search (silences, read_gdt_entry-IsWriting, then-IsWriting, last-IsWriting) depth 80

      populate_ldtr-IsWriting :
          IsWriting es (encodings ldtr_fields es) (populate_ldtr p fuel gdtr selector status)
      unfolding populate_ldtr
      populate_ldtr-IsWriting =
          search (silences, read_gdt_entry-IsWriting, then-IsWriting, last-IsWriting) depth 80

    populate_tables-IsWriting :
        (gdtr idtr : TableRegister) (status : ℕ)
        → IsWriting es (encodings tables_fields es) (populate_tables p fuel gdtr idtr status)
    unfolding populate_tables
    populate_tables-IsWriting gdtr idtr status = last-IsWriting p fuel status _ refl

    module _ (status : ℕ) where
      populate_control_registers-IsWriting :
          IsWriting es
            (encodings control_register_fields es)
            (populate_control_registers p fuel status)
      unfolding populate_control_registers
      populate_control_registers-IsWriting =
          search (silences, then-IsWriting, last-IsWriting) depth 80 fits 4000

      populate_contexts-IsWriting :
          IsWriting es (encodings context_fields es) (populate_contexts p fuel status)
      unfolding populate_contexts
      populate_contexts-IsWriting = search (silences, then-IsWriting, last-IsWriting) depth 80

      populate_sysenter-IsWriting :
          IsWriting es (encodings sysenter_fields es) (populate_sysenter p fuel status)
      unfolding populate_sysenter
      populate_sysenter-IsWriting = search (silences, then-IsWriting, last-IsWriting) depth 80

  populate_registers-IsWriting :
      {es : List ℕ} (status : ℕ)
      → IsWriting es
          (encodings (control_register_fields ++ (context_fields ++ sysenter_fields)) es)
          (populate_registers p fuel status)
  unfolding populate_registers
  populate_registers-IsWriting status =
      bind-IsWriting (populate_control_registers-IsWriting status)
        λ s1. bind-IsWriting (populate_contexts-IsWriting s1) λ s2. populate_sysenter-IsWriting s2

  populate_segments-IsWriting :
      {es : List ℕ} (status : ℕ)
      → IsWriting es (encodings segment_fields es) (populate_segments p fuel status)
  unfolding populate_segments
  populate_segments-IsWriting status =
      bind-IsWriting (load_segment_selectors-IsWriting p) λ selectors.
        bind-IsWriting (read_table-IsWriting p sgdt refl) λ gdtr.
          bind-IsWriting (read_table-IsWriting p sidt refl) λ idtr.
            bind-IsWriting (populate_cs-IsWriting gdtr selectors.cs_selector status) λ s1.
              bind-IsWriting (populate_ss-IsWriting gdtr selectors.ss_selector s1) λ s2.
                bind-IsWriting (populate_ds-IsWriting gdtr selectors.ds_selector s2) λ s3.
                  bind-IsWriting (populate_es-IsWriting gdtr selectors.es_selector s3) λ s4.
                    bind-IsWriting (populate_fs-IsWriting gdtr selectors.fs_selector s4) λ s5.
                      bind-IsWriting (populate_gs-IsWriting gdtr selectors.gs_selector s5) λ s6.
                        bind-IsWriting (populate_tr-IsWriting gdtr selectors.tr_selector s6) λ s7.
                          bind-IsWriting (populate_ldtr-IsWriting gdtr selectors.ldtr_selector s7)
                            λ s8. populate_tables-IsWriting gdtr idtr s8

  pub populate_active_vmcs-IsWriting :
      {es : List ℕ} → IsWriting es (encodings populated es) (populate_active_vmcs p fuel)
  unfolding populate_active_vmcs
  populate_active_vmcs-IsWriting = bind-IsWriting populate_controls-IsWriting λ s1.
      bind-IsWriting (populate_segments-IsWriting s1) λ s2.
        bind-IsWriting (populate_registers-IsWriting s2)
          λ s3. bind-IsWriting (dump_vmcs_guest_area-IsWriting p fuel) λ _. pure-IsWriting s3
