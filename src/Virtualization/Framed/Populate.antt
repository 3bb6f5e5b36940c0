-- ===== src/Virtualization/Framed/Populate.antt =====
-- What `PopulateActiveVMCS` leaves alone (Guypervisor/virtualization.cpp).
use guypervisor.Base.{ℕ, Option, List, [], ◌∷◌, bit_or}
use guypervisor.Machine.{Platform, TableRegister}
use guypervisor.Machine.Frame.{IsFramed, framed, frames, done_same, IsSame-refl, bind-IsFramed}
use guypervisor.Processor.{access_rights, base_in_memory, read_gdt_entry, load_segment_selectors}
use guypervisor.Fields.{VmcsField}
use guypervisor.Virtualization.Access.{read_vmcs_field_generic}
use guypervisor.Virtualization.Dump.{dump_fields, dump_vmcs_guest_area}
use guypervisor.Virtualization.Write.{
  FieldWrite, word16, word32, word64, natural, write_field, write_each,
}
use guypervisor.Virtualization.Populate.{populate_active_vmcs}
use guypervisor.Virtualization.Populate.Controls.{write_controls, populate_controls}
use guypervisor.Virtualization.Populate.Segments.{
  populate_cs, populate_ss, populate_ds, populate_es, populate_fs, populate_gs, populate_tr,
  populate_ldtr, populate_tables, populate_segments,
}
use guypervisor.Virtualization.Populate.Registers.{
  populate_control_registers, populate_contexts, populate_sysenter, populate_registers,
}
use guypervisor.Virtualization.Framed.{
  read_reporting-IsFramed, print_vmx_error-IsFramed, modify_control_value-IsFramed,
  write_vmcs_field64-IsFramed, write_vmcs_field32-IsFramed, write_vmcs_field16-IsFramed,
  write_vmcs_field_natural-IsFramed,
}

base_in_memory-IsFramed : (a : ℕ) → IsFramed (base_in_memory a)
unfolding base_in_memory
base_in_memory-IsFramed a = framed (λ w. done_same (IsSame-refl w))

module _ (p : Platform) where
  access_rights-IsFramed : (selector : ℕ) → IsFramed (access_rights p selector)
  unfolding access_rights
  access_rights-IsFramed selector = search frames depth 80

  read_gdt_entry-IsFramed :
      (gdtr : TableRegister) (selector : ℕ) → IsFramed (read_gdt_entry p gdtr selector)
  unfolding read_gdt_entry
  read_gdt_entry-IsFramed gdtr selector =
      search (frames, access_rights-IsFramed, base_in_memory-IsFramed) depth 80

  load_segment_selectors-IsFramed : IsFramed (load_segment_selectors p)
  unfolding load_segment_selectors
  load_segment_selectors-IsFramed = search frames depth 80 fits 4000

  module _ (fuel : ℕ) where
    write_field-IsFramed : (x : FieldWrite) → IsFramed (write_field p fuel x)
    unfolding write_field
    write_field-IsFramed (word16 f v) = write_vmcs_field16-IsFramed p fuel f v
    write_field-IsFramed (word32 f v) = write_vmcs_field32-IsFramed p fuel f v
    write_field-IsFramed (word64 f v) = write_vmcs_field64-IsFramed p fuel f v
    write_field-IsFramed (natural f v) = write_vmcs_field_natural-IsFramed p fuel f v

    write_each-IsFramed :
        (status : ℕ) (xs : List FieldWrite) → IsFramed (write_each p fuel status xs)
    unfolding write_each
    write_each-IsFramed status [] = search frames
    write_each-IsFramed status (x ∷ xs) =
        bind-IsFramed (write_field-IsFramed x) λ s. write_each-IsFramed (bit_or status s) xs

    dump_fields-IsFramed :
        (width : ℕ) (fs : List VmcsField) (value : Option ℕ)
        → IsFramed (dump_fields p fuel width fs value)
    unfolding dump_fields read_vmcs_field_generic
    dump_fields-IsFramed width [] value = search frames
    dump_fields-IsFramed width (f ∷ fs) value =
        bind-IsFramed (read_reporting-IsFramed p _ width f value (print_vmx_error-IsFramed p fuel))
          λ r. dump_fields-IsFramed width fs r.1

    dump_vmcs_guest_area-IsFramed : IsFramed (dump_vmcs_guest_area p fuel)
    unfolding dump_vmcs_guest_area
    dump_vmcs_guest_area-IsFramed = search (frames, dump_fields-IsFramed) depth 80

    write_controls-IsFramed : IsFramed (write_controls p fuel)
    unfolding write_controls
    write_controls-IsFramed =
        search (frames, write_each-IsFramed, modify_control_value-IsFramed p) depth 80 fits 4000

    populate_controls-IsFramed : IsFramed (populate_controls p fuel)
    unfolding populate_controls
    populate_controls-IsFramed =
        search (frames, write_controls-IsFramed, write_vmcs_field_natural-IsFramed p) depth 80

    populate_cs-IsFramed :
        (gdtr : TableRegister) (selector status : ℕ)
        → IsFramed (populate_cs p fuel gdtr selector status)
    unfolding populate_cs
    populate_cs-IsFramed gdtr selector status =
        search (frames, read_gdt_entry-IsFramed, write_each-IsFramed) depth 80

    populate_ss-IsFramed :
        (gdtr : TableRegister) (selector status : ℕ)
        → IsFramed (populate_ss p fuel gdtr selector status)
    unfolding populate_ss
    populate_ss-IsFramed gdtr selector status =
        search (frames, read_gdt_entry-IsFramed, write_each-IsFramed) depth 80

    populate_ds-IsFramed :
        (gdtr : TableRegister) (selector status : ℕ)
        → IsFramed (populate_ds p fuel gdtr selector status)
    unfolding populate_ds
    populate_ds-IsFramed gdtr selector status =
        search (frames, read_gdt_entry-IsFramed, write_each-IsFramed) depth 80

    populate_es-IsFramed :
        (gdtr : TableRegister) (selector status : ℕ)
        → IsFramed (populate_es p fuel gdtr selector status)
    unfolding populate_es
    populate_es-IsFramed gdtr selector status =
        search (frames, read_gdt_entry-IsFramed, write_each-IsFramed) depth 80

    populate_fs-IsFramed :
        (gdtr : TableRegister) (selector status : ℕ)
        → IsFramed (populate_fs p fuel gdtr selector status)
    unfolding populate_fs
    populate_fs-IsFramed gdtr selector status =
        search (frames, read_gdt_entry-IsFramed, write_each-IsFramed) depth 80

    populate_gs-IsFramed :
        (gdtr : TableRegister) (selector status : ℕ)
        → IsFramed (populate_gs p fuel gdtr selector status)
    unfolding populate_gs
    populate_gs-IsFramed gdtr selector status =
        search (frames, read_gdt_entry-IsFramed, write_each-IsFramed) depth 80

    populate_tr-IsFramed :
        (gdtr : TableRegister) (selector status : ℕ)
        → IsFramed (populate_tr p fuel gdtr selector status)
    unfolding populate_tr
    populate_tr-IsFramed gdtr selector status =
        search (frames, read_gdt_entry-IsFramed, write_each-IsFramed) depth 80

    populate_ldtr-IsFramed :
        (gdtr : TableRegister) (selector status : ℕ)
        → IsFramed (populate_ldtr p fuel gdtr selector status)
    unfolding populate_ldtr
    populate_ldtr-IsFramed gdtr selector status =
        search (frames, read_gdt_entry-IsFramed, write_each-IsFramed) depth 80

    populate_segments-IsFramed : (status : ℕ) → IsFramed (populate_segments p fuel status)
    unfolding populate_segments populate_tables
    populate_segments-IsFramed status =
        search
          (
            frames, load_segment_selectors-IsFramed, populate_cs-IsFramed, populate_ss-IsFramed,
            populate_ds-IsFramed, populate_es-IsFramed, populate_fs-IsFramed, populate_gs-IsFramed,
            populate_tr-IsFramed, populate_ldtr-IsFramed, write_each-IsFramed,
          )
          depth 80 fits 8000

    populate_registers-IsFramed : (status : ℕ) → IsFramed (populate_registers p fuel status)
    unfolding populate_registers populate_control_registers populate_contexts populate_sysenter
    populate_registers-IsFramed status = search (frames, write_each-IsFramed) depth 120 fits 16000

    pub populate_active_vmcs-IsFramed : IsFramed (populate_active_vmcs p fuel)
    unfolding populate_active_vmcs
    populate_active_vmcs-IsFramed =
        search
          (
            frames, populate_controls-IsFramed, populate_segments-IsFramed,
            populate_registers-IsFramed, dump_vmcs_guest_area-IsFramed,
          )
          depth 80
