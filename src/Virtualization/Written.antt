-- ===== src/Virtualization/Written.antt =====
-- What the functions of Guypervisor/virtualization.cpp and Guypervisor/processor.cpp that
-- `PopulateActiveVMCS` calls write to the VMCS.
use guypervisor.Machine.Status.{status_failed_vmwrite}
use guypervisor.Base.{
  subst, ◌≡◌, ◌%◌, ◌^◌, if◌then◌else◌, ℕ, zero, suc, Option, none, some, List, [], ◌∷◌, ◌==◌,
  bit_or,
}
use guypervisor.Machine.{Platform, TableRegister}
use guypervisor.Machine.Run.{Io, pure, ◌>>=◌, ◌>>◌}
use guypervisor.Machine.Written.{
  IsWriting, writing, done_writing, silences, bind-IsWriting, vmwrite-IsWriting,
  out_of_fuel-IsWriting, pure-IsWriting,
}
use guypervisor.Msr.{Msr}
use guypervisor.Fields.{VmcsField, encode}
use guypervisor.Processor.{access_rights, base_in_memory, read_gdt_entry, load_segment_selectors}
use guypervisor.Virtualization.Access.{
  read_reporting64, read_reporting, print_reporting, print_vmx_error, read_vmcs_field_generic,
  write_vmcs_field64, write_vmcs_field32, write_vmcs_field16, write_vmcs_field_natural,
}
use guypervisor.Virtualization.Dump.{dump_fields, dump_vmcs_guest_area}
use guypervisor.Virtualization.Enter.{modify_control_value}
use guypervisor.Virtualization.Write.{
  FieldWrite, word16, word32, word64, natural, write_field, write_each,
}

-- The field of a write, and the encodings of a list of them put in front of others, each in its turn.
abbrev pub target : FieldWrite → VmcsField
target (word16 f v) = f
target (word32 f v) = f
target (word64 f v) = f
target (natural f v) = f

abbrev pub targets : List FieldWrite → List ℕ → List ℕ
targets [] es = es
targets (x ∷ xs) es = targets xs (encode (target x) ∷ es)

module _ {es : List ℕ} where
  base_in_memory-IsWriting : (a : ℕ) → IsWriting es es (base_in_memory a)
  unfolding base_in_memory
  base_in_memory-IsWriting a = writing (λ w e. done_writing e)

  module _ (p : Platform) where
    access_rights-IsWriting : (selector : ℕ) → IsWriting es es (access_rights p selector)
    unfolding access_rights
    access_rights-IsWriting selector = search silences depth 80

    pub read_gdt_entry-IsWriting :
        (gdtr : TableRegister) (selector : ℕ) → IsWriting es es (read_gdt_entry p gdtr selector)
    unfolding read_gdt_entry
    read_gdt_entry-IsWriting gdtr selector =
        search (silences, access_rights-IsWriting, base_in_memory-IsWriting) depth 80

    pub load_segment_selectors-IsWriting : IsWriting es es (load_segment_selectors p)
    unfolding load_segment_selectors
    load_segment_selectors-IsWriting = search silences depth 80 fits 4000

    pub modify_control_value-IsWriting :
        (register : Msr) (requested : ℕ)
        → IsWriting es es (modify_control_value p register requested)
    unfolding modify_control_value
    modify_control_value-IsWriting register requested = search silences depth 80

    read_reporting64-IsWriting :
        (report : Io ℕ) (e : VmcsField) (old : Option ℕ)
        → IsWriting es es report
        → IsWriting es es (read_reporting64 p report e old)
    unfolding read_reporting64
    read_reporting64-IsWriting report e none f = search silences depth 80
    read_reporting64-IsWriting report e (some v) f = search silences depth 80

    read_reporting-IsWriting :
        (report : Io ℕ) (width : ℕ) (e : VmcsField) (old : Option ℕ)
        → IsWriting es es report
        → IsWriting es es (read_reporting p report width e old)
    unfolding read_reporting
    read_reporting-IsWriting report width e none f = search silences depth 80
    read_reporting-IsWriting report width e (some v) f =
        search (silences, read_reporting64-IsWriting) depth 80

    print_reporting-IsWriting :
        (report : Io ℕ) → IsWriting es es report → IsWriting es es (print_reporting p report)
    unfolding print_reporting
    print_reporting-IsWriting report f = search (silences, read_reporting-IsWriting) depth 80

    print_vmx_error-IsWriting : (fuel : ℕ) → IsWriting es es (print_vmx_error p fuel)
    unfolding print_vmx_error
    print_vmx_error-IsWriting zero = out_of_fuel-IsWriting
    print_vmx_error-IsWriting (suc fuel) =
        print_reporting-IsWriting _ (print_vmx_error-IsWriting fuel)

    module _ (fuel : ℕ) where
      dump_fields-IsWriting :
          (width : ℕ) (fs : List VmcsField) (value : Option ℕ)
          → IsWriting es es (dump_fields p fuel width fs value)
      unfolding dump_fields read_vmcs_field_generic
      dump_fields-IsWriting width [] value = search silences
      dump_fields-IsWriting width (f ∷ fs) value =
          bind-IsWriting (read_reporting-IsWriting _ width f value (print_vmx_error-IsWriting fuel))
            λ r. dump_fields-IsWriting width fs r.1

      pub dump_vmcs_guest_area-IsWriting : IsWriting es es (dump_vmcs_guest_area p fuel)
      unfolding dump_vmcs_guest_area
      dump_vmcs_guest_area-IsWriting = search (silences, dump_fields-IsWriting) depth 80

module _ (p : Platform) (fuel : ℕ) where
  reported-IsWriting :
      {es : List ℕ} (code : ℕ)
      → IsWriting es es (
          if code == 0
          then pure p.wdk.status_success
          else do print_vmx_error p fuel; pure (status_failed_vmwrite p.wdk))
  reported-IsWriting code = search (silences, print_vmx_error-IsWriting) depth 80

  -- A write, whether it succeeds or not.
  pub write_vmcs_field64-IsWriting :
      {es : List ℕ} (e : VmcsField) (v : ℕ)
      → IsWriting es (encode e ∷ es) (write_vmcs_field64 p fuel e v)
  unfolding write_vmcs_field64
  write_vmcs_field64-IsWriting e v =
      bind-IsWriting (vmwrite-IsWriting p (encode e) (v % 2 ^ 64)) λ code. reported-IsWriting code

  pub write_vmcs_field_natural-IsWriting :
      {es : List ℕ} (e : VmcsField) (v : ℕ)
      → IsWriting es (encode e ∷ es) (write_vmcs_field_natural p fuel e v)
  unfolding write_vmcs_field_natural
  write_vmcs_field_natural-IsWriting e v = write_vmcs_field64-IsWriting e v

  write_field-IsWriting :
      {es : List ℕ} (x : FieldWrite) → IsWriting es (encode (target x) ∷ es) (write_field p fuel x)
  unfolding write_field write_vmcs_field16 write_vmcs_field32 write_vmcs_field_natural
  write_field-IsWriting (word16 f v) = write_vmcs_field64-IsWriting f _
  write_field-IsWriting (word32 f v) = write_vmcs_field64-IsWriting f _
  write_field-IsWriting (word64 f v) = write_vmcs_field64-IsWriting f _
  write_field-IsWriting (natural f v) = write_vmcs_field64-IsWriting f _

  pub write_each-IsWriting :
      {es : List ℕ} (status : ℕ) (xs : List FieldWrite)
      → IsWriting es (targets xs es) (write_each p fuel status xs)
  unfolding write_each
  write_each-IsWriting status [] = pure-IsWriting status
  write_each-IsWriting {es = es} status (x ∷ xs) =
      bind-IsWriting (write_field-IsWriting x)
        λ s. write_each-IsWriting {es = encode (target x) ∷ es} (bit_or status s) xs

  -- The rules for a search: a run of writes and what follows it, and one at the end.
  pub then-IsWriting :
      {A : Type 0} {es gs : List ℕ} {k : ℕ → Io A} (status : ℕ) (xs : List FieldWrite)
      → ((s : ℕ) → IsWriting (targets xs es) gs (k s))
      → IsWriting es gs (write_each p fuel status xs >>= k)
  then-IsWriting status xs h = bind-IsWriting (write_each-IsWriting status xs) h

  pub last-IsWriting :
      {es gs : List ℕ} (status : ℕ) (xs : List FieldWrite)
      → targets xs es ≡ gs
      → IsWriting es gs (write_each p fuel status xs)
  last-IsWriting {es = es} status xs e =
      subst (λ l. IsWriting es l (write_each p fuel status xs)) e (write_each-IsWriting status xs)
