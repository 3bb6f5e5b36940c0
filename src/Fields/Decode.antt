-- ===== src/Fields/Decode.antt =====
-- No two fields of the enumeration have the same encoding (Guypervisor/vmcs_field_index.h).
use guypervisor.Base.{ℕ, ◌≡◌, refl, ap, ◌==◌, if◌then◌else◌, Option, none, some, List, [], ◌∷◌}
use guypervisor.Fields.{
  VmcsField, encode, control16, guest16, host16, control64, exit64, guest64, host64, control32,
  exit32, guest32, host32, control_natural, exit_natural, guest_natural, host_natural,
}
use guypervisor.Fields.Control.{
  Control16, control_vpid, Control64, control_address_io_bitmap_a_full, Control32,
  control_pin_based_vm_execution_controls, ControlNatural, control_cr0_mask,
}
use guypervisor.Fields.Guest.{
  Guest16, guest_es_selector, Guest64, guest_vmcs_link_ptr_full, Guest32, guest_es_limit,
  GuestNatural, guest_cr0,
}
use guypervisor.Fields.Host.{
  Host16, host_es_selector, Host64, host_ia32_pat_full, Host32, host_ia32_sysenter_cs, HostNatural,
  host_cr0,
}
use guypervisor.Fields.Exit.{
  Exit64, guest_physical_addr_full, Exit32, vm_instruction_error, ExitNatural,
  vm_exit_qualification,
}
use guypervisor.Fields.Listed.{fields}

first_with : ℕ → List VmcsField → Option VmcsField
first_with n [] = none
first_with n (f ∷ fs) = let rest = first_with n fs in if encode f == n then some f else rest

decode : ℕ → Option VmcsField
unfolding fields first_with
decode n = first_with n fields

decode_control16 : (f : Control16) → decode (encode (control16 f)) ≡ some (control16 f)
unfolding decode encode
decode_control16 control_vpid = refl
decode_control16 _ = refl

decode_guest16 : (f : Guest16) → decode (encode (guest16 f)) ≡ some (guest16 f)
unfolding decode encode
decode_guest16 guest_es_selector = refl
decode_guest16 _ = refl

decode_host16 : (f : Host16) → decode (encode (host16 f)) ≡ some (host16 f)
unfolding decode encode
decode_host16 host_es_selector = refl
decode_host16 _ = refl

decode_control64 : (f : Control64) → decode (encode (control64 f)) ≡ some (control64 f)
unfolding decode encode
decode_control64 control_address_io_bitmap_a_full = refl
decode_control64 _ = refl

decode_exit64 : (f : Exit64) → decode (encode (exit64 f)) ≡ some (exit64 f)
unfolding decode encode
decode_exit64 guest_physical_addr_full = refl
decode_exit64 _ = refl

decode_guest64 : (f : Guest64) → decode (encode (guest64 f)) ≡ some (guest64 f)
unfolding decode encode
decode_guest64 guest_vmcs_link_ptr_full = refl
decode_guest64 _ = refl

decode_host64 : (f : Host64) → decode (encode (host64 f)) ≡ some (host64 f)
unfolding decode encode
decode_host64 host_ia32_pat_full = refl
decode_host64 _ = refl

decode_control32 : (f : Control32) → decode (encode (control32 f)) ≡ some (control32 f)
unfolding decode encode
decode_control32 control_pin_based_vm_execution_controls = refl
decode_control32 _ = refl

decode_exit32 : (f : Exit32) → decode (encode (exit32 f)) ≡ some (exit32 f)
unfolding decode encode
decode_exit32 vm_instruction_error = refl
decode_exit32 _ = refl

decode_guest32 : (f : Guest32) → decode (encode (guest32 f)) ≡ some (guest32 f)
unfolding decode encode
decode_guest32 guest_es_limit = refl
decode_guest32 _ = refl

decode_host32 : (f : Host32) → decode (encode (host32 f)) ≡ some (host32 f)
unfolding decode encode
decode_host32 host_ia32_sysenter_cs = refl

decode_control_natural :
    (f : ControlNatural) → decode (encode (control_natural f)) ≡ some (control_natural f)
unfolding decode encode
decode_control_natural control_cr0_mask = refl
decode_control_natural _ = refl

decode_exit_natural : (f : ExitNatural) → decode (encode (exit_natural f)) ≡ some (exit_natural f)
unfolding decode encode
decode_exit_natural vm_exit_qualification = refl
decode_exit_natural _ = refl

decode_guest_natural :
    (f : GuestNatural) → decode (encode (guest_natural f)) ≡ some (guest_natural f)
unfolding decode encode
decode_guest_natural guest_cr0 = refl
decode_guest_natural _ = refl

decode_host_natural : (f : HostNatural) → decode (encode (host_natural f)) ≡ some (host_natural f)
unfolding decode encode
decode_host_natural host_cr0 = refl
decode_host_natural _ = refl

decode-encode : (f : VmcsField) → decode (encode f) ≡ some f
decode-encode (control16 f) = decode_control16 f
decode-encode (guest16 f) = decode_guest16 f
decode-encode (host16 f) = decode_host16 f
decode-encode (control64 f) = decode_control64 f
decode-encode (exit64 f) = decode_exit64 f
decode-encode (guest64 f) = decode_guest64 f
decode-encode (host64 f) = decode_host64 f
decode-encode (control32 f) = decode_control32 f
decode-encode (exit32 f) = decode_exit32 f
decode-encode (guest32 f) = decode_guest32 f
decode-encode (host32 f) = decode_host32 f
decode-encode (control_natural f) = decode_control_natural f
decode-encode (exit_natural f) = decode_exit_natural f
decode-encode (guest_natural f) = decode_guest_natural f
decode-encode (host_natural f) = decode_host_natural f

-- Fields with the same encoding are the same.
pub encode-injective : (f g : VmcsField) → encode f ≡ encode g → f ≡ g
encode-injective f g same = cc (decode-encode f, decode-encode g, ap decode same)
