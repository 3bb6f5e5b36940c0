-- ===== src/Fields/Layout.antt =====
-- The layout of an encoding (Guypervisor/vmcs_field.h, Guypervisor/vmcs_field_index.h).
use guypervisor.Base.{ℕ, ◌/◌, ◌%◌, ◌^◌, ◌≡◌, ◌⊎◌, inl, inr, refl, arith}
use guypervisor.Machine.Memory.{field}
use guypervisor.Fields.{
  VmcsField, encode, control16, guest16, host16, control64, exit64, guest64, host64, control32,
  exit32, guest32, host32, control_natural, exit_natural, guest_natural, host_natural,
}
use guypervisor.Fields.Control.{
  Control16, control_vpid, Control64, control_address_io_bitmap_a_full, Control32,
  control_pin_based_vm_execution_controls, ControlNatural, control_cr0_mask,
}
use guypervisor.Fields.Guest.{
  Guest16, guest_es_selector, Guest64, guest_vmcs_link_ptr_full, Guest32, guest_es_limit,
  GuestNatural, guest_cr0,
}
use guypervisor.Fields.Host.{
  Host16, host_es_selector, Host64, host_ia32_pat_full, Host32, host_ia32_sysenter_cs, HostNatural,
  host_cr0,
}
use guypervisor.Fields.Exit.{
  Exit64, guest_physical_addr_full, Exit32, vm_instruction_error, ExitNatural,
  vm_exit_qualification,
}

-- `ComponentType`
pub data ComponentType : Type 0 where
  control_component exit_info_component guest_state_component host_state_component : ComponentType

abbrev pub component_value : ComponentType → ℕ
component_value control_component = 0x0
component_value exit_info_component = 0x1
component_value guest_state_component = 0x2
component_value host_state_component = 0x3

-- `WidthType`
pub data WidthType : Type 0 where
  width16 width64 width32 natural_width : WidthType

abbrev pub width_value : WidthType → ℕ
width_value width16 = 0x0
width_value width64 = 0x1
width_value width32 = 0x2
width_value natural_width = 0x3

-- `FieldEncoding`: the bit fields of an encoding as the header declares them.
pub record FieldEncoding : Type 0 where
  pub access_type : ℕ
  pub index : ℕ
  pub component_type : ℕ
  pub reserved1 : ℕ
  pub field_width : ℕ
  pub reserved2 : ℕ

unfoldable pub field_encoding : ℕ → FieldEncoding
field_encoding all = record {
  access_type = field 0 1 all;
  index = field 1 8 all;
  component_type = field 9 2 all;
  reserved1 = field 11 1 all;
  field_width = field 12 2 all;
  reserved2 = field 14 18 all;
}

-- The headings of the enumeration, under which a field stands.
abbrev pub component : VmcsField → ComponentType
component (control16 f) = control_component
component (guest16 f) = guest_state_component
component (host16 f) = host_state_component
component (control64 f) = control_component
component (exit64 f) = exit_info_component
component (guest64 f) = guest_state_component
component (host64 f) = host_state_component
component (control32 f) = control_component
component (exit32 f) = exit_info_component
component (guest32 f) = guest_state_component
component (host32 f) = host_state_component
component (control_natural f) = control_component
component (exit_natural f) = exit_info_component
component (guest_natural f) = guest_state_component
component (host_natural f) = host_state_component

abbrev pub width : VmcsField → WidthType
width (control16 f) = width16
width (guest16 f) = width16
width (host16 f) = width16
width (control64 f) = width64
width (exit64 f) = width64
width (guest64 f) = width64
width (host64 f) = width64
width (control32 f) = width32
width (exit32 f) = width32
width (guest32 f) = width32
width (host32 f) = width32
width (control_natural f) = natural_width
width (exit_natural f) = natural_width
width (guest_natural f) = natural_width
width (host_natural f) = natural_width

-- Bits 10 and 11 of an encoding are the component, bits 13 and 14 the width, bit 12 and all above bit 14
-- are 0, and so is bit 0 in a field that is not 64 bits wide.
abbrev IsLaidOut : (encoding component width : ℕ) → Type 0
IsLaidOut n c w =
    (n / 2 ^ 10 % 4 ≡ c) × (n / 2 ^ 13 ≡ w) × (n / 2 ^ 12 % 2 ≡ 0) × ((w ≡ 1) ⊎ (n % 2 ≡ 0))

layout_control16 : (f : Control16) → IsLaidOut (encode (control16 f)) 0 0
unfolding encode
layout_control16 control_vpid = (refl, refl, refl, inr refl)
layout_control16 _ = (refl, refl, refl, inr refl)

layout_guest16 : (f : Guest16) → IsLaidOut (encode (guest16 f)) 2 0
unfolding encode
layout_guest16 guest_es_selector = (refl, refl, refl, inr refl)
layout_guest16 _ = (refl, refl, refl, inr refl)

layout_host16 : (f : Host16) → IsLaidOut (encode (host16 f)) 3 0
unfolding encode
layout_host16 host_es_selector = (refl, refl, refl, inr refl)
layout_host16 _ = (refl, refl, refl, inr refl)

layout_control64 : (f : Control64) → IsLaidOut (encode (control64 f)) 0 1
unfolding encode
layout_control64 control_address_io_bitmap_a_full = (refl, refl, refl, inl refl)
layout_control64 _ = (refl, refl, refl, inl refl)

layout_exit64 : (f : Exit64) → IsLaidOut (encode (exit64 f)) 1 1
unfolding encode
layout_exit64 guest_physical_addr_full = (refl, refl, refl, inl refl)
layout_exit64 _ = (refl, refl, refl, inl refl)

layout_guest64 : (f : Guest64) → IsLaidOut (encode (guest64 f)) 2 1
unfolding encode
layout_guest64 guest_vmcs_link_ptr_full = (refl, refl, refl, inl refl)
layout_guest64 _ = (refl, refl, refl, inl refl)

layout_host64 : (f : Host64) → IsLaidOut (encode (host64 f)) 3 1
unfolding encode
layout_host64 host_ia32_pat_full = (refl, refl, refl, inl refl)
layout_host64 _ = (refl, refl, refl, inl refl)

layout_control32 : (f : Control32) → IsLaidOut (encode (control32 f)) 0 2
unfolding encode
layout_control32 control_pin_based_vm_execution_controls = (refl, refl, refl, inr refl)
layout_control32 _ = (refl, refl, refl, inr refl)

layout_exit32 : (f : Exit32) → IsLaidOut (encode (exit32 f)) 1 2
unfolding encode
layout_exit32 vm_instruction_error = (refl, refl, refl, inr refl)
layout_exit32 _ = (refl, refl, refl, inr refl)

layout_guest32 : (f : Guest32) → IsLaidOut (encode (guest32 f)) 2 2
unfolding encode
layout_guest32 guest_es_limit = (refl, refl, refl, inr refl)
layout_guest32 _ = (refl, refl, refl, inr refl)

layout_host32 : (f : Host32) → IsLaidOut (encode (host32 f)) 3 2
unfolding encode
layout_host32 host_ia32_sysenter_cs = (refl, refl, refl, inr refl)

layout_control_natural : (f : ControlNatural) → IsLaidOut (encode (control_natural f)) 0 3
unfolding encode
layout_control_natural control_cr0_mask = (refl, refl, refl, inr refl)
layout_control_natural _ = (refl, refl, refl, inr refl)

layout_exit_natural : (f : ExitNatural) → IsLaidOut (encode (exit_natural f)) 1 3
unfolding encode
layout_exit_natural vm_exit_qualification = (refl, refl, refl, inr refl)
layout_exit_natural _ = (refl, refl, refl, inr refl)

layout_guest_natural : (f : GuestNatural) → IsLaidOut (encode (guest_natural f)) 2 3
unfolding encode
layout_guest_natural guest_cr0 = (refl, refl, refl, inr refl)
layout_guest_natural _ = (refl, refl, refl, inr refl)

layout_host_natural : (f : HostNatural) → IsLaidOut (encode (host_natural f)) 3 3
unfolding encode
layout_host_natural host_cr0 = (refl, refl, refl, inr refl)
layout_host_natural _ = (refl, refl, refl, inr refl)

-- Of every field of the enumeration, bits 10 and 11 of the encoding are the component under which it
-- stands, bits 13 and 14 its width, bit 12 and all above bit 14 are 0, and so is bit 0 unless it is 64
-- bits wide.
pub encode-layout :
    (f : VmcsField)
    → let n = encode f in
      let w = width_value (width f) in
      (n / 2 ^ 10 % 4 ≡ component_value (component f))
      × (n / 2 ^ 13 ≡ w)
      × (n / 2 ^ 12 % 2 ≡ 0)
      × ((w ≡ 1) ⊎ (n % 2 ≡ 0))
encode-layout (control16 f) = layout_control16 f
encode-layout (guest16 f) = layout_guest16 f
encode-layout (host16 f) = layout_host16 f
encode-layout (control64 f) = layout_control64 f
encode-layout (exit64 f) = layout_exit64 f
encode-layout (guest64 f) = layout_guest64 f
encode-layout (host64 f) = layout_host64 f
encode-layout (control32 f) = layout_control32 f
encode-layout (exit32 f) = layout_exit32 f
encode-layout (guest32 f) = layout_guest32 f
encode-layout (host32 f) = layout_host32 f
encode-layout (control_natural f) = layout_control_natural f
encode-layout (exit_natural f) = layout_exit_natural f
encode-layout (guest_natural f) = layout_guest_natural f
encode-layout (host_natural f) = layout_host_natural f

-- `FieldEncoding` puts the component one bit too low: its bit `reserved1`, of which the header says that
-- it must be zero, is the upper bit of the component, 1 in every guest-state and host-state field and 0 in
-- the others.
pub reserved1-encode :
    (f : VmcsField) → (field_encoding (encode f)).reserved1 ≡ component_value (component f) / 2
unfolding field_encoding
reserved1-encode f = omega (arith, encode-layout f)
