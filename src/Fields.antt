-- ===== src/Fields.antt =====
-- `vmcs_field_encoding_e` (Guypervisor/vmcs_field_index.h): the encodings of the VMCS fields, by the
-- component that they belong to and by their width.
pub mod Control
pub mod Exit
pub mod Guest
pub mod Host
pub mod Layout
pub mod Listed
pub mod Decode
use guypervisor.Base.{ℕ}
use Control.{
  Control16, Control64, Control32, ControlNatural, encode_control16, encode_control64,
  encode_control32, encode_control_natural,
}
use Exit.{Exit64, Exit32, ExitNatural, encode_exit64, encode_exit32, encode_exit_natural}
use Guest.{
  Guest16, Guest64, Guest32, GuestNatural, encode_guest16, encode_guest64, encode_guest32,
  encode_guest_natural,
}
use Host.{
  Host16, Host64, Host32, HostNatural, encode_host16, encode_host64, encode_host32,
  encode_host_natural,
}

pub data VmcsField : Type 0 where
  control16 : Control16 → VmcsField
  guest16 : Guest16 → VmcsField
  host16 : Host16 → VmcsField
  control64 : Control64 → VmcsField
  exit64 : Exit64 → VmcsField
  guest64 : Guest64 → VmcsField
  host64 : Host64 → VmcsField
  control32 : Control32 → VmcsField
  exit32 : Exit32 → VmcsField
  guest32 : Guest32 → VmcsField
  host32 : Host32 → VmcsField
  control_natural : ControlNatural → VmcsField
  exit_natural : ExitNatural → VmcsField
  guest_natural : GuestNatural → VmcsField
  host_natural : HostNatural → VmcsField

unfoldable pub encode : VmcsField → ℕ
unfolding encode_control16 encode_guest16 encode_host16 encode_control64 encode_exit64
    encode_guest64 encode_host64 encode_control32 encode_exit32 encode_guest32 encode_host32
    encode_control_natural encode_exit_natural encode_guest_natural encode_host_natural
encode (control16 f) = encode_control16 f
encode (guest16 f) = encode_guest16 f
encode (host16 f) = encode_host16 f
encode (control64 f) = encode_control64 f
encode (exit64 f) = encode_exit64 f
encode (guest64 f) = encode_guest64 f
encode (host64 f) = encode_host64 f
encode (control32 f) = encode_control32 f
encode (exit32 f) = encode_exit32 f
encode (guest32 f) = encode_guest32 f
encode (host32 f) = encode_host32 f
encode (control_natural f) = encode_control_natural f
encode (exit_natural f) = encode_exit_natural f
encode (guest_natural f) = encode_guest_natural f
encode (host_natural f) = encode_host_natural f
