-- ===== src/Fields/Exit.antt =====
-- The VM-exit information fields of the `vmcs_field_encoding` enumeration (Guypervisor/vmcs_field_index.h).
-- Each width is a data type with the constants of the enumeration, in its order, and the value
-- of each.
use guypervisor.Base.{ℕ}

pub data Exit64 : Type 0 where
  guest_physical_addr_full : Exit64
  guest_physical_addr_high : Exit64

unfoldable pub encode_exit64 : Exit64 → ℕ
encode_exit64 guest_physical_addr_full = 0x2400
encode_exit64 guest_physical_addr_high = 0x2401

pub data Exit32 : Type 0 where
  vm_instruction_error : Exit32
  exit_reason : Exit32
  vm_exit_interruption_information : Exit32
  vm_exit_interruption_error_code : Exit32
  idt_vectoring_information_field : Exit32
  idt_vectoring_error_code : Exit32
  vm_exit_instruction_length : Exit32
  vm_exit_instruction_information : Exit32

unfoldable pub encode_exit32 : Exit32 → ℕ
encode_exit32 vm_instruction_error = 0x4400
encode_exit32 exit_reason = 0x4402
encode_exit32 vm_exit_interruption_information = 0x4404
encode_exit32 vm_exit_interruption_error_code = 0x4406
encode_exit32 idt_vectoring_information_field = 0x4408
encode_exit32 idt_vectoring_error_code = 0x440a
encode_exit32 vm_exit_instruction_length = 0x440c
encode_exit32 vm_exit_instruction_information = 0x440e

pub data ExitNatural : Type 0 where
  vm_exit_qualification : ExitNatural
  vm_exit_io_rcx : ExitNatural
  vm_exit_io_rsi : ExitNatural
  vm_exit_io_rdi : ExitNatural
  vm_exit_io_rip : ExitNatural
  vm_exit_guest_linear_addr : ExitNatural

unfoldable pub encode_exit_natural : ExitNatural → ℕ
encode_exit_natural vm_exit_qualification = 0x6400
encode_exit_natural vm_exit_io_rcx = 0x6402
encode_exit_natural vm_exit_io_rsi = 0x6404
encode_exit_natural vm_exit_io_rdi = 0x6406
encode_exit_natural vm_exit_io_rip = 0x6408
encode_exit_natural vm_exit_guest_linear_addr = 0x640a
