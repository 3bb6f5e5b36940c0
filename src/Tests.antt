-- ===== src/Tests.antt =====
-- Processors and states of the driver for the examples: a processor on which VMX operation can be
-- entered, ones that lack something, and the driver with its context set up.
mod Requests
mod Layout
mod Start
mod Session
mod Structures
mod Populated
mod Texts
use guypervisor.Base.{
  ℕ, ◌+◌, ◌-◌, ◌*◌, ◌/◌, ◌%◌, ◌^◌, ◌≤◌, ◌≡◌, ◌≢◌, refl, true, false, ltb, leb, ◌==◌, if◌then◌else◌,
  none, some, [], ◌∷◌, arith, ◌⊎◌, ◌↔◌, min, max,
}
use guypervisor.Machine.{
  Platform, Wdk, World, Trace, Call, ProcessorContext, vmxon, vmptrld, vmptrst, vmxoff, vmlaunch,
}
use guypervisor.Machine.Run.{out_of_fuel, ◌>>=◌}
use guypervisor.Machine.Returns.{Returns}
use guypervisor.Machine.Status.{IsDocumented}
use guypervisor.Machine.Memory.{load}
use guypervisor.Msr.{ia32_vmx_exit_ctls, msr_number}
use guypervisor.Fields.{encode, control16, guest64, host32, guest16}
use guypervisor.Fields.Control.{control_vpid}
use guypervisor.Fields.Guest.{guest_vmcs_link_ptr_full, guest_cs_selector}
use guypervisor.Fields.Host.{host_ia32_sysenter_cs}
use guypervisor.Fields.Layout.{
  field_encoding, component_value, width_value, component, width, encode-layout, reserved1-encode,
}
use guypervisor.Fields.Decode.{encode-injective}
use guypervisor.Bits.Digit.{digit}
use guypervisor.Processor.{without_rpl, gdt_entry_at, descriptor_base, read_gdt_entry}
use guypervisor.VirtualAddr.{allocate_aligned}
use guypervisor.VirtualAddr.Aligned.{answered, allocate_aligned-outcome}
use guypervisor.Detection.{vendor_is_intel, supports_vtx_operation}
use guypervisor.Detection.Answers.{vendor_is_intel-of_ne, supports_vtx_operation_iff}
use guypervisor.ProcessorContext.{initialize_processor_context, free_processor_context}
use guypervisor.ProcessorContext.Freed.{freed, free_processor_context-freed}
use guypervisor.Virtualization.Access.{print_vmx_error, write_vmcs_field64}
use guypervisor.Virtualization.Access.Recursion.{unreadable_never_returns}
use guypervisor.Virtualization.Enter.{
  initialize_vmcs, fix_control_registers, enable_feature_control, set_revision, enter_vmxon_mode,
  modify_control_value,
}
use guypervisor.Virtualization.Enter.Controls.{modify_control_value-digit}
use guypervisor.Virtualization.Populate.{populate_active_vmcs}
use guypervisor.Virtualization.Populate.Kept.{pending_write}
use guypervisor.Virtualization.Populate.Status.{populate_active_vmcs-Reports}
use guypervisor.IrpHandlers.Loaded.{initialize_vmcs-outcome}
use guypervisor.Virtualization.Enter.Registers.{
  cr0_read, cr4_read, fix_control_registers-digit, enable_feature_control-bits,
}
use guypervisor.Virtualization.Enter.Revision.{set_revision-stored}
use guypervisor.Device.{init_device}
use guypervisor.Device.Dispatch.{init_device-dispatch}
use guypervisor.Driver.{driver_entry, set_up, entry_cleanup}
use guypervisor.Driver.Entry.{driver_entry-unsupported, set_up-of_failed_device}
use guypervisor.ProcessorContext.Failed.{initialize_processor_context-of_no_memory}
use guypervisor.ProcessorContext.Ept.{initialize_ept}
use guypervisor.ProcessorContext.Tables.{initialize_ept-Apart}
use guypervisor.Detection.Flags.{is_cpuid_supported-outcome}
use guypervisor.IrpHandlers.{enter_vmx_handler, ioctl_handler}
use guypervisor.IrpHandlers.Setup.{enter_vmxon_mode-outcome}
use guypervisor.VmxMode.{VmxMode, outside, root, current, mode, clean}
use guypervisor.VmxMode.Cooperative.{IsCooperative}

-- The macros and constants of wdm.h, with its values.
abbrev pub wdm : Wdk
wdm = record {
  nt_success = λ s. ltb s (2 ^ 31);
  nt_error = λ s. if leb (3 * 2 ^ 30) s then 1 else 0;
  status_success = 0;
  status_not_supported = 0xc00000bb;
  ctl_code = λ device_type function transfer access.
      device_type * 2 ^ 16 + access * 2 ^ 14 + function * 4 + transfer;
  file_device_unknown = 0x22;
  method_buffered = 0;
  file_any_access = 0;
  page_size = 4096;
  irp_mj_create = 0x00;
  irp_mj_close = 0x02;
  irp_mj_write = 0x04;
  irp_mj_device_control = 0x0e;
  irp_mj_maximum_function = 0x1b;
}

pub wdm-IsDocumented : IsDocumented wdm
wdm-IsDocumented = record {
  success_below = λ s h. ground arith;
  failure_above = λ s low high. ground arith;
  error_above = λ s low high. ground arith;
  error_below = λ s h. ground arith;
  success_zero = refl;
  not_supported = refl;
  page_lem = refl;
  create_zero = refl;
  close_two = refl;
  write_four = refl;
  device_control_fourteen = refl;
  maximum_function = refl;
}

-- The pointer that VMPTRST stores.
abbrev pub pointer : VmxMode → ℕ
pointer (current a) = a
pointer _ = 2 ^ 64 - 1

-- Every instruction succeeds; every other number that is read is 8192.
abbrev pub answer : Trace → Call → ℕ
answer t vmptrst = pointer (mode (λ _ _. 0) t)
answer t _ = 8192

abbrev pub machine : (Trace → Call → ℕ) → Platform
machine code = record {
  code = code;
  datum = answer;
  loaded = λ _ _. some 0;
  table = λ _ _. record { limit = 127; base = 0 };
  cpu_info = λ _ _. record { eax = 39; ebx = 0x756e6547; ecx = 0x6c65746e; edx = 0x49656e69 };
  address = λ _. 65536;
  wdk = wdm;
  vmcs_size = 4096;
  context_size = 48;
  device_size = 40;
  deletes_null = false;
  uninitialised = λ _ _. 0;
}

abbrev pub willing : Platform
willing = machine (λ _ _. 0)

-- One on which VMLAUNCH fails, and every other instruction succeeds.
abbrev pub no_launch : Trace → Call → ℕ
no_launch t vmlaunch = 7
no_launch t _ = 0

abbrev pub declined : Trace → Call → ℕ
declined t vmptrst = pointer (mode no_launch t)
declined t _ = 8192

abbrev pub declining : Platform
declining = record (machine no_launch) { datum = declined }

abbrev pub refusing : Platform
refusing = machine (λ _ _. 1)

-- One without VT-x.
abbrev pub older : Platform
older = record willing {
  cpu_info = λ _ _. record { eax = 39; ebx = 0x756e6547; ecx = 0; edx = 0x49656e69 };
}

-- A kernel that has a device of the same name, and one that has no memory.
abbrev pub colliding : Platform
colliding = record willing { code = λ _ _. 0xc0000035; loaded = λ _ _. none }

abbrev pub exhausted : Platform
exhausted = record willing { datum = λ _ _. 0 }

pub willing-IsCooperative : IsCooperative willing
willing-IsCooperative = record {
  vmxon_succeeds = λ _ _. refl;
  vmclear_succeeds = λ _ _. refl;
  vmptrld_succeeds = λ _ _. refl;
  vmread_succeeds = λ _ _ _ _. refl;
  vmread_launched = λ _ _ _ _. refl;
  vmptrst_stores = λ t a at. rw at refl;
  physical_lt = λ _ _. omega arith;
}

pub declining-IsCooperative : IsCooperative declining
declining-IsCooperative = record {
  vmxon_succeeds = λ _ _. refl;
  vmclear_succeeds = λ _ _. refl;
  vmptrld_succeeds = λ _ _. refl;
  vmread_succeeds = λ _ _ _ _. refl;
  vmread_launched = λ _ _ _ _. refl;
  vmptrst_stores = λ t a at. rw at refl;
  physical_lt = λ _ _. omega arith;
}

-- The driver after the calls of a trace, with its context set up.
abbrev pub known : ProcessorContext
known = record {
  vmxon_region = 4096;
  vmcs_region = 12288;
  ept_pml4_entries = 20480;
  msr_bitmap = 0;
  guest_stack = 24576;
  host_stack = 73728;
}

abbrev pub after : Trace → World
after t = record {
  trace = t;
  memory = λ a. a;
  context = some known;
  device = none;
  driver = record { major_function = λ _. none; unload = false };
}
