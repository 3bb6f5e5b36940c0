-- ===== src/Machine.antt =====
-- What the driver runs on. The processor's instructions (the compiler's intrinsics and the routines
-- of Guypervisor/vmcs_init_helpers.asm that wrap one) and the kernel's routines are not code of the
-- repository: each is a `Call`, and a `Platform` says how it answers, from all the calls before it.
-- A run of the driver passes a `World` on: the calls made, the memory, and the driver's globals.
pub mod Run
pub mod Returns
pub mod Ends
pub mod Status
pub mod Memory
pub mod Frame
pub mod Written
use guypervisor.Base.{ℕ, Bool, Option, List}

pub data Segment : Type 0 where
  es cs ss ds fs gs ldtr tr : Segment

pub data Call : Type 0 where
  -- registers
  read_cr0 read_cr3 read_cr4 read_dr7 read_eflags : Call
  write_cr0 write_cr4 write_eflags : ℕ → Call
  read_msr : ℕ → Call
  write_msr : ℕ → ℕ → Call
  read_selector : Segment → Call
  sgdt sidt : Call
  segment_limit load_access_rights : ℕ → Call
  cpuid : ℕ → Call
  -- virtual machine extensions
  vmxon vmclear vmptrld : ℕ → Call
  vmptrst vmxoff vmlaunch vmresume : Call
  vmread : ℕ → Call
  vmwrite : ℕ → ℕ → Call
  -- the kernel
  get_physical_address : ℕ → Call
  allocate_contiguous : (size highest : ℕ) → Call
  free_contiguous : ℕ → Call
  allocate_pool : ℕ → Call
  free_pool : ℕ → Call
  create_device : Call
  delete_device : ℕ → Call
  create_symbolic_link delete_symbolic_link : Call
  io_control_code : ℕ → Call
  complete_request : (irp status : ℕ) → Call
  open_section : Call
  map_view : (section address length : ℕ) → Call
  unmap_view : ℕ → Call

-- The calls made so far, the last one first.
abbrev pub Trace : Type 0
Trace = List Call

-- `GDTR` and `IDTR` (Guypervisor/processor.h).
pub record TableRegister : Type 0 where
  pub limit : ℕ
  pub base : ℕ

-- `CPUInfo` (Guypervisor/processor.h).
pub record CpuInfo : Type 0 where
  pub eax : ℕ
  pub ebx : ℕ
  pub ecx : ℕ
  pub edx : ℕ

-- The addresses that the compiler and the linker choose.
pub data Symbol : Type 0 where
  guest_code vmexit_handler guest_stack host_stack : Symbol

-- The macros and constants of wdm.h that the driver uses; a status is a 32-bit pattern.
pub record Wdk : Type 0 where
  pub nt_success : ℕ → Bool
  pub nt_error : ℕ → ℕ
  pub status_success : ℕ
  pub status_not_supported : ℕ
  pub ctl_code : (device_type function transfer access : ℕ) → ℕ
  pub file_device_unknown : ℕ
  pub method_buffered : ℕ
  pub file_any_access : ℕ
  pub page_size : ℕ
  pub irp_mj_create : ℕ
  pub irp_mj_close : ℕ
  pub irp_mj_write : ℕ
  pub irp_mj_device_control : ℕ
  pub irp_mj_maximum_function : ℕ

pub record Platform : Type 0 where
  -- the code that a call returns: of an instruction, 0 for success; of the kernel, a status
  pub code : Trace → Call → ℕ
  -- the value that a call reads or returns
  pub datum : Trace → Call → ℕ
  -- what `vmread`, `create_device`, `open_section` or `map_view` stores at its destination, if it stores
  -- anything
  pub loaded : Trace → Call → Option ℕ
  pub table : Trace → Call → TableRegister
  pub cpu_info : Trace → Call → CpuInfo
  pub address : Symbol → ℕ
  pub wdk : Wdk
  -- `sizeof(VMCS)`, `sizeof(processorContext)` and `sizeof(Device)`
  pub vmcs_size : ℕ
  pub context_size : ℕ
  pub device_size : ℕ
  -- whether `delete` of a null pointer calls `operator delete`, which the language leaves open
  pub deletes_null : Bool
  -- the bytes of a local array before it is written
  pub uninitialised : Trace → ℕ → ℕ

-- `processorContext` (Guypervisor/processor_context.h): pointers, 0 for `nullptr`.
pub record ProcessorContext : Type 0 where
  pub vmxon_region : ℕ
  pub vmcs_region : ℕ
  pub ept_pml4_entries : ℕ
  pub msr_bitmap : ℕ
  pub guest_stack : ℕ
  pub host_stack : ℕ

-- The routines that the dispatch table of the driver names.
pub data Handler : Type 0 where
  general create close write device_control : Handler

-- The `DRIVER_OBJECT`: its dispatch table, and whether its unload routine is `Device::DriverUnload`.
pub record DriverObject : Type 0 where
  pub major_function : ℕ → Option Handler
  pub unload : Bool

-- `Device` (Guypervisor/Device.h): where the object stands, and its `pDeviceObject`. Its two names do
-- not change.
pub record Device : Type 0 where
  pub location : ℕ
  pub device_object : ℕ

-- `memory` gives the byte at each address; `context` is what `kProcessorContext` points to, and `device`
-- what `kGuypervisor` points to.
pub record World : Type 0 where
  pub trace : Trace
  pub memory : ℕ → ℕ
  pub context : Option ProcessorContext
  pub device : Option Device
  pub driver : DriverObject
