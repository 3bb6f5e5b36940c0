-- ===== src/Lib.antt =====
-- Guypervisor: a Windows driver that enters VMX operation and starts a guest on the processor that
-- it runs on.
--
-- The parts. `DriverEntry` (Guypervisor/Driver.cpp) asks the processor whether it has VT-x, creates
-- the device and its symbolic link, allocates the regions and stacks that VMX operation needs, and
-- calls `EnterVmxHandler`, which a request from user mode calls too. That handler enters VMX
-- operation, makes a VMCS current, fills it in, launches the guest, and cleans up.
--
-- The files. `Machine` is what the driver runs on: a `Call` for each instruction and kernel routine,
-- a `Platform` that answers calls from all the calls before, and a `World` that a run passes on: the
-- calls made, the memory by bytes, and the globals `kProcessorContext` and `kGuypervisor`. Run has
-- the runs, which return, crash on a null pointer, give the processor to the guest or use up their
-- fuel, Returns the predicate that a run returns with a postcondition, Ends the one that it returns
-- or the guest runs, Status the codes of Guypervisor/custom_status_codes.h and what wdm.h documents
-- of its macros, Memory little-endian access and bit fields. `Fields` is
-- Guypervisor/vmcs_field_index.h and Guypervisor/vmcs_field.h, `Msr` is Guypervisor/msr.h and
-- msr.cpp, `Processor` is Guypervisor/processor.h and processor.cpp, `VirtualAddr` is
-- Guypervisor/virtual_addr_helpers.cpp (Physical: the access to physical memory), `ErrorCodes` is
-- Guypervisor/error_codes.cpp, `UserMode` is
-- Guypervisor_usermode/Guypervisor_usermode/Guypervisor_usermode/Guypervisor_usermode.cpp,
-- `Detection` is Guypervisor/virtualization_detection.cpp and virtualization_helpers.asm, `Driver`
-- is Guypervisor/Driver.cpp, `Device` is Guypervisor/Device.cpp, `ProcessorContext` is
-- Guypervisor/processor_context.cpp, `Virtualization` is Guypervisor/virtualization.cpp, by what its
-- functions do: Access (fields of the VMCS), Enter (VMX operation), Write and Populate
-- (`PopulateActiveVMCS`), Dump, Guest (the loop of `guest_code`, Guypervisor/vmcs_init_helpers.asm,
-- with the exit handler); `IrpHandlers` is Guypervisor/irp_handlers.cpp. `Session` is the life of
-- the started driver: requests of the kernel, each given to the handler that the dispatch table
-- names for it, from the state that `DriverEntry` leaves (Driver/Started) on; what may happen to the
-- machine is a step relation. Machine/Frame says what a run leaves alone, and Machine/Written which
-- fields of the VMCS it writes, with a rule for each operation of a run. `Structures` is the types
-- that Guypervisor/vmcs.h, paging.h, msr.h and processor.h declare, as data: `size_of` and
-- `members_of` lay them out by the rules of the compiler for x64 (a bit field shares the unit of the
-- one before it where their declared types have one size and it still fits). A function
-- `EnterVmxonMode` of the source is `enter_vmxon_mode`. `VmxMode` is no code: it is the protocol of
-- the VMX instructions, a state machine over the calls, that the handler is measured by. A VMLAUNCH
-- or VMRESUME that succeeds is the end of the run: the caller does not run again, since the exits of
-- the guest go to `vmexit_handler`.
--
-- Numbers are natural numbers with the wrap-around of their width written out, and a status is a
-- 32-bit pattern. Pointers are addresses, 0 for `nullptr`. `ReadVMCSField64` and `PrintVMXError`
-- call each other without a bound, so what calls them runs on fuel, which counts the nested calls of
-- `PrintVMXError`: one is enough wherever the current VMCS can be read, and where it cannot no fuel
-- is.
--
-- Not modelled: printing (Guypervisor/print.h), so the texts of `ErrorCodes` stand by themselves;
-- the registers of the guest, whose only calls of the driver are its exits; VM entries that fail
-- while they load the state of the guest, after which neither the caller nor the guest runs.
mod Base
mod Bits
mod Tests
pub mod Machine
pub mod Fields
pub mod Msr
pub mod Processor
pub mod VirtualAddr
pub mod Detection
pub mod Device
pub mod Driver
pub mod Session
pub mod Structures
pub mod ErrorCodes
pub mod UserMode
pub mod ProcessorContext
pub mod VmxMode
pub mod Virtualization
pub mod IrpHandlers
