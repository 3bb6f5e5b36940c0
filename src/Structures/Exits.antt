-- ===== src/Structures/Exits.antt =====
-- What an exit reports (Guypervisor/vmcs.h).
use guypervisor.Structures.{CType, bits, scalar, struct, union, whole, end, ◌▷◌}

-- `ExitReason`
abbrev pub exit_reason_word : CType
exit_reason_word = union 16 (
    whole "fields" (
      struct 16 (
        bits "basicExitReason" 4 16
        ▷ bits "reserved1" 4 11
        ▷ bits "VMExitInclaveMode" 4 1
        ▷ bits "pendingMonitorTrapFlagVMExit" 4 1
        ▷ bits "VMExitFromRootOp" 4 1
        ▷ bits "reserved2" 4 1
        ▷ bits "VMEntryFailure" 4 1
        ▷ end))
    ▷ whole "all" (scalar 4)
    ▷ end)

-- `BasicVMExitInformation`
abbrev pub basic_vm_exit_information : CType
basic_vm_exit_information = struct 16 (
    whole "exitReason" exit_reason_word
    ▷ whole "exitQualification" (scalar 8)
    ▷ whole "guestLinearAddress" (scalar 8)
    ▷ whole "guestPhysicalAddress" (scalar 8)
    ▷ end)

-- `VMExitInterruptionInformation`
abbrev pub vm_exit_interruption_information : CType
vm_exit_interruption_information = struct 16 (
    bits "vectorOfInterrupt" 4 8
    ▷ bits "interruptionType" 4 3
    ▷ bits "errorCodeInvalid" 4 1
    ▷ bits "NMIUnblockingDueToIRET" 4 1
    ▷ bits "reserved1" 4 18
    ▷ bits "valid" 4 1
    ▷ end)

-- `VMExitVectoredEvents`
abbrev pub vm_exit_vectored_events : CType
vm_exit_vectored_events = struct 16 (
    whole "exitInterruptionInformation" vm_exit_interruption_information
    ▷ whole "interruptionErrorCode" (scalar 4)
    ▷ end)

-- `IDTVectoringInformation`
abbrev pub idt_vectoring_information : CType
idt_vectoring_information = struct 16 (
    bits "vectorOfInterrupt" 4 8
    ▷ bits "interruptionType" 4 3
    ▷ bits "errorCodeInvalid" 4 1
    ▷ bits "undefined" 4 1
    ▷ bits "reserved1" 4 18
    ▷ bits "valid" 4 1
    ▷ end)

-- `VMExitDuringEventDelivery`
abbrev pub vm_exit_during_event_delivery : CType
vm_exit_during_event_delivery =
    struct 16
      (whole "idtInformation" idt_vectoring_information ▷ whole "idtErrorCode" (scalar 4) ▷ end)

-- `VMExitDuringInstruction`
abbrev pub vm_exit_during_instruction : CType
vm_exit_during_instruction = struct 16 (
    whole "instructionLength" (scalar 4)
    ▷ whole "instructionInformation" (scalar 4)
    ▷ whole "ioRcx" (scalar 8)
    ▷ whole "ioRsi" (scalar 8)
    ▷ whole "ioRdi" (scalar 8)
    ▷ whole "ioRip" (scalar 8)
    ▷ end)

-- `VMExitInformationFields`
abbrev pub vm_exit_information_fields : CType
vm_exit_information_fields = struct 16 (
    whole "basicInformation" basic_vm_exit_information
    ▷ whole "vectoredEvents" vm_exit_vectored_events
    ▷ whole "eventDeliveryInformation" vm_exit_during_event_delivery
    ▷ whole "instructionInformation" vm_exit_during_instruction
    ▷ whole "instructionErrorField" (scalar 4)
    ▷ end)
