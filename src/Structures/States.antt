-- ===== src/Structures/States.antt =====
-- The guest state and the host state (Guypervisor/vmcs.h).
use guypervisor.Structures.{CType, scalar, struct, whole, end, ◌▷◌}
use guypervisor.Structures.ControlRegisters.{cr0, cr3, cr4}
use guypervisor.Structures.Segments.{
  descriptor_table_register, interruptibility_state, pdpte_register, segment_register,
}

-- `GuestState`
abbrev pub guest_state : CType
guest_state = struct 16 (
    whole "guestRegisterState" (
      struct 16 (
        whole "controlRegisters"
          (struct 16 (whole "cr0" cr0 ▷ whole "cr3" cr3 ▷ whole "cr4" cr4 ▷ end))
        ▷ whole "debugRegisters" (struct 16 (whole "dr7" (scalar 8) ▷ end))
        ▷ whole "contextRegisters" (
            struct 16
              (whole "rsp" (scalar 8) ▷ whole "rip" (scalar 8) ▷ whole "rflags" (scalar 8) ▷ end))
        ▷ whole "segmentRegisters" (
            struct 16 (
              whole "cs" segment_register
              ▷ whole "ss" segment_register
              ▷ whole "ds" segment_register
              ▷ whole "es" segment_register
              ▷ whole "fs" segment_register
              ▷ whole "gs" segment_register
              ▷ whole "ldtr" segment_register
              ▷ whole "tr" segment_register
              ▷ end))
        ▷ whole "descriptorTableRegisters" (
            struct 16 (
              whole "gdtr" descriptor_table_register
              ▷ whole "idtr" descriptor_table_register
              ▷ end))
        ▷ whole "modelSpecificRegisters" (
            struct 16 (
              whole "IA32_DEBUGCTL" (scalar 8)
              ▷ whole "IA32_SYSENTER_CS" (scalar 4)
              ▷ whole "IA32_SYSENTER_ESP" (scalar 8)
              ▷ whole "IA32_SYSENTER_EIP" (scalar 8)
              ▷ whole "IA32_PERF_GLOBAL_CTRL" (scalar 8)
              ▷ whole "IA32_PAT" (scalar 8)
              ▷ whole "IA32_EFER" (scalar 8)
              ▷ whole "IA32_BNDCFGS" (scalar 8)
              ▷ end))
        ▷ whole "smbase" (scalar 4)
        ▷ end))
    ▷ whole "guestNonRegisterState" (
        struct 16 (
          whole "activityState" (scalar 4)
          ▷ whole "intState" interruptibility_state
          ▷ whole "pendingDebugExceptions" (scalar 8)
          ▷ whole "vmcsLinkPointer" (scalar 8)
          ▷ whole "preemptiveTimer" (scalar 4)
          ▷ whole "pageDirectoryPtrTblEntries" pdpte_register
          ▷ whole "guestInterruptStatus" (
              struct 16 (
                whole "requestVirtualInterrupt" (scalar 1)
                ▷ whole "servicingVirtualInterrupt" (scalar 1)
                ▷ end))
          ▷ whole "PMLIndex" (scalar 2)
          ▷ end))
    ▷ end)

-- `HostState`
abbrev pub host_state : CType
host_state = struct 16 (
    whole "controlRegisters" (struct 16 (whole "cr0" cr0 ▷ whole "cr3" cr3 ▷ whole "cr4" cr4 ▷ end))
    ▷ whole "contextRegisters" (struct 16 (whole "rsp" (scalar 8) ▷ whole "rip" (scalar 8) ▷ end))
    ▷ whole "segmentRegisters" (
        struct 16 (
          whole "csSelector" (scalar 2)
          ▷ whole "ssSelector" (scalar 2)
          ▷ whole "dsSelector" (scalar 2)
          ▷ whole "esSelector" (scalar 2)
          ▷ whole "fsSelector" (scalar 2)
          ▷ whole "gsSelector" (scalar 2)
          ▷ whole "trSelector" (scalar 2)
          ▷ end))
    ▷ whole "baseAddresses" (
        struct 16 (
          whole "fs" (scalar 8)
          ▷ whole "gs" (scalar 8)
          ▷ whole "tr" (scalar 8)
          ▷ whole "gdtr" (scalar 8)
          ▷ whole "idtr" (scalar 8)
          ▷ end))
    ▷ whole "modelSpecificRegisters" (
        struct 16 (
          whole "IA32_SYSENTER_CS" (scalar 4)
          ▷ whole "IA32_SYSENTER_ESP" (scalar 8)
          ▷ whole "IA32_SYSENTER_EIP" (scalar 8)
          ▷ whole "IA32_PERF_GLOBAL_CTRL" (scalar 8)
          ▷ whole "IA32_PAT" (scalar 8)
          ▷ whole "IA32_EFER" (scalar 8)
          ▷ end))
    ▷ end)
