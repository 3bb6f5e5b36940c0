-- ===== src/Structures/Segments.antt =====
-- The segment registers of a guest, and what blocks its interrupts (Guypervisor/vmcs.h).
use guypervisor.Structures.{CType, bits, scalar, struct, union, whole, end, ◌▷◌}

-- `AccessRights`
abbrev pub guest_access_rights : CType
guest_access_rights = struct 16 (
    bits "segmentType" 4 3
    ▷ bits "descriptorType" 4 1
    ▷ bits "descriptorPrivilegeLevel" 4 2
    ▷ bits "segmentPresent" 4 1
    ▷ bits "reserved1" 4 4
    ▷ bits "availableBySystem" 4 1
    ▷ whole "" (union 16 (bits "reserved2" 4 1 ▷ bits "bit_mode_64" 4 1 ▷ end))
    ▷ bits "defaultOperationSize" 4 1
    ▷ bits "granuality" 4 1
    ▷ bits "segmentUnusable" 4 1
    ▷ bits "reserved3" 4 16
    ▷ end)

-- `descriptorTableRegister`
abbrev pub descriptor_table_register : CType
descriptor_table_register =
    struct 16 (whole "baseAddress" (scalar 8) ▷ whole "limit" (scalar 4) ▷ end)

-- `segmentRegister`
abbrev pub segment_register : CType
segment_register = struct 16 (
    whole "selector" (scalar 2)
    ▷ whole "baseAddress" (scalar 8)
    ▷ whole "segmentLimit" (scalar 4)
    ▷ whole "accessRights" guest_access_rights
    ▷ end)

-- `InterruptibilityState`
abbrev pub interruptibility_state : CType
interruptibility_state = struct 16 (
    bits "blockedSti" 4 1
    ▷ bits "blockedMovSS" 4 1
    ▷ bits "blockedSMI" 4 1
    ▷ bits "blockedNMI" 4 1
    ▷ bits "enclaveInterruption" 4 1
    ▷ bits "reserved" 4 27
    ▷ end)

-- `PDPTERegister`
abbrev pub pdpte_register : CType
pdpte_register = struct 16 (
    whole "pdpte0" (scalar 8)
    ▷ whole "pdpte1" (scalar 8)
    ▷ whole "pdpte2" (scalar 8)
    ▷ whole "pdpte3" (scalar 8)
    ▷ end)
