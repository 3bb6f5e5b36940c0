-- ===== src/Structures/Descriptors.antt =====
-- Selectors, descriptors and the descriptor table registers of Guypervisor/processor.h.
use guypervisor.Structures.{CType, bits, scalar, struct, union, whole, end, ◌▷◌}

-- `segmentSelector`
abbrev pub segment_selector_type : CType
segment_selector_type = struct 16 (
    whole "es" (scalar 2)
    ▷ whole "cs" (scalar 2)
    ▷ whole "ss" (scalar 2)
    ▷ whole "ds" (scalar 2)
    ▷ whole "fs" (scalar 2)
    ▷ whole "gs" (scalar 2)
    ▷ whole "ldtr" (scalar 2)
    ▷ whole "tr" (scalar 2)
    ▷ end)

-- `GDTEntry`
abbrev pub gdt_entry : CType
gdt_entry = struct 1 (
    whole "limit0" (scalar 2)
    ▷ whole "base0" (scalar 2)
    ▷ whole "" (
        struct 1 (
          bits "base1" 2 8
          ▷ bits "type" 2 4
          ▷ bits "system" 2 1
          ▷ bits "dpl" 2 2
          ▷ bits "present" 2 1
          ▷ end))
    ▷ whole "" (
        struct 1 (
          bits "limit1" 2 4
          ▷ bits "avl" 2 1
          ▷ bits "l" 2 1
          ▷ bits "d" 2 1
          ▷ bits "g" 2 1
          ▷ bits "base2" 2 8
          ▷ end))
    ▷ whole "base3" (scalar 4)
    ▷ whole "zeroed_out" (scalar 4)
    ▷ end)

-- `AccessRights`
abbrev pub vmx_access_rights : CType
vmx_access_rights = union 1 (
    whole "fields"
      (struct 1 (whole "crap" (scalar 2) ▷ bits "unusable" 2 1 ▷ bits "reserved" 2 15 ▷ end))
    ▷ whole "all" (scalar 4)
    ▷ end)

-- `vmxGdtEntry`
abbrev pub vmx_gdt_entry : CType
vmx_gdt_entry = union 1 (
    whole "fields" (
      struct 1 (
        whole "limit" (scalar 4)
        ▷ whole "base" (scalar 8)
        ▷ whole "access" vmx_access_rights
        ▷ end))
    ▷ end)

-- `GDTR`
abbrev pub gdtr_type : CType
gdtr_type = struct 1 (whole "limit" (scalar 2) ▷ whole "base" (scalar 8) ▷ end)

-- `IDTR`
abbrev pub idtr_type : CType
idtr_type = struct 1 (whole "limit" (scalar 2) ▷ whole "base" (scalar 8) ▷ end)
