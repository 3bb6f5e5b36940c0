-- ===== src/Structures/ControlRegisters.antt =====
-- The control registers of Guypervisor/processor.h.
use guypervisor.Structures.{CType, bits, scalar, struct, union, whole, end, ◌▷◌}
use guypervisor.Structures.Registers.{bitfield64}

-- `Cr0`
abbrev pub cr0 : CType
cr0 = union 16 (
    whole "bitfield" bitfield64
    ▷ whole "fields" (
        struct 16 (
          bits "pe" 4 1
          ▷ bits "mp" 4 1
          ▷ bits "em" 4 1
          ▷ bits "ts" 4 1
          ▷ bits "et" 4 1
          ▷ bits "ne" 4 1
          ▷ bits "reserved1" 4 10
          ▷ bits "wp" 4 1
          ▷ bits "reserved2" 4 1
          ▷ bits "am" 4 1
          ▷ bits "reserved3" 4 10
          ▷ bits "nw" 4 1
          ▷ bits "cd" 4 1
          ▷ bits "pg" 4 1
          ▷ bits "reserved4" 4 32
          ▷ end))
    ▷ whole "all" (scalar 8)
    ▷ end)

-- `Cr3`
abbrev pub cr3 : CType
cr3 = union 16 (
    whole "bitfield" bitfield64
    ▷ whole "fields" (
        struct 16 (
          bits "reserved1" 8 3
          ▷ bits "pwt" 8 1
          ▷ bits "pcd" 8 1
          ▷ bits "reserved2" 8 7
          ▷ bits "pdb" 8 20
          ▷ bits "reserved3" 8 32
          ▷ end))
    ▷ whole "all" (scalar 8)
    ▷ end)

-- `Cr4`
abbrev pub cr4 : CType
cr4 = union 16 (
    whole "bitfield" bitfield64
    ▷ whole "fields" (
        struct 16 (
          bits "vme" 4 1
          ▷ bits "pvi" 4 1
          ▷ bits "tsd" 4 1
          ▷ bits "de" 4 1
          ▷ bits "pse" 4 1
          ▷ bits "pae" 4 1
          ▷ bits "mce" 4 1
          ▷ bits "pge" 4 1
          ▷ bits "pce" 4 1
          ▷ bits "osfxsr" 4 1
          ▷ bits "osxmmexcpt" 4 1
          ▷ bits "umip" 4 1
          ▷ bits "la57" 4 1
          ▷ bits "vmxe" 4 1
          ▷ bits "smxe" 4 1
          ▷ bits "reserved1" 4 1
          ▷ bits "fsgsbase" 4 1
          ▷ bits "pcide" 4 1
          ▷ bits "osxsave" 4 1
          ▷ bits "reserved2" 4 1
          ▷ bits "smep" 4 1
          ▷ bits "smap" 4 1
          ▷ bits "pke" 4 1
          ▷ bits "cet" 4 1
          ▷ bits "pks" 4 1
          ▷ bits "reserved3" 4 16
          ▷ bits "reserved4" 4 23
          ▷ end))
    ▷ whole "all" (scalar 8)
    ▷ end)
