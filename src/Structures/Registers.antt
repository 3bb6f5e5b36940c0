-- ===== src/Structures/Registers.antt =====
-- The bit structures of Guypervisor/processor.h, and the answers of CPUID.
use guypervisor.Structures.{CType, array, bits, scalar, struct, union, whole, end, ◌▷◌}

-- `Bitfield64`
abbrev pub bitfield64 : CType
bitfield64 = struct 16 (
    bits "bit0" 1 1
    ▷ bits "bit1" 1 1
    ▷ bits "bit2" 1 1
    ▷ bits "bit3" 1 1
    ▷ bits "bit4" 1 1
    ▷ bits "bit5" 1 1
    ▷ bits "bit6" 1 1
    ▷ bits "bit7" 1 1
    ▷ bits "bit8" 1 1
    ▷ bits "bit9" 1 1
    ▷ bits "bit10" 1 1
    ▷ bits "bit11" 1 1
    ▷ bits "bit12" 1 1
    ▷ bits "bit13" 1 1
    ▷ bits "bit14" 1 1
    ▷ bits "bit15" 1 1
    ▷ bits "bit16" 1 1
    ▷ bits "bit17" 1 1
    ▷ bits "bit18" 1 1
    ▷ bits "bit19" 1 1
    ▷ bits "bit20" 1 1
    ▷ bits "bit21" 1 1
    ▷ bits "bit22" 1 1
    ▷ bits "bit23" 1 1
    ▷ bits "bit24" 1 1
    ▷ bits "bit25" 1 1
    ▷ bits "bit26" 1 1
    ▷ bits "bit27" 1 1
    ▷ bits "bit28" 1 1
    ▷ bits "bit29" 1 1
    ▷ bits "bit30" 1 1
    ▷ bits "bit31" 1 1
    ▷ bits "bit32" 1 1
    ▷ bits "bit33" 1 1
    ▷ bits "bit34" 1 1
    ▷ bits "bit35" 1 1
    ▷ bits "bit36" 1 1
    ▷ bits "bit37" 1 1
    ▷ bits "bit38" 1 1
    ▷ bits "bit39" 1 1
    ▷ bits "bit40" 1 1
    ▷ bits "bit41" 1 1
    ▷ bits "bit42" 1 1
    ▷ bits "bit43" 1 1
    ▷ bits "bit44" 1 1
    ▷ bits "bit45" 1 1
    ▷ bits "bit46" 1 1
    ▷ bits "bit47" 1 1
    ▷ bits "bit48" 1 1
    ▷ bits "bit49" 1 1
    ▷ bits "bit50" 1 1
    ▷ bits "bit51" 1 1
    ▷ bits "bit52" 1 1
    ▷ bits "bit53" 1 1
    ▷ bits "bit54" 1 1
    ▷ bits "bit55" 1 1
    ▷ bits "bit56" 1 1
    ▷ bits "bit57" 1 1
    ▷ bits "bit58" 1 1
    ▷ bits "bit59" 1 1
    ▷ bits "bit60" 1 1
    ▷ bits "bit61" 1 1
    ▷ bits "bit62" 1 1
    ▷ bits "bit63" 1 1
    ▷ end)

-- `Register32`
abbrev pub register32 : CType
register32 = union 16 (
    whole "bitfield" (
      struct 16 (
        bits "bit0" 1 1
        ▷ bits "bit1" 1 1
        ▷ bits "bit2" 1 1
        ▷ bits "bit3" 1 1
        ▷ bits "bit4" 1 1
        ▷ bits "bit5" 1 1
        ▷ bits "bit6" 1 1
        ▷ bits "bit7" 1 1
        ▷ bits "bit8" 1 1
        ▷ bits "bit9" 1 1
        ▷ bits "bit10" 1 1
        ▷ bits "bit11" 1 1
        ▷ bits "bit12" 1 1
        ▷ bits "bit13" 1 1
        ▷ bits "bit14" 1 1
        ▷ bits "bit15" 1 1
        ▷ bits "bit16" 1 1
        ▷ bits "bit17" 1 1
        ▷ bits "bit18" 1 1
        ▷ bits "bit19" 1 1
        ▷ bits "bit20" 1 1
        ▷ bits "bit21" 1 1
        ▷ bits "bit22" 1 1
        ▷ bits "bit23" 1 1
        ▷ bits "bit24" 1 1
        ▷ bits "bit25" 1 1
        ▷ bits "bit26" 1 1
        ▷ bits "bit27" 1 1
        ▷ bits "bit28" 1 1
        ▷ bits "bit29" 1 1
        ▷ bits "bit30" 1 1
        ▷ bits "bit31" 1 1
        ▷ end))
    ▷ whole "rev_bitfield" (
        struct 16 (
          bits "bit31" 1 1
          ▷ bits "bit30" 1 1
          ▷ bits "bit29" 1 1
          ▷ bits "bit28" 1 1
          ▷ bits "bit27" 1 1
          ▷ bits "bit26" 1 1
          ▷ bits "bit25" 1 1
          ▷ bits "bit24" 1 1
          ▷ bits "bit23" 1 1
          ▷ bits "bit22" 1 1
          ▷ bits "bit21" 1 1
          ▷ bits "bit20" 1 1
          ▷ bits "bit19" 1 1
          ▷ bits "bit18" 1 1
          ▷ bits "bit17" 1 1
          ▷ bits "bit16" 1 1
          ▷ bits "bit15" 1 1
          ▷ bits "bit14" 1 1
          ▷ bits "bit13" 1 1
          ▷ bits "bit12" 1 1
          ▷ bits "bit11" 1 1
          ▷ bits "bit10" 1 1
          ▷ bits "bit9" 1 1
          ▷ bits "bit8" 1 1
          ▷ bits "bit7" 1 1
          ▷ bits "bit6" 1 1
          ▷ bits "bit5" 1 1
          ▷ bits "bit4" 1 1
          ▷ bits "bit3" 1 1
          ▷ bits "bit2" 1 1
          ▷ bits "bit1" 1 1
          ▷ bits "bit0" 1 1
          ▷ end))
    ▷ whole "all" (scalar 4)
    ▷ end)

-- `CPUInfo`
abbrev pub cpu_registers : CType
cpu_registers = union 16 (
    whole "regs" (
      struct 16 (
        whole "eax" register32
        ▷ whole "ebx" register32
        ▷ whole "ecx" register32
        ▷ whole "edx" register32
        ▷ end))
    ▷ end)

-- `VendorCPUInfo`
abbrev pub vendor_cpu_info : CType
vendor_cpu_info = union 16 (
    whole "vendorID" (
      struct 16 (
        whole "_" (scalar 4)
        ▷ whole "firstPart" (array 4 (scalar 1))
        ▷ whole "thirdPart" (array 4 (scalar 1))
        ▷ whole "secondPart" (array 4 (scalar 1))
        ▷ end))
    ▷ end)
