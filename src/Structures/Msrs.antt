-- ===== src/Structures/Msrs.antt =====
-- The unions for model-specific registers of Guypervisor/msr.h.
use guypervisor.Structures.{CType, bits, scalar, struct, union, whole, end, ◌▷◌}

-- `FeatureControlMsr`
abbrev pub feature_control_msr : CType
feature_control_msr = union 16 (
    whole "bitfield" (
      struct 16 (
        bits "lock" 4 1
        ▷ bits "enable_smx" 4 1
        ▷ bits "enable_vmxon" 4 1
        ▷ bits "reserved1" 4 5
        ▷ bits "enable_local_senter" 4 7
        ▷ bits "enable_global_senter" 4 1
        ▷ bits "reserved2" 4 16
        ▷ bits "reserved3" 4 32
        ▷ end))
    ▷ whole "all" (scalar 8)
    ▷ end)

-- `Bitfield64`
abbrev pub msr_bitfield64 : CType
msr_bitfield64 = struct 16 (
    bits "bit0" 1 1
    ▷ bits "bit1" 1 1
    ▷ bits "bit2" 1 1
    ▷ bits "bit3" 1 1
    ▷ bits "bit4" 1 1
    ▷ bits "bit5" 1 1
    ▷ bits "bit6" 1 1
    ▷ bits "bit7" 1 1
    ▷ bits "bit8" 1 1
    ▷ bits "bit9" 1 1
    ▷ bits "bit10" 1 1
    ▷ bits "bit11" 1 1
    ▷ bits "bit12" 1 1
    ▷ bits "bit13" 1 1
    ▷ bits "bit14" 1 1
    ▷ bits "bit15" 1 1
    ▷ bits "bit16" 1 1
    ▷ bits "bit17" 1 1
    ▷ bits "bit18" 1 1
    ▷ bits "bit19" 1 1
    ▷ bits "bit20" 1 1
    ▷ bits "bit21" 1 1
    ▷ bits "bit22" 1 1
    ▷ bits "bit23" 1 1
    ▷ bits "bit24" 1 1
    ▷ bits "bit25" 1 1
    ▷ bits "bit26" 1 1
    ▷ bits "bit27" 1 1
    ▷ bits "bit28" 1 1
    ▷ bits "bit29" 1 1
    ▷ bits "bit30" 1 1
    ▷ bits "bit31" 1 1
    ▷ bits "bit32" 1 1
    ▷ bits "bit33" 1 1
    ▷ bits "bit34" 1 1
    ▷ bits "bit35" 1 1
    ▷ bits "bit36" 1 1
    ▷ bits "bit37" 1 1
    ▷ bits "bit38" 1 1
    ▷ bits "bit39" 1 1
    ▷ bits "bit40" 1 1
    ▷ bits "bit41" 1 1
    ▷ bits "bit42" 1 1
    ▷ bits "bit43" 1 1
    ▷ bits "bit44" 1 1
    ▷ bits "bit45" 1 1
    ▷ bits "bit46" 1 1
    ▷ bits "bit47" 1 1
    ▷ bits "bit48" 1 1
    ▷ bits "bit49" 1 1
    ▷ bits "bit50" 1 1
    ▷ bits "bit51" 1 1
    ▷ bits "bit52" 1 1
    ▷ bits "bit53" 1 1
    ▷ bits "bit54" 1 1
    ▷ bits "bit55" 1 1
    ▷ bits "bit56" 1 1
    ▷ bits "bit57" 1 1
    ▷ bits "bit58" 1 1
    ▷ bits "bit59" 1 1
    ▷ bits "bit60" 1 1
    ▷ bits "bit61" 1 1
    ▷ bits "bit62" 1 1
    ▷ bits "bit63" 1 1
    ▷ end)

-- `VmxBasicMsr`
abbrev pub vmx_basic_msr : CType
vmx_basic_msr = union 16 (
    whole "bitfield" msr_bitfield64
    ▷ whole "fields" (struct 16 (bits "revision_id" 4 32 ▷ bits "reserved3" 4 32 ▷ end))
    ▷ whole "all" (scalar 8)
    ▷ end)

-- `VmxMiscMsr`
abbrev pub vmx_misc_msr : CType
vmx_misc_msr = union 16 (
    whole "fields" (
      struct 16 (
        bits "time_bit_change" 8 5
        ▷ bits "exit_store_efer" 8 1
        ▷ bits "hlt_support" 8 1
        ▷ bits "shutdown_support" 8 1
        ▷ bits "wait_for_sipi_support" 8 1
        ▷ bits "reserved0" 8 5
        ▷ bits "intel_pt_enable" 8 1
        ▷ bits "rdmsr_in_smm" 8 1
        ▷ bits "cr3_target_values_supported" 8 9
        ▷ bits "recommended_max_store_msr" 8 3
        ▷ bits "smm_monitor_settable" 8 1
        ▷ bits "software_use_vmwrite" 8 1
        ▷ bits "allow_injection" 8 1
        ▷ bits "reserved1" 8 1
        ▷ bits "mseg_revision_id" 8 32
        ▷ end))
    ▷ whole "all" (scalar 8)
    ▷ end)
