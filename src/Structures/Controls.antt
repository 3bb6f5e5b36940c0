-- ===== src/Structures/Controls.antt =====
-- The controls of execution, exit and entry (Guypervisor/vmcs.h).
use guypervisor.Structures.{CType, array, bits, scalar, struct, union, whole, end, ◌▷◌}

-- `PinBasedControls`
abbrev pub pin_based_controls : CType
pin_based_controls = union 16 (
    whole "fields" (
      struct 16 (
        bits "externalInterruptExit" 4 1
        ▷ bits "reserved1" 4 2
        ▷ bits "nmiExiting" 4 1
        ▷ bits "reserved2" 4 1
        ▷ bits "virtualNMI" 4 1
        ▷ bits "vmxPreemptionTimer" 4 1
        ▷ bits "processInterrupts" 4 1
        ▷ bits "reserved3" 4 25
        ▷ end))
    ▷ whole "all" (scalar 4)
    ▷ end)

-- `VMExecCtrlFields`
abbrev pub vm_exec_ctrl_fields : CType
vm_exec_ctrl_fields = union 16 (
    whole "fields" (
      struct 16 (
        bits "reserved1" 4 2
        ▷ bits "interruptExit" 4 1
        ▷ bits "tscOffset" 4 1
        ▷ bits "reserved2" 4 3
        ▷ bits "hltExiting" 4 1
        ▷ bits "reserved3" 4 1
        ▷ bits "invlpgExit" 4 1
        ▷ bits "mwaitExit" 4 1
        ▷ bits "rdpmcExit" 4 1
        ▷ bits "rdstcExit" 4 1
        ▷ bits "reserved4" 4 2
        ▷ bits "cr3LoadExit" 4 1
        ▷ bits "cr3StoreExit" 4 1
        ▷ bits "reserved5" 4 2
        ▷ bits "cr8LoadExit" 4 1
        ▷ bits "cr8StoreExit" 4 1
        ▷ bits "useTprShadow" 4 1
        ▷ bits "nmiWindowExit" 4 1
        ▷ bits "movDrExit" 4 1
        ▷ bits "unconditionalIoExit" 4 1
        ▷ bits "virtualizeIoBitmaps" 4 1
        ▷ bits "reserved6" 4 1
        ▷ bits "monitorTrapFlag" 4 1
        ▷ bits "virtualizeMsrBitmaps" 4 1
        ▷ bits "monitorExit" 4 1
        ▷ bits "pauseExit" 4 1
        ▷ bits "activateSecondaryControls" 4 1
        ▷ end))
    ▷ whole "all" (scalar 4)
    ▷ end)

-- `SecondaryVMExecCtrls`
abbrev pub secondary_vm_exec_ctrls : CType
secondary_vm_exec_ctrls = union 16 (
    whole "fields" (
      struct 16 (
        bits "virtualizeApic" 4 1
        ▷ bits "enableEPT" 4 1
        ▷ bits "descTableExit" 4 1
        ▷ bits "enableRdtscp" 4 1
        ▷ bits "virtualizeAPICMsr" 4 1
        ▷ bits "enableVPID" 4 1
        ▷ bits "wbinvdExit" 4 1
        ▷ bits "unrestrictedGuest" 4 1
        ▷ bits "apicRegisterVirt" 4 1
        ▷ bits "virtualInterruptDelivery" 4 1
        ▷ bits "pauseLoopExiting" 4 1
        ▷ bits "rdrandExit" 4 1
        ▷ bits "enableINVPCID" 4 1
        ▷ bits "enableVMFUNC" 4 1
        ▷ bits "vmcsShadowing" 4 1
        ▷ bits "enableENCLSExit" 4 1
        ▷ bits "rdseedExit" 4 1
        ▷ bits "enablePML" 4 1
        ▷ bits "EPTViolation" 4 1
        ▷ bits "concealVirtualizationFromPT" 4 1
        ▷ bits "enableXSaves_XStores" 4 1
        ▷ bits "reserved1" 4 1
        ▷ bits "executeCtrlEPT" 4 1
        ▷ bits "reserved2" 4 2
        ▷ bits "useTSCScaling" 4 1
        ▷ bits "reserved3" 4 6
        ▷ end))
    ▷ whole "all" (scalar 4)
    ▷ end)

-- `VMExitCtrlFields`
abbrev pub vm_exit_ctrl_fields : CType
vm_exit_ctrl_fields = union 16 (
    whole "fields" (
      struct 16 (
        bits "reserved1" 4 2
        ▷ bits "saveDebugCtrls" 4 1
        ▷ bits "reserved2" 4 6
        ▷ bits "hostAddrSpaceSize" 4 1
        ▷ bits "reserved3" 4 2
        ▷ bits "loadPerfGlobalCtrlOnExit" 4 1
        ▷ bits "reserved4" 4 2
        ▷ bits "acknowledgeInterruptOnExit" 4 1
        ▷ bits "reserved5" 4 2
        ▷ bits "savePATMsrOnExit" 4 1
        ▷ bits "loadPATMsrOnExit" 4 1
        ▷ bits "saveEFERMsrOnExit" 4 1
        ▷ bits "loadEFERMsrOnExit" 4 1
        ▷ bits "savePreemptionTimerOnExit" 4 1
        ▷ bits "clearBNDCFGSOnExit" 4 1
        ▷ bits "concealVMExitPt" 4 1
        ▷ bits "reserved6" 4 7
        ▷ end))
    ▷ whole "all" (scalar 4)
    ▷ end)

-- `VMEntryCtrlFields`
abbrev pub vm_entry_ctrl_fields : CType
vm_entry_ctrl_fields = union 16 (
    whole "fields" (
      struct 16 (
        bits "reserved1" 4 2
        ▷ bits "loadDebugCtrls" 4 1
        ▷ bits "reserved2" 4 6
        ▷ bits "ia32ModeGuest" 4 1
        ▷ bits "entryToSMM" 4 1
        ▷ bits "deactivateDualMonitor" 4 1
        ▷ bits "reserved3" 4 1
        ▷ bits "loadPerfGlobalCtrlOnEntry" 4 1
        ▷ bits "loadPATMsrOnEntry" 4 1
        ▷ bits "loadEFERMsrOnEntry" 4 1
        ▷ bits "loadBNDCFGSOnEntry" 4 1
        ▷ bits "concealVMEntryPt" 4 1
        ▷ bits "reserved4" 4 14
        ▷ end))
    ▷ whole "all" (scalar 4)
    ▷ end)

-- `EPTP`
abbrev pub eptp : CType
eptp = union 16 (
    whole "fields" (
      struct 16 (
        bits "memoryType" 8 3
        ▷ bits "walkPathMinusOne" 8 3
        ▷ bits "dirtyAccessFlags" 8 1
        ▷ bits "reserved1" 8 5
        ▷ bits "addressPlusReserved" 8 52
        ▷ end))
    ▷ whole "all" (scalar 8)
    ▷ end)

-- `TimeScale`
abbrev pub time_scale : CType
time_scale = struct 16 (whole "tscOffset" (scalar 8) ▷ whole "tscScaling" (scalar 8) ▷ end)

-- `Bitmap`
abbrev pub bitmap : CType
bitmap = struct 16 (whole "_bitmap" (array 4096 (scalar 1)) ▷ end)

-- `IOBitmap`
abbrev pub io_bitmap : CType
io_bitmap = struct 16 (whole "A" bitmap ▷ whole "B" bitmap ▷ end)
