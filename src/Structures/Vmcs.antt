-- ===== src/Structures/Vmcs.antt =====
-- The whole structure (Guypervisor/vmcs.h).
use guypervisor.Structures.{CType, bits, scalar, struct, whole, end, ◌▷◌}
use guypervisor.Structures.Controls.{
  eptp, secondary_vm_exec_ctrls, vm_entry_ctrl_fields, vm_exec_ctrl_fields, vm_exit_ctrl_fields,
}
use guypervisor.Structures.States.{guest_state, host_state}
use guypervisor.Structures.Exits.{vm_exit_information_fields}

-- `VMCS`
abbrev pub vmcs_type : CType
vmcs_type = struct 16 (
    bits "revisionIdentifier" 4 31
    ▷ bits "shadowVMCS" 4 1
    ▷ whole "abortIndicator" (scalar 4)
    ▷ whole "guestState" guest_state
    ▷ whole "hostState" host_state
    ▷ whole "executionCtrl" vm_exec_ctrl_fields
    ▷ whole "secondExecCtrl" secondary_vm_exec_ctrls
    ▷ whole "exceptionBitmap" (scalar 4)
    ▷ whole "eptPtr" eptp
    ▷ whole "vpid" (scalar 2)
    ▷ whole "exitCtrl" vm_exit_ctrl_fields
    ▷ whole "entryCtrl" vm_entry_ctrl_fields
    ▷ whole "exitInformation" vm_exit_information_fields
    ▷ end)
