-- ===== src/Virtualization/Enter.antt =====
-- `EnterVmxonMode`, `InitializeVMCS`, `LaunchGuest`, `ClearActiveVMCS`, `ModifyControlValue` and the
-- exit handler (Guypervisor/virtualization.cpp).
pub mod Controls
pub mod Registers
pub mod Revision
pub mod Resumed
use guypervisor.Base.{ℕ, ◌-◌, ◌^◌, bit_and, bit_or, some, not, ◌==◌, if◌then◌else◌}
use guypervisor.Machine.{
  Platform, read_cr0, read_cr4, write_cr0, write_cr4, write_msr, vmxon, vmclear, vmptrld, vmptrst,
  vmlaunch, vmresume, get_physical_address,
}
use guypervisor.Machine.Run.{
  Io, crash, enter_guest, pure, ◌>>=◌, ◌>>◌, ask, attempt, issue, the_context,
}
use guypervisor.Machine.Memory.{field, set_field, load, write_bytes}
use guypervisor.Machine.Status.{
  status_failed_vmxon, status_failed_vmptrld, status_failed_vmclear, status_failed_vmlaunch,
}
use guypervisor.Msr.{
  read_msr, msr_number, ia32_feature_control, ia32_vmx_basic, ia32_vmx_cr0_fixed0,
  ia32_vmx_cr0_fixed1, ia32_vmx_cr4_fixed0, Msr,
}
use guypervisor.Fields.{exit32}
use guypervisor.Fields.Exit.{exit_reason}
use guypervisor.Virtualization.Access.{print_vmx_error, read_vmcs_field_generic}

-- `region->revisionIdentifier = id`: the low 31 bits of the first word of the region.
unfoldable pub set_revision : (region id : ℕ) → Io (Unit {0})
set_revision region id w =
    if region == 0
    then crash w
    else write_bytes 4 region (set_field 0 31 id (load w.memory 4 region)) w

module _ (p : Platform) where
  open p use {wdk}

  -- The control registers in `EnterVmxonMode`.
  unfoldable pub fix_control_registers : Io (Unit {0})
  fix_control_registers = do
    cr0 ← ask p read_cr0
    cr0_fixed0 ← read_msr p ia32_vmx_cr0_fixed0
    cr0_fixed1 ← read_msr p ia32_vmx_cr0_fixed1
    issue (write_cr0 (bit_and (bit_or cr0 cr0_fixed0) cr0_fixed1))
    cr4 ← ask p read_cr4
    cr4_fixed0 ← read_msr p ia32_vmx_cr4_fixed0
    -- the source reads this register here too
    cr4_fixed1 ← read_msr p ia32_vmx_cr0_fixed1
    issue (write_cr4 (bit_and (bit_or cr4 cr4_fixed0) cr4_fixed1))
    cr4 ← ask p read_cr4
    issue (write_cr4 (set_field 13 1 1 cr4))

  -- The feature control register: the bits `lock`, `enable_smx` and `enable_vmxon`.
  unfoldable pub enable_feature_control : Io (Unit {0})
  enable_feature_control = do
    control ← read_msr p ia32_feature_control
    let locked = set_field 0 1 1 control
    let smx = set_field 1 1 1 locked
    issue (write_msr (msr_number ia32_feature_control) (set_field 2 1 1 smx))

  unfoldable pub enter_vmxon_mode : Io ℕ
  enter_vmxon_mode = do
    fix_control_registers
    enable_feature_control
    basic ← read_msr p ia32_vmx_basic
    context ← the_context
    set_revision context.vmxon_region (field 0 32 basic)
    physical ← ask p (get_physical_address context.vmxon_region)
    code ← attempt p (vmxon physical)
    pure (if code == 0 then wdk.status_success else status_failed_vmxon wdk)

  unfoldable pub modify_control_value : Msr → ℕ → Io ℕ
  modify_control_value register requested = do
    value ← read_msr p register
    -- `requested_value` is a UINT32, so the signed `HighPart` counts as its 32 bits
    pure (bit_or (bit_and requested (field 32 32 value)) (field 0 32 value))

  unfoldable pub initialize_vmcs : Io ℕ
  initialize_vmcs = do
    basic ← read_msr p ia32_vmx_basic
    context ← the_context
    set_revision context.vmcs_region (field 0 32 basic)
    physical ← ask p (get_physical_address context.vmcs_region)
    cleared ← attempt p (vmclear physical)
    if not (cleared == 0) then pure (status_failed_vmclear wdk) else do
      loaded ← attempt p (vmptrld physical)
      pure (if loaded == 0 then wdk.status_success else status_failed_vmptrld wdk)

module _ (p : Platform) (fuel : ℕ) where
  open p use {wdk}

  unfoldable pub launch_guest : Io ℕ
  launch_guest = do
    code ← attempt p vmlaunch
    -- a launch that succeeds does not come back: the exits of the guest go to `vmexit_handler`
    if code == 0 then enter_guest else do print_vmx_error p fuel; pure (status_failed_vmlaunch wdk)

  unfoldable pub clear_active_vmcs : Io ℕ
  clear_active_vmcs = do
    vmcs ← ask p vmptrst
    if vmcs == 2 ^ 64 - 1
        then (do print_vmx_error p fuel; pure (status_failed_vmptrld wdk))
        else (do
          code ← attempt p (vmclear vmcs)
          if code == 0 then pure wdk.status_success else do
            if code == 1 then (print_vmx_error p fuel >> pure tt) else pure tt
            pure (status_failed_vmclear wdk))

  -- The exit handler reads the reason, prints it, and goes back to the guest.
  unfoldable pub vmexit_handler : Io (Unit {0})
  vmexit_handler = do
    (status, reason) ← read_vmcs_field_generic p fuel 32 (exit32 exit_reason) (some 0)
    code ← attempt p vmresume
    if code == 0 then enter_guest else pure tt
