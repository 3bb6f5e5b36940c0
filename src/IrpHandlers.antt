-- ===== src/IrpHandlers.antt =====
-- The handlers of the driver's requests (Guypervisor/irp_handlers.cpp). A request is the address of its
-- IRP; that it is completed, and with which status, is a call.
pub mod Setup
pub mod Loaded
pub mod EnterVmx
pub mod Completed
pub mod Framed
use guypervisor.Base.{ℕ, Bool, true, false, not, ◌==◌, if◌then◌else◌}
use guypervisor.Machine.{
  Platform, Wdk, Handler, general, create, close, write, device_control, vmxoff, io_control_code,
  complete_request,
}
use guypervisor.Machine.Run.{Io, pure, ◌>>=◌, ◌>>◌, ask, issue}
use guypervisor.Virtualization.Enter.{
  enter_vmxon_mode, initialize_vmcs, launch_guest, clear_active_vmcs,
}
use guypervisor.Virtualization.Populate.{populate_active_vmcs}

-- `virtualization::IoctlCodes::kEnterVmx`, and `IOCTL_ENTER_VMX` (Guypervisor/irp_handlers.h).
abbrev pub enter_vmx_function : ℕ
enter_vmx_function = 0x801

abbrev pub ioctl_enter_vmx : Wdk → ℕ
ioctl_enter_vmx k =
    k.ctl_code k.file_device_unknown enter_vmx_function k.method_buffered k.file_any_access

-- The local variables of `EnterVmxHandler` at its label `cleanup`.
pub record Progress : Type 0 where
  pub status : ℕ
  pub entered_vmx : Bool
  pub created_active_vmcs : Bool

abbrev pub progress : ℕ → Bool → Bool → Progress
progress s e c = record { status = s; entered_vmx = e; created_active_vmcs = c }

module _ (p : Platform) (fuel : ℕ) where
  open p use {wdk}

  -- The stages, each left for `cleanup` when its status is an error.
  unfoldable pub run_stages : Io Progress
  run_stages = do
    status ← enter_vmxon_mode p
    if not (wdk.nt_success status) then pure (progress status false false) else do
      status ← initialize_vmcs p
      if not (wdk.nt_success status) then pure (progress status true false) else do
        status ← populate_active_vmcs p fuel
        if not (wdk.nt_success status)
            then pure (progress status true true)
            else do status ← launch_guest p fuel; pure (progress status true true)

  -- The code at the label `cleanup`.
  unfoldable pub clean_up : Progress → Io ℕ
  clean_up r = do
    if r.created_active_vmcs then (clear_active_vmcs p fuel >> pure tt) else pure tt
    if r.entered_vmx then issue vmxoff else pure tt
    pure r.status

  unfoldable pub enter_vmx_handler : Io ℕ
  enter_vmx_handler = do reached ← run_stages; clean_up reached

  unfoldable pub ioctl_handler : (irp : ℕ) → Io ℕ
  ioctl_handler irp = do
    io_code ← ask p (io_control_code irp)
    status ← if io_code == ioctl_enter_vmx wdk then enter_vmx_handler else pure wdk.status_success
    issue (complete_request irp status)
    pure status

  -- A request that arrives at a handler.
  unfoldable pub handle : Handler → (irp : ℕ) → Io ℕ
  handle general irp = pure wdk.status_success
  handle create irp = pure wdk.status_success
  handle close irp = pure wdk.status_success
  handle write irp = pure wdk.status_success
  handle device_control irp = ioctl_handler irp
