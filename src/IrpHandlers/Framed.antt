-- ===== src/IrpHandlers/Framed.antt =====
-- What `EnterVmxHandler` leaves alone (Guypervisor/irp_handlers.cpp).
use guypervisor.Base.{ℕ}
use guypervisor.Machine.{Platform}
use guypervisor.Machine.Frame.{IsFramed, frames}
use guypervisor.Virtualization.Framed.{
  enter_vmxon_mode-IsFramed, initialize_vmcs-IsFramed, launch_guest-IsFramed,
  clear_active_vmcs-IsFramed,
}
use guypervisor.Virtualization.Framed.Populate.{populate_active_vmcs-IsFramed}
use guypervisor.IrpHandlers.{Progress, run_stages, clean_up, enter_vmx_handler}

module _ (p : Platform) (fuel : ℕ) where
  run_stages-IsFramed : IsFramed (run_stages p fuel)
  unfolding run_stages
  run_stages-IsFramed =
      search
        (
          frames, enter_vmxon_mode-IsFramed, initialize_vmcs-IsFramed,
          populate_active_vmcs-IsFramed, launch_guest-IsFramed,
        )
        depth 80 fits 8000

  clean_up-IsFramed : (r : Progress) → IsFramed (clean_up p fuel r)
  unfolding clean_up
  clean_up-IsFramed r = search (frames, clear_active_vmcs-IsFramed) depth 80

  pub enter_vmx_handler-IsFramed : IsFramed (enter_vmx_handler p fuel)
  unfolding enter_vmx_handler
  enter_vmx_handler-IsFramed = search (frames, run_stages-IsFramed, clean_up-IsFramed) depth 80
