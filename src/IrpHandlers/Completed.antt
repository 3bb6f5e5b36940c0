-- ===== src/IrpHandlers/Completed.antt =====
-- How a device-control request ends (Guypervisor/irp_handlers.cpp).
use guypervisor.Base.{ℕ, suc, ◌≡◌, ◌≢◌, refl, Bool-cases, inl, inr, arith, some, ◌∷◌, ◌==◌}
use guypervisor.Machine.{
  Platform, World, Trace, ProcessorContext, complete_request, io_control_code,
}
use guypervisor.Machine.Ends
use guypervisor.Machine.Ends.{Ends, ends}
use guypervisor.Machine.Frame.{completions, Ends-IsSame, run_framed}
use guypervisor.VmxMode.Launched.{IsLaunched}
use guypervisor.IrpHandlers.Framed.{enter_vmx_handler-IsFramed}
use guypervisor.Machine.Run.{log}
use guypervisor.Machine.Status.{IsDocumented}
use guypervisor.VmxMode.{outside, mode}
use guypervisor.VmxMode.Cooperative.{IsCooperative}
use guypervisor.IrpHandlers.{ioctl_enter_vmx, ioctl_handler}
use guypervisor.IrpHandlers.EnterVmx.{enter_vmx_handler-Ends}

-- On a processor that sets VMX operation up, and outside VMX operation, a device-control request with any
-- control code is completed by the last call of its handler, with the status that the handler returns,
-- and the processor is outside VMX operation again; or the control code asks to enter VMX operation,
-- a VMLAUNCH has succeeded and the guest runs, and the request has not been completed.
pub ioctl_handler-completed :
    (p : Platform) (c : ProcessorContext) (fuel irp : ℕ) (w : World)
    → IsDocumented p.wdk
    → IsCooperative p
    → c.vmxon_region ≢ 0
    → c.vmcs_region ≢ 0
    → w.context ≡ some c
    → mode p.code w.trace ≡ outside
    → Ends
        (λ s w'.
          (t : Trace) × (w'.trace ≡ complete_request irp s ∷ t) × (mode p.code w'.trace ≡ outside))
        (λ w'.
          (p.datum w.trace (io_control_code irp) ≡ ioctl_enter_vmx p.wdk)
          × IsLaunched p w'
          × (completions w'.trace ≡ completions w.trace))
        (ioctl_handler p (suc fuel) irp w)
unfolding ioctl_handler
ioctl_handler-completed p c fuel irp w documented cooperative ne1 ne2 known at =
    elim (Bool-cases (p.datum w.trace (io_control_code irp) == ioctl_enter_vmx p.wdk)) [
      | inl enters ↦
          let stages =
            Ends-IsSame
              (enter_vmx_handler-Ends p documented cooperative c fuel (log (io_control_code irp) w)
                ne1 ne2 known at)
              (run_framed (enter_vmx_handler-IsFramed p (suc fuel)) _) in
          rw (enters, ioctl_handler)
            (Ends.bind
              (Ends.weaken stages (λ s w' h. h)
                λ w' (launched, same). (ground arith, launched, same.completed))
              λ s w' (cleaned, same). ends (_, refl, cleaned.at))
      | inr other ↦ rw (other, ioctl_handler) (ends (_, refl, at))
    ]
