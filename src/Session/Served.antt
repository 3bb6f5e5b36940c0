-- ===== src/Session/Served.antt =====
-- What becomes of the requests to the started driver (Guypervisor/irp_handlers.cpp,
-- Guypervisor/Device.cpp).
use guypervisor.Base.{
  ℕ, suc, ◌≡◌, ◌<◌, refl, ◌∙◌, Bool, true, false, ◌==◌, Bool-cases, inl, inr, if◌then◌else◌, List,
  [], ◌∷◌, arith, sym, subst,
}
use guypervisor.Machine.{
  Platform, World, Handler, general, create, close, write, device_control, ProcessorContext,
  io_control_code,
}
use guypervisor.Machine.Run.{log}
use guypervisor.Machine.Ends
use guypervisor.Machine.Ends.{Ends, ends}
use guypervisor.VmxMode.Launched.{IsLaunched}
use guypervisor.Machine.Frame.{completions, Ends-IsSame, run_framed}
use guypervisor.Machine.Status.{IsDocumented}
use guypervisor.VmxMode.{outside, mode}
use guypervisor.VmxMode.Cooperative.{IsCooperative}
use guypervisor.IrpHandlers.{handle, ioctl_enter_vmx, ioctl_handler}
use guypervisor.IrpHandlers.EnterVmx.{enter_vmx_handler-Ends}
use guypervisor.IrpHandlers.Framed.{enter_vmx_handler-IsFramed}
use guypervisor.Session.{
  Request, table_entry, IsStarted, dispatch, serve, promised, AreServed, none_left, and_served,
  LaunchedAt, launched_now, launched_later,
}

-- The driver goes on from `w'` as from `w`, with these requests completed.
pub record IsNext (p : Platform) (w : World) (completed : List ℕ) (w' : World) : Type 0 where
  pub context : w'.context ≡ w.context
  pub device : w'.device ≡ w.device
  pub driver : w'.driver ≡ w.driver
  pub at : mode p.code w'.trace ≡ outside
  pub completed_lem : completions w'.trace ≡ completed

abbrev is_control : Handler → Bool
is_control device_control = true
is_control _ = false

is_control-table_entry : (j : ℕ) → is_control (table_entry j) ≡ (j == 14)
is_control-table_entry j = ground arith

module _ (p : Platform) (documented : IsDocumented p.wdk) (cooperative : IsCooperative p) where
  module _ (c : ProcessorContext) (fuel : ℕ) where
    ioctl_handler-IsNext :
        (irp : ℕ) (w : World)
        → IsStarted p c w
        → Ends
            (λ _. IsNext p w (irp ∷ completions w.trace))
            (λ w'. IsLaunched p w' × (completions w'.trace ≡ completions w.trace))
            (ioctl_handler p (suc fuel) irp w)
    unfolding ioctl_handler
    ioctl_handler-IsNext irp w started =
        elim (Bool-cases (p.datum w.trace (io_control_code irp) == ioctl_enter_vmx p.wdk)) [
          | inl enters ↦
              rw (enters, ioctl_handler)
                (Ends.bind
                  (Ends.weaken
                    (Ends-IsSame
                      (enter_vmx_handler-Ends p documented cooperative c fuel
                        (log (io_control_code irp) w) started.vmxon_there started.vmcs_there
                        started.context started.at)
                      (run_framed (enter_vmx_handler-IsFramed p (suc fuel)) _))
                    (λ s w' h. h) λ w' (launched, same). (launched, same.completed))
                  λ s w' (cleaned, same). ends (record {
                    context = same.context;
                    device = same.device;
                    driver = same.driver;
                    at = cleaned.at;
                    completed_lem = rw same.completed refl;
                  }))
          | inr other ↦
              rw (other, ioctl_handler)
                (ends (record {
                  context = refl;
                  device = refl;
                  driver = refl;
                  at = started.at;
                  completed_lem = refl;
                }))
        ]

    still : (w : World) → IsStarted p c w → IsNext p w (completions w.trace) w
    still w started = record {
      context = refl;
      device = refl;
      driver = refl;
      at = started.at;
      completed_lem = refl;
    }

    -- What has been completed once a handler has returned, and where it launches the guest.
    abbrev Handled : Handler → ℕ → World → ℕ → World → Type 0
    Handled h irp w s =
        IsNext p w (if is_control h then irp ∷ completions w.trace else completions w.trace)

    abbrev Launches : Handler → World → World → Type 0
    Launches h w w' =
        (is_control h ≡ true) × IsLaunched p w' × (completions w'.trace ≡ completions w.trace)

    handle-IsNext :
        (h : Handler) (irp : ℕ) (w : World)
        → IsStarted p c w
        → Ends (Handled h irp w) (Launches h w) (handle p (suc fuel) h irp w)
    unfolding handle
    handle-IsNext general irp w started = ends (still w started)
    handle-IsNext create irp w started = ends (still w started)
    handle-IsNext close irp w started = ends (still w started)
    handle-IsNext write irp w started = ends (still w started)
    handle-IsNext device_control irp w started =
        Ends.weaken (ioctl_handler-IsNext irp w started) (λ s w' n. n)
          λ w' (launched, same). (refl, launched, same)

    -- A request to the started driver returns, leaves it started with the same context, device and
    -- dispatch table, and is completed where it is one of device control; or it is one of device control
    -- and launches the guest.
    pub dispatch-IsNext :
        (r : Request) (w : World)
        → r.major < 27
        → IsStarted p c w
        → Ends
            (λ _. IsNext p w (promised (r ∷ []) (completions w.trace)))
            (LaunchedAt p (r ∷ []) (completions w.trace))
            (dispatch p (suc fuel) r w)
    unfolding dispatch
    dispatch-IsNext r w below started =
        rw (started.dispatches r.major below, dispatch)
          (Ends.weaken (handle-IsNext (table_entry r.major) r.irp w started)
            (λ s w' n. rw (← is_control-table_entry r.major) n)
            λ w' (control, launched, same).
              launched_now (sym (is_control-table_entry r.major) ∙ control) launched same)

    pub IsStarted-of_next :
        {before : List ℕ} (w w' : World) → IsStarted p c w → IsNext p w before w' → IsStarted p c w'
    IsStarted-of_next w w' started n = record {
      vmxon_there = started.vmxon_there;
      vmcs_there = started.vmcs_there;
      context = n.context ∙ started.context;
      at = n.at;
      dispatches = λ j below. rw n.driver (started.dispatches j below);
    }

    LaunchedAt-first :
        (r : Request) (rs : List Request) {before : List ℕ} {w : World}
        → LaunchedAt p (r ∷ []) before w
        → LaunchedAt p (r ∷ rs) before w
    LaunchedAt-first r rs (launched_now control launched same) = launched_now control launched same
    LaunchedAt-first r rs (launched_later h) = elim h [ ]

    -- On a processor that sets VMX operation up, the started driver serves any sequence of requests to
    -- the functions below 27. Either the run returns, with the same context, device and driver object,
    -- outside VMX operation, and the requests it has completed are the device-control ones, each once
    -- and in the order in which they came; or one of the device-control requests launches the guest by a
    -- VMLAUNCH that succeeds, and the requests completed are the device-control ones before it.
    pub serve-promised :
        (rs : List Request) (w : World)
        → AreServed rs
        → IsStarted p c w
        → Ends
            (λ _. IsNext p w (promised rs (completions w.trace)))
            (LaunchedAt p rs (completions w.trace))
            (serve p (suc fuel) rs w)
    unfolding serve
    serve-promised [] w none_left started = ends (still w started)
    serve-promised (r ∷ rs) w (and_served below more) started =
        Ends.bind
          (Ends.weaken (dispatch-IsNext r w below started) (λ s w1 n. n)
            λ w1 h. LaunchedAt-first r rs h)
          λ s w1 n1.
            Ends.weaken (serve-promised rs w1 more (IsStarted-of_next w w1 started n1))
              (λ _ w2 n2. record {
                context = n2.context ∙ n1.context;
                device = n2.device ∙ n1.device;
                driver = n2.driver ∙ n1.driver;
                at = n2.at;
                completed_lem = n2.completed_lem ∙ rw n1.completed_lem refl;
              })
              λ w2 h. launched_later (subst (λ b. LaunchedAt p rs b w2) n1.completed_lem h)
