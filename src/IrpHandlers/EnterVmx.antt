-- ===== src/IrpHandlers/EnterVmx.antt =====
-- The protocol of `EnterVmxHandler`: every VMX instruction where it is legal, and VMX operation left.
use guypervisor.Base.{
  ℕ, suc, ◌≡◌, ◌≢◌, refl, true, false, ◌==◌, Bool-cases, inl, inr, some, ◌∷◌, arith, ◌-◌, ◌^◌, ◌<◌,
}
use guypervisor.Machine.{
  Platform, World, Trace, ProcessorContext, vmxoff, vmlaunch, vmptrst, vmclear,
}
use guypervisor.Machine.Ends
use guypervisor.Machine.Ends.{Ends, ends, enters}
use guypervisor.VmxMode.Launched.{IsLaunched}
use guypervisor.Machine.Run.{log}
use guypervisor.Machine.Returns
use guypervisor.Machine.Returns.{Returns, returns}
use guypervisor.Machine.Status.{IsDocumented}
use guypervisor.VmxMode.{outside, root, current, mode}
use guypervisor.VmxMode.Cooperative.{IsCooperative}
use guypervisor.Virtualization.Access.Current.{print_vmx_error-IsCurrent, success_lem}
use guypervisor.Virtualization.Enter.{launch_guest, clear_active_vmcs}
use guypervisor.Virtualization.Populate.Status.{populate_active_vmcs-Reports}
use guypervisor.IrpHandlers.{run_stages, clean_up, enter_vmx_handler, Progress}
use guypervisor.IrpHandlers.Setup.{Quiet, enter_vmxon_mode-root, initialize_vmcs-current}

-- The handler has cleaned up: its last calls are VMPTRST, VMCLEAR of the VMCS that was current and not
-- launched, and VMXOFF.
pub record IsCleaned (p : Platform) (w : World) : Type 0 where
  pub region : ℕ
  pub earlier : Trace
  pub last : w.trace ≡ vmxoff ∷ vmclear region ∷ vmptrst ∷ earlier
  pub at_earlier : mode p.code earlier ≡ current region
  pub at : mode p.code w.trace ≡ outside

module _ (p : Platform) (documented : IsDocumented p.wdk) (cooperative : IsCooperative p) where
  module _ (a fuel : ℕ) where
    -- A launch that succeeds gives the processor to the guest; one that fails leaves the VMCS current.
    launch_guest-Ends :
        (w : World)
        → mode p.code w.trace ≡ current a
        → Ends
            (λ _ w'. mode p.code w'.trace ≡ current a)
            (IsLaunched p)
            (launch_guest p (suc fuel) w)
    unfolding launch_guest
    launch_guest-Ends w at = elim (Bool-cases (p.code w.trace vmlaunch == 0)) [
      | inl launches ↦
          rw (launches, launch_guest)
            (enters (record {
              region = a;
              earlier = w.trace;
              last = refl;
              succeeded = ground arith;
              at_earlier = at;
              at = rw (at, launches) refl;
            }))
      | inr failed ↦
          rw (failed, launch_guest)
            (Ends.after
              (print_vmx_error-IsCurrent p documented cooperative {stop = 0} fuel (log vmlaunch w)
                (record { at = rw (at, failed) refl; since = refl }))
              λ _ w' h. ends h.at)
    ]

    clear_active_vmcs-root :
        (w : World)
        → a < 2 ^ 64 - 1
        → mode p.code w.trace ≡ current a
        → Returns
            (λ _ w'. (w'.trace ≡ vmclear a ∷ vmptrst ∷ w.trace) × (mode p.code w'.trace ≡ root))
            (clear_active_vmcs p (suc fuel) w)
    unfolding clear_active_vmcs
    clear_active_vmcs-root w below at =
        let stored : p.datum w.trace vmptrst ≡ a = cooperative.vmptrst_stores w.trace a at in
        let valid : (a == 2 ^ 64 - 1) ≡ false = ground arith in
        let same : (a == a) ≡ true = ground arith in
        rw (stored, clear_active_vmcs)
          (rw (valid, clear_active_vmcs)
            (rw (cooperative.vmclear_succeeds _ _)
              (returns (refl, rw (at, cooperative.vmclear_succeeds (vmptrst ∷ w.trace) a, same)))))

  -- What the stages reach.
  abbrev Reached : Progress → World → Type 0
  Reached r w =
      (a : ℕ) × (a < 2 ^ 64 - 1)
      × (r.entered_vmx ≡ true)
      × (r.created_active_vmcs ≡ true)
      × (mode p.code w.trace ≡ current a)

  module _ (c : ProcessorContext) (fuel : ℕ) (w : World) where
    run_stages-Reached :
        c.vmxon_region ≢ 0
        → c.vmcs_region ≢ 0
        → Quiet p c outside w
        → Ends Reached (IsLaunched p) (run_stages p (suc fuel) w)
    unfolding run_stages
    run_stages-Reached ne1 ne2 q =
        Ends.after (enter_vmxon_mode-root p cooperative c w ne1 q) λ s1 w1 (ok1, q1).
          rw (ok1, success_lem p documented cooperative)
            (Ends.after (initialize_vmcs-current p cooperative c w1 ne2 q1)
              λ s2 w2 (a, below, ok2, at2).
                rw (ok2, success_lem p documented cooperative)
                  (Ends.after (populate_active_vmcs-Reports p documented cooperative a fuel w2 at2)
                    λ s3 w3 (at3, _). elim (Bool-cases (p.wdk.nt_success s3)) [
                      | inl fine ↦ rw fine (
                          Ends.bind (launch_guest-Ends a fuel w3 at3)
                            λ s4 w4 at4. ends (a, below, refl, refl, at4))
                      | inr failed ↦ rw failed (ends (a, below, refl, refl, at3))
                    ]))

    -- On a processor that sets VMX operation up, and outside VMX operation, the handler gives the processor
    -- to the guest by a VMLAUNCH that succeeds, from a current VMCS that had not been launched, or it
    -- returns. Where it returns it has executed no VMX instruction outside VMX operation; its last calls
    -- are VMPTRST, VMCLEAR of the VMCS that was current, and had not been launched, and VMXOFF, by which
    -- it has left VMX operation.
    pub enter_vmx_handler-Ends :
        c.vmxon_region ≢ 0
        → c.vmcs_region ≢ 0
        → w.context ≡ some c
        → mode p.code w.trace ≡ outside
        → Ends (λ s w'. IsCleaned p w') (IsLaunched p) (enter_vmx_handler p (suc fuel) w)
    unfolding enter_vmx_handler clean_up
    enter_vmx_handler-Ends ne1 ne2 known at =
        Ends.bind (run_stages-Reached ne1 ne2 (known, at)) λ r w1 (a, below, entered, created, at1).
          rw (entered, created)
            (Ends.after
              {P = λ _ w2.
                (w2.trace ≡ vmclear a ∷ vmptrst ∷ w1.trace) × (mode p.code w2.trace ≡ root)}
              (Returns.bind (clear_active_vmcs-root a fuel w1 below at1) λ _ w2 h. returns h)
              λ _ w2 (last, at2). ends (record {
                region = a;
                earlier = w1.trace;
                last = rw last refl;
                at_earlier = at1;
                at = rw at2 refl;
              }))
