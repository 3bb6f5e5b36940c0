-- ===== src/Driver/Started.antt =====
-- `DriverEntry` on a machine with everything that it asks for (Guypervisor/Driver.cpp).
pub mod Context
pub mod Tables
pub mod Questions
pub mod Object
use guypervisor.Base.{
  ℕ, suc, ◌+◌, ◌*◌, ◌/◌, ◌%◌, ◌^◌, ◌<◌, ◌≡◌, ◌≢◌, refl, true, false, bit_or, ◌==◌, max, List, some,
  none, ◌∷◌, ◌∙◌, arith, subst, inl, inr, ◌⊎◌,
}
use guypervisor.Bits.Slice.{digit-shift}
use guypervisor.Detection.Flags.{bit_and-single}
use guypervisor.Bits.Digit.{digit, digit-bit_or, digit-le-one}
use guypervisor.Machine.{
  Platform, World, Trace, Device, DriverObject, cpuid, ProcessorContext, read_eflags, write_eflags,
  allocate_pool, create_device, create_symbolic_link, delete_symbolic_link,
}
use guypervisor.Machine.Run.{◌>>=◌, ◌>>◌}
use guypervisor.Machine.Returns
use guypervisor.Machine.Returns.{Returns, returns}
use guypervisor.Machine.Ends
use guypervisor.Machine.Ends.{Ends, ends}
use guypervisor.VmxMode.Launched.{IsLaunched}
use guypervisor.Machine.Frame.{IsSame, completions, Ends-IsSame, run_framed}
use guypervisor.Machine.Status.{IsDocumented}
use guypervisor.VmxMode.{outside, mode}
use guypervisor.VmxMode.Cooperative.{IsCooperative}
use guypervisor.Detection.{
  is_cpuid_supported, vendor_is_intel, supports_vtx_operation, rev_bit, ia32_cpu_vendor_name,
  ia32_cpu_version, copy_four, same_bytes,
}
use guypervisor.Device.{new_device, init_device, create_symlink, add_functions}
use guypervisor.Device.Dispatch.{general_loop-unload, add_functions-major_function}
use guypervisor.IrpHandlers.{enter_vmx_handler}
use guypervisor.IrpHandlers.EnterVmx.{enter_vmx_handler-Ends}
use guypervisor.IrpHandlers.Framed.{enter_vmx_handler-IsFramed}
use guypervisor.Session.{IsStarted, table_entry, Request, AreServed, LaunchedAt, serve, promised}
use guypervisor.Session.Served.{serve-promised}
use guypervisor.Driver.{
  has_cpuid_flag_mask, new_context, set_up, entry_stages, entry_cleanup, driver_entry,
}
use guypervisor.Driver.Equipped.{IsEquipped, IsKept, IsKept-trans}
use guypervisor.Driver.Started.Context.{IsComplete, initialize_processor_context-IsComplete}
use guypervisor.Driver.Started.Tables.{initialize_ept-IsKept}
use guypervisor.Driver.Started.Questions.{
  is_cpuid_supported-yes, vendor_is_intel-yes, supports_vtx_operation-yes,
}
use guypervisor.Driver.Started.Object.{
  HasDevice, HasDevice-IsKept, new_device-given, init_device-HasDevice, create_symlink-success,
}

-- Everything that `DriverEntry` sets up, with the requests `before` completed.
pub record IsPrepared (p : Platform) (c : ProcessorContext) (before : List ℕ) (w : World)
    : Type 0 where
  pub complete : IsComplete c
  pub context : w.context ≡ some c
  pub device_there : (d : Device) × (w.device ≡ some d)
  pub unload : w.driver.unload ≡ true
  pub dispatches : (j : ℕ) → j < 27 → w.driver.major_function j ≡ some (table_entry j)
  pub completed : completions w.trace ≡ before

-- The driver set up, outside VMX operation again, and the driver set up as the guest is launched.
abbrev pub IsSetUp : Platform → List ℕ → World → Type 0
IsSetUp p before w =
    (c : ProcessorContext) × IsPrepared p c before w × (mode p.code w.trace ≡ outside)

abbrev pub IsSetUpLaunched : Platform → List ℕ → World → Type 0
IsSetUpLaunched p before w = (c : ProcessorContext) × IsPrepared p c before w × IsLaunched p w

module _ (p : Platform) (documented : IsDocumented p.wdk) (cooperative : IsCooperative p)
    (equipped : IsEquipped p) where
  success_lem : p.wdk.nt_success p.wdk.status_success ≡ true
  success_lem = rw documented.success_zero (documented.success_below 0 (omega arith))

  new_context-given :
      (w : World)
      → Returns
          (λ _ w'. (c : ProcessorContext) × (w'.context ≡ some c) × IsKept p w w')
          (new_context p w)
  unfolding new_context
  new_context-given w =
      let there : p.datum w.trace (allocate_pool p.context_size) ≢ 0 =
        equipped.pool_given _ _ (omega (arith, equipped.context_small)) in
      let given : (p.datum w.trace (allocate_pool p.context_size) == 0) ≡ false = ground arith in
      rw (given, new_context)
        (returns (_, refl, record { device = refl; driver = refl; at = refl; completed = refl }))

  module _ (fuel : ℕ) where
    IsPrepared-IsSame :
        {before : List ℕ} (c : ProcessorContext) (w w' : World)
        → w.context ≡ some c
        → IsComplete c
        → HasDevice p before w
        → IsSame w w'
        → IsPrepared p c before w'
    IsPrepared-IsSame c w w' known complete h same = record {
      complete = complete;
      context = same.context ∙ known;
      device_there = (h.device_there.0, same.device ∙ h.device_there.1);
      unload = rw same.driver h.unload;
      dispatches = λ j below. rw same.driver (h.dispatches j below);
      completed = same.completed ∙ h.completed;
    }

    enter_vmx_handler-IsSetUp :
        {before : List ℕ} (c : ProcessorContext) (w : World)
        → w.context ≡ some c
        → IsComplete c
        → HasDevice p before w
        → Ends (λ _. IsSetUp p before) (IsSetUpLaunched p before) (enter_vmx_handler p (suc fuel) w)
    enter_vmx_handler-IsSetUp c w known complete h =
        Ends.weaken
          (Ends-IsSame
            (enter_vmx_handler-Ends p documented cooperative c fuel w complete.vmxon_there
              complete.vmcs_there known h.at)
            (run_framed (enter_vmx_handler-IsFramed p (suc fuel)) w))
          (λ s w' (cleaned, same). (c, IsPrepared-IsSame c w w' known complete h same, cleaned.at))
          λ w' (launched, same). (c, IsPrepared-IsSame c w w' known complete h same, launched)

    set_up-IsSetUp :
        (w : World)
        → mode p.code w.trace ≡ outside
        → Ends
            (λ s w'. (s ≡ p.wdk.status_success) × IsSetUp p (completions w.trace) w')
            (IsSetUpLaunched p (completions w.trace))
            (set_up p (suc fuel) w)
    unfolding set_up
    set_up-IsSetUp w at =
        Ends.after (new_device-given p documented equipped w at) λ _ w1 (d, known1, at1, done1).
          Ends.after (init_device-HasDevice p documented equipped d w1 known1 at1)
            λ s2 w2 (ok2, h2). rw ok2 (
              Ends.after (create_symlink-success p documented equipped w2) λ s3 w3 (ok3, k3).
                rw ok3 (
                  Ends.after (new_context-given w3) λ _ w4 (c, known4, k4).
                    Ends.after
                      (initialize_processor_context-IsComplete p equipped c w4 documented known4)
                      λ s5 w5 (c5, same5, known5, complete, k5).
                        rw (same5, success_lem)
                          (Ends.after
                            (initialize_ept-IsKept p c5 w5 equipped known5 complete.table_there)
                            λ s6 w6 (same6, known6, k6).
                              rw (same6, success_lem)
                                (let k =
                                    IsKept-trans p k3 (IsKept-trans p k4 (IsKept-trans p k5 k6)) in
                                  Ends.bind
                                    (Ends.weaken
                                      (enter_vmx_handler-IsSetUp c5 w6 known6 complete
                                        (HasDevice-IsKept p h2 k))
                                      (λ _ w7 h7. h7)
                                      λ w7 h7. subst (λ b. IsSetUpLaunched p b w7) done1 h7)
                                    λ _ w7 h7. ends (refl, subst (λ b. IsSetUp p b w7) done1 h7)))))

    entry_stages-IsSetUp :
        (w : World)
        → mode p.code w.trace ≡ outside
        → Ends
            (λ s w'. (s ≡ p.wdk.status_success) × IsSetUp p (completions w.trace) w')
            (IsSetUpLaunched p (completions w.trace))
            (entry_stages p (suc fuel) w)
    unfolding entry_stages
    entry_stages-IsSetUp w at = Ends.after (is_cpuid_supported-yes p equipped w) λ b1 w1 (yes1, k1).
        rw yes1 (
          Ends.after (vendor_is_intel-yes p equipped w1) λ b2 w2 (yes2, k2). rw yes2 (
            Ends.after (supports_vtx_operation-yes p equipped w2) λ b3 w3 (yes3, k3). rw yes3 (
              let k = IsKept-trans p k1 (IsKept-trans p k2 k3) in
              Ends.weaken (set_up-IsSetUp w3 (k.at ∙ at))
                (λ s w4 (same, h). (same, subst (λ b. IsSetUp p b w4) k.completed h))
                λ w4 h. subst (λ b. IsSetUpLaunched p b w4) k.completed h)))

    -- On an equipped processor that sets VMX operation up, and from outside VMX operation, `DriverEntry`
    -- returns STATUS_SUCCESS, outside VMX operation again, or it launches the guest by a VMLAUNCH that
    -- succeeds. Either way the driver then has a device, the unload routine, the dispatch table for the
    -- functions below 27, and a context whose six pointers are not null and whose two regions are aligned
    -- to 4096, and no request has been completed.
    pub driver_entry-IsSetUp :
        (w : World)
        → mode p.code w.trace ≡ outside
        → Ends
            (λ s w'. (s ≡ p.wdk.status_success) × IsSetUp p (completions w.trace) w')
            (IsSetUpLaunched p (completions w.trace))
            (driver_entry p (suc fuel) w)
    unfolding driver_entry entry_cleanup
    driver_entry-IsSetUp w at =
        Ends.bind (entry_stages-IsSetUp w at)
          λ s w1 (same, h). rw (same, success_lem) (ends (refl, h))

    -- On an equipped processor that sets VMX operation up, and from outside VMX operation, `DriverEntry`
    -- and then any sequence of requests to the functions below 27 neither crash nor run out of fuel. Either
    -- they return, outside VMX operation, and the requests completed since are the device-control ones,
    -- each once and in the order in which they came; or a VMLAUNCH that succeeds has launched the guest, in
    -- `DriverEntry`, with none completed, or in a device-control request, with those before it completed.
    pub driver_entry-serve :
        (rs : List Request) (w : World)
        → AreServed rs
        → mode p.code w.trace ≡ outside
        → Ends
            (λ _ w'.
              (mode p.code w'.trace ≡ outside)
              × (completions w'.trace ≡ promised rs (completions w.trace)))
            (λ w'.
              (IsLaunched p w' × (completions w'.trace ≡ completions w.trace))
              ⊎ LaunchedAt p rs (completions w.trace) w')
            ((driver_entry p (suc fuel) >> serve p (suc fuel) rs) w)
    driver_entry-serve rs w served at =
        Ends.bind
          (Ends.weaken (driver_entry-IsSetUp w at) (λ s w1 h. h)
            λ w1 (c, prepared, launched). inl (launched, prepared.completed))
          λ s w1 (same, (c, prepared, ready)).
            Ends.weaken
              (serve-promised p documented cooperative c fuel rs w1 served (record {
                vmxon_there = prepared.complete.vmxon_there;
                vmcs_there = prepared.complete.vmcs_there;
                context = prepared.context;
                at = ready;
                dispatches = prepared.dispatches;
              }))
              (λ _ w2 n. (n.at, n.completed_lem ∙ rw prepared.completed refl))
              λ w2 h. inr (subst (λ b. LaunchedAt p rs b w2) prepared.completed h)
