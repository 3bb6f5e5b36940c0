-- ===== src/IrpHandlers/Setup.antt =====
-- What `EnterVmxonMode` and `InitializeVMCS` return, and the mode that they leave the processor in.
use guypervisor.Base.{
  ℕ, ◌≡◌, ◌≢◌, refl, true, false, ◌==◌, some, if◌then◌else◌, ◌∷◌, arith, ◌-◌, ◌^◌, ◌<◌, ◌+◌, ◌∙◌,
}
use guypervisor.Machine.{Platform, World, Trace, ProcessorContext, vmxon}
use guypervisor.Machine.Run.{the_context}
use guypervisor.Machine.Returns
use guypervisor.Machine.Returns.{Returns, returns}
use guypervisor.Machine.Status.{IsDocumented, status_failed_vmxon, base_error}
use guypervisor.VmxMode.{VmxMode, outside, root, current, mode}
use guypervisor.VmxMode.Cooperative.{IsCooperative}
use guypervisor.Virtualization.Enter.{
  fix_control_registers, enable_feature_control, set_revision, enter_vmxon_mode, initialize_vmcs,
}

-- A part of the set-up that executes no VMX instruction and leaves the context alone.
abbrev pub Quiet : Platform → ProcessorContext → VmxMode → World → Type 0
Quiet p c m w = (w.context ≡ some c) × (mode p.code w.trace ≡ m)

module _ (p : Platform) (c : ProcessorContext) {m : VmxMode} where
  fix_control_registers-Quiet :
      (w : World) → Quiet p c m w → Returns (λ _. Quiet p c m) (fix_control_registers p w)
  unfolding fix_control_registers
  fix_control_registers-Quiet w q = returns q

  enable_feature_control-Quiet :
      (w : World) → Quiet p c m w → Returns (λ _. Quiet p c m) (enable_feature_control p w)
  unfolding enable_feature_control
  enable_feature_control-Quiet w q = returns q

  pub set_revision-Quiet :
      (region id : ℕ) (w : World)
      → region ≢ 0
      → Quiet p c m w
      → Returns (λ _. Quiet p c m) (set_revision region id w)
  unfolding set_revision
  set_revision-Quiet region id w ne q =
      let test : (region == 0) ≡ false = ground arith in rw (test, set_revision) (returns q)

  pub the_context-Quiet :
      (w : World) → Quiet p c m w → Returns (λ k w'. (k ≡ c) × Quiet p c m w') (the_context w)
  the_context-Quiet w q = rw (q.0, the_context) (returns (refl, q))

failed_vmxon_lem : (p : Platform) → IsDocumented p.wdk → status_failed_vmxon p.wdk ≡ 1
unfolding status_failed_vmxon
failed_vmxon_lem p documented =
    documented.error_above (base_error + 0x10) (omega arith) (omega arith)

module _ (p : Platform) (c : ProcessorContext) where
  -- VMXON is the last call of `EnterVmxonMode`, and the status is that of its code.
  pub enter_vmxon_mode-code :
      (w : World)
      → c.vmxon_region ≢ 0
      → Quiet p c outside w
      → Returns
          (λ s w'.
            (t : Trace) × (a : ℕ) × (w'.trace ≡ vmxon a ∷ t)
            × (mode p.code t ≡ outside)
            × (w'.context ≡ some c)
            × (s ≡ (
                if p.code t (vmxon a) == 0
                then p.wdk.status_success
                else status_failed_vmxon p.wdk)))
          (enter_vmxon_mode p w)
  unfolding enter_vmxon_mode
  enter_vmxon_mode-code w ne q = Returns.bind (fix_control_registers-Quiet p c w q) λ _ w1 q1.
      Returns.bind (enable_feature_control-Quiet p c w1 q1) λ _ w2 q2.
        Returns.bind (the_context-Quiet p c _ q2) λ k w3 (same, q3).
          Returns.bind (set_revision-Quiet p c k.vmxon_region _ w3 (rw same ne) q3)
            λ _ w4 q4. returns (_, _, refl, q4.1, q4.0, refl)

  -- From outside VMX operation, with a context that has a VMXON region, `EnterVmxonMode` returns after
  -- VMXON. Where that succeeds it returns 0, in VMX operation; where it fails it returns 1, outside VMX
  -- operation. NT_SUCCESS holds of both.
  pub enter_vmxon_mode-outcome :
      (w : World)
      → IsDocumented p.wdk
      → c.vmxon_region ≢ 0
      → w.context ≡ some c
      → mode p.code w.trace ≡ outside
      → Returns
          (λ s w'.
            (t : Trace) × (a : ℕ) × (w'.trace ≡ vmxon a ∷ t)
            × (p.wdk.nt_success s ≡ true)
            × (s ≡ (if p.code t (vmxon a) == 0 then 0 else 1))
            × (mode p.code w'.trace ≡ (if p.code t (vmxon a) == 0 then root else outside)))
          (enter_vmxon_mode p w)
  enter_vmxon_mode-outcome w documented ne known at =
      Returns.weaken (enter_vmxon_mode-code w ne (known, at))
        λ s w' (t, a, last, before, kept, status).
          let failed : status_failed_vmxon p.wdk ≡ 1 = failed_vmxon_lem p documented in
          (
            t,
            a,
            last,
            ground (
              arith,
              documented.success_zero,
              documented.success_below 0,
              documented.success_below 1,
            ),
            ground (arith, documented.success_zero),
            rw (last, before),
          )

module _ (p : Platform) (cooperative : IsCooperative p) (c : ProcessorContext) where
  pub enter_vmxon_mode-root :
      (w : World)
      → c.vmxon_region ≢ 0
      → Quiet p c outside w
      → Returns (λ s w'. (s ≡ p.wdk.status_success) × Quiet p c root w') (enter_vmxon_mode p w)
  enter_vmxon_mode-root w ne q =
      Returns.weaken (enter_vmxon_mode-code p c w ne q) λ s w' (t, a, last, before, kept, status). (
        status ∙ rw (cooperative.vmxon_succeeds t a),
        (kept, rw (last, before, cooperative.vmxon_succeeds t a)),
      )

  pub initialize_vmcs-current :
      (w : World)
      → c.vmcs_region ≢ 0
      → Quiet p c root w
      → Returns
          (λ s w'.
            (a : ℕ) × (a < 2 ^ 64 - 1)
            × (s ≡ p.wdk.status_success)
            × (mode p.code w'.trace ≡ current a))
          (initialize_vmcs p w)
  unfolding initialize_vmcs
  initialize_vmcs-current w ne q = Returns.bind (the_context-Quiet p c _ q) λ k w1 (same, q1).
      Returns.bind (set_revision-Quiet p c k.vmcs_region _ w1 (rw same ne) q1) λ _ w2 q2.
        rw (cooperative.vmclear_succeeds _ _) (
          rw (cooperative.vmptrld_succeeds _ _) (
            returns (
              _,
              cooperative.physical_lt w2.trace k.vmcs_region,
              refl,
              rw (q2.1, cooperative.vmptrld_succeeds _ _),
            )))
