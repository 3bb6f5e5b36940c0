-- ===== src/IrpHandlers/Loaded.antt =====
-- What `InitializeVMCS` returns, and the mode that it leaves the processor in
-- (Guypervisor/virtualization.cpp).
use guypervisor.Base.{
  ℕ, ◌≡◌, ◌≢◌, refl, ◌==◌, some, if◌then◌else◌, ◌∷◌, arith, Bool-cases, inl, inr, ◌+◌,
}
use guypervisor.Machine.{
  Platform, World, Trace, ProcessorContext, vmclear, vmptrld, get_physical_address,
}
use guypervisor.Machine.Returns
use guypervisor.Machine.Returns.{Returns, returns}
use guypervisor.Machine.Status.{
  IsDocumented, status_failed_vmclear, status_failed_vmptrld, base_error,
}
use guypervisor.VmxMode.{root, current, mode}
use guypervisor.Virtualization.Enter.{initialize_vmcs}
use guypervisor.IrpHandlers.Setup.{set_revision-Quiet, the_context-Quiet}

module _ (p : Platform) (documented : IsDocumented p.wdk) where
  failed_vmclear_lem : status_failed_vmclear p.wdk ≡ 1
  unfolding status_failed_vmclear
  failed_vmclear_lem = documented.error_above (base_error + 0x13) (omega arith) (omega arith)

  failed_vmptrld_lem : status_failed_vmptrld p.wdk ≡ 1
  unfolding status_failed_vmptrld
  failed_vmptrld_lem = documented.error_above (base_error + 0x12) (omega arith) (omega arith)

  -- In VMX operation with no current VMCS, and with a context that has a VMCS region, `InitializeVMCS`
  -- executes VMCLEAR of an address and, where that succeeds, VMPTRLD of it. Where both succeed it
  -- returns 0 with the VMCS at that address current, else 1 with none.
  pub initialize_vmcs-outcome :
      (c : ProcessorContext) (w : World)
      → c.vmcs_region ≢ 0
      → w.context ≡ some c
      → mode p.code w.trace ≡ root
      → Returns
          (λ s w'.
            (t : Trace) × (a : ℕ) × (mode p.code t ≡ root)
            × (s ≡ (
                if p.code t (vmclear a) == 0
                then (if p.code (vmclear a ∷ t) (vmptrld a) == 0 then 0 else 1)
                else 1))
            × (mode p.code w'.trace ≡ (
                if p.code t (vmclear a) == 0
                then (if p.code (vmclear a ∷ t) (vmptrld a) == 0 then current a else root)
                else root)))
          (initialize_vmcs p w)
  unfolding initialize_vmcs
  initialize_vmcs-outcome c w ne known at =
      Returns.bind (the_context-Quiet p c _ (known, at)) λ k w1 (same, q1).
        Returns.bind (set_revision-Quiet p c k.vmcs_region _ w1 (rw same ne) q1) λ _ w2 q2.
          let u : Trace = get_physical_address k.vmcs_region ∷ w2.trace in
          let a : ℕ = p.datum w2.trace (get_physical_address k.vmcs_region) in
          elim (Bool-cases (p.code u (vmclear a) == 0)) [
            | inr failed ↦
                rw (failed, initialize_vmcs)
                  (returns (u, a, q2.1, rw failed failed_vmclear_lem, rw (failed, q2.1)))
            | inl fine ↦
                rw (fine, initialize_vmcs)
                  (elim (Bool-cases (p.code (vmclear a ∷ u) (vmptrld a) == 0)) [
                    | inr failed ↦ returns (
                      u,
                      a,
                      q2.1,
                      rw fine (rw failed failed_vmptrld_lem),
                      rw (fine, q2.1) (rw failed refl),
                    )
                    | inl loads ↦ returns (
                      u,
                      a,
                      q2.1,
                      rw fine (rw loads documented.success_zero),
                      rw (fine, q2.1) (rw loads refl),
                    )
                  ])
          ]
