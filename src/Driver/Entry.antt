-- ===== src/Driver/Entry.antt =====
-- `DriverEntry` where the driver does not start (Guypervisor/Driver.cpp).
use guypervisor.Base.{
  ℕ, ◌/◌, ◌%◌, ◌^◌, ◌≡◌, ◌≢◌, refl, false, ◌∙◌, Bool-cases, inl, inr, ◌==◌, none, ◌∷◌, arith,
}
use guypervisor.Machine.{
  Platform, World, Trace, cpuid, allocate_pool, free_pool, create_device, delete_device,
}
use guypervisor.Machine.Run.{◌>>=◌}
use guypervisor.Machine.Returns
use guypervisor.Machine.Returns.{Returns, returns}
use guypervisor.Machine.Status.{IsDocumented}
use guypervisor.Detection.{
  ia32_cpu_version, is_cpuid_supported, vendor_is_intel, supports_vtx_operation, rev_bit,
}
use guypervisor.Device.{new_device, init_device, delete_guypervisor}
use guypervisor.Driver.{has_cpuid_flag_mask, set_up, entry_stages, entry_cleanup, driver_entry}

-- What the driver keeps is as before.
abbrev Idle : World → World → Type 0
Idle w w' =
    (w'.device ≡ w.device)
    × (w'.context ≡ w.context)
    × (w'.driver ≡ w.driver)
    × (w'.memory ≡ w.memory)

module _ (p : Platform) (w : World) where
  is_cpuid_supported-Idle : Returns (λ _. Idle w) (is_cpuid_supported p has_cpuid_flag_mask w)
  unfolding is_cpuid_supported
  is_cpuid_supported-Idle = returns (refl, refl, refl, refl)

  vendor_is_intel-Idle : Returns (λ _. Idle w) (vendor_is_intel p w)
  unfolding vendor_is_intel
  vendor_is_intel-Idle = returns (refl, refl, refl, refl)

  supports_vtx_operation-Idle :
      (p.cpu_info w.trace (cpuid ia32_cpu_version)).ecx / 2 ^ 26 % 2 ≡ 0
      → Returns (λ answer w'. (answer ≡ false) × Idle w w') (supports_vtx_operation p w)
  unfolding supports_vtx_operation rev_bit
  supports_vtx_operation-Idle clear = returns (ground arith, (refl, refl, refl, refl))

module _ (p : Platform) (fuel : ℕ) where
  entry_stages-Idle :
      (w : World)
      → ((t : Trace) → (p.cpu_info t (cpuid ia32_cpu_version)).ecx / 2 ^ 26 % 2 ≡ 0)
      → Returns (λ s w'. (s ≡ p.wdk.status_not_supported) × Idle w w') (entry_stages p fuel w)
  unfolding entry_stages
  entry_stages-Idle w clear = Returns.bind (is_cpuid_supported-Idle p w) λ b w1 i1.
      elim (Bool-cases b) [
        | inr lacks ↦ rw lacks (returns (refl, i1))
        | inl has ↦ rw has (
            Returns.bind (vendor_is_intel-Idle p w1) λ c w2 (d2, c2, o2, m2). elim (Bool-cases c) [
              | inr other ↦ rw other (returns (refl, (d2 ∙ i1.0, c2 ∙ i1.1, o2 ∙ i1.2, m2 ∙ i1.3)))
              | inl intel ↦ rw intel (
                  Returns.bind (supports_vtx_operation-Idle p w2 (clear w2.trace))
                    λ answer w3 (denied, (d3, c3, o3, m3)). rw denied (
                      returns
                        (refl, (d3 ∙ d2 ∙ i1.0, c3 ∙ c2 ∙ i1.1, o3 ∙ o2 ∙ i1.2, m3 ∙ m2 ∙ i1.3))))
            ])
      ]

  entry_cleanup-nothing :
      (status : ℕ) (w : World)
      → p.wdk.nt_success status ≡ false
      → w.device ≡ none
      → w.context ≡ none
      → Returns (λ s w'. (s ≡ status) × Idle w w') (entry_cleanup p fuel status w)
  unfolding entry_cleanup
  entry_cleanup-nothing status w failed no_device no_context =
      rw (failed, no_device, no_context) (returns (refl, (no_device, no_context, refl, refl)))

-- On a processor with bit 26 of ECX of leaf 1 clear, `DriverEntry` returns STATUS_NOT_SUPPORTED, with no
-- device and no context, and with the driver object and the memory as they were.
pub driver_entry-unsupported :
    (p : Platform) (fuel : ℕ) (w : World)
    → IsDocumented p.wdk
    → w.device ≡ none
    → w.context ≡ none
    → ((t : Trace) → (p.cpu_info t (cpuid ia32_cpu_version)).ecx / 2 ^ 26 % 2 ≡ 0)
    → Returns
        (λ s w'.
          (s ≡ 0xc00000bb)
          × (w'.device ≡ none)
          × (w'.context ≡ none)
          × (w'.driver ≡ w.driver)
          × (w'.memory ≡ w.memory))
        (driver_entry p fuel w)
unfolding driver_entry entry_stages entry_cleanup
driver_entry-unsupported p fuel w documented no_device no_context clear =
    Returns.bind (entry_stages-Idle p fuel w clear) λ s w1 (unsupported, (d, c, o, m)).
      let failed : p.wdk.nt_success s ≡ false =
        ground (arith, documented.not_supported, documented.failure_above s) in
      Returns.weaken (entry_cleanup-nothing p fuel s w1 failed (d ∙ no_device) (c ∙ no_context))
        λ s' w' (same, (d', c', o', m')). (
          same ∙ unsupported ∙ documented.not_supported,
          d' ∙ d ∙ no_device,
          c' ∙ c ∙ no_context,
          o' ∙ o,
          m' ∙ m,
        )

-- Where IoCreateDevice fails and stores nothing, the set-up and its clean-up return that failure, after
-- they have passed a null device to IoDeleteDevice.
pub set_up-of_failed_device :
    (p : Platform) (fuel : ℕ) (w : World)
    → let t = allocate_pool p.device_size ∷ w.trace in
      let location = p.datum w.trace (allocate_pool p.device_size) in
      w.context ≡ none
      → location ≢ 0
      → p.wdk.nt_success (p.code t create_device) ≡ false
      → p.loaded t create_device ≡ none
      → Returns
          (λ s w'.
            (s ≡ p.code t create_device)
            × (w'.trace ≡ free_pool location ∷ delete_device 0 ∷ create_device ∷ t))
          ((set_up p fuel >>= entry_cleanup p fuel) w)
unfolding set_up new_device init_device entry_cleanup delete_guypervisor
set_up-of_failed_device p fuel w no_context location failed nothing =
    let there : (p.datum w.trace (allocate_pool p.device_size) == 0) ≡ false = ground arith in
    rw (there, set_up) (rw (nothing, failed) (rw failed (rw no_context (returns (refl, refl)))))
