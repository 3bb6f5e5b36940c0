-- ===== src/Driver/Started/Tables.antt =====
-- `InitializeEPT` on an equipped machine (Guypervisor/processor_context.cpp).
use guypervisor.Base.{ℕ, zero, suc, ◌+◌, ◌≡◌, ◌≢◌, refl, ◌∙◌, false, ◌==◌, some, arith, ◌∷◌}
use guypervisor.Machine.{Platform, World, ProcessorContext, allocate_pool}
use guypervisor.Machine.Returns
use guypervisor.Machine.Returns.{Returns, returns}
use guypervisor.ProcessorContext.{entry_count}
use guypervisor.ProcessorContext.Ept.{set_pml4_entry, pdpte_loop, pde_row, pde_loop, initialize_ept}
use guypervisor.Driver.Equipped.{IsEquipped, IsKept, IsKept-trans}

-- A loop that leaves the context as well.
abbrev Passes : Platform → World → World → Type 0
Passes p w w' = (w'.context ≡ w.context) × IsKept p w w'

module _ (p : Platform) where
  passed : (w : World) → Passes p w w
  passed w = (refl, record { device = refl; driver = refl; at = refl; completed = refl })

  after_call : {u v w : World} → Passes p u v → Passes p v w → Passes p u w
  after_call (c1, k1) (c2, k2) = (c2 ∙ c1, IsKept-trans p k1 k2)

  pdpte_loop-Passes :
      (row : ℕ → ℕ) (left i : ℕ) (w : World) → Returns (λ _. Passes p w) (pdpte_loop p row left i w)
  unfolding pdpte_loop
  pdpte_loop-Passes row zero i w = returns (passed w)
  pdpte_loop-Passes row (suc left) i w =
      Returns.weaken (pdpte_loop-Passes row left (i + 1) _) λ _ _ h.
        after_call (refl, record { device = refl; driver = refl; at = refl; completed = refl }) h

  pde_row-Passes :
      (address left : ℕ) (w : World) → Returns (λ _. Passes p w) (pde_row p address left w)
  unfolding pde_row
  pde_row-Passes address zero w = returns (passed w)
  pde_row-Passes address (suc left) w = Returns.weaken (pde_row-Passes address left _) λ _ _ h.
      after_call (refl, record { device = refl; driver = refl; at = refl; completed = refl }) h

  pde_loop-Passes :
      (row : ℕ → ℕ) (left i : ℕ) (w : World) → Returns (λ _. Passes p w) (pde_loop p row left i w)
  unfolding pde_loop
  pde_loop-Passes row zero i w = returns (passed w)
  pde_loop-Passes row (suc left) i w =
      Returns.bind (pde_row-Passes (row i) entry_count w)
        λ _ w1 h1. Returns.weaken (pde_loop-Passes row left (i + 1) w1) λ _ w2 h2. after_call h1 h2

  pub initialize_ept-IsKept :
      (c : ProcessorContext) (w : World)
      → IsEquipped p
      → w.context ≡ some c
      → c.ept_pml4_entries ≢ 0
      → Returns
          (λ s w'. (s ≡ p.wdk.status_success) × (w'.context ≡ some c) × IsKept p w w')
          (initialize_ept p w)
  unfolding initialize_ept set_pml4_entry
  initialize_ept-IsKept c w equipped known ne =
      let table : (c.ept_pml4_entries == 0) ≡ false = ground arith in
      let there : p.datum w.trace (allocate_pool 4096) ≢ 0 =
        equipped.pool_given _ _ (omega arith) in
      let there' : p.datum (allocate_pool 4096 ∷ w.trace) (allocate_pool 2097152) ≢ 0 =
        equipped.pool_given _ _ (omega arith) in
      let second : (p.datum w.trace (allocate_pool 4096) == 0) ≡ false = ground arith in
      let third : (p.datum (allocate_pool 4096 ∷ w.trace) (allocate_pool 2097152) == 0) ≡ false =
        ground arith in
      rw (known, initialize_ept)
        (rw second (
          rw third (
            rw table (
              Returns.bind (pdpte_loop-Passes _ entry_count 0 _) λ _ w1 h1.
                Returns.bind (pde_loop-Passes _ entry_count 0 w1) λ _ w2 h2.
                  let h : Passes p _ w2 = after_call h1 h2 in
                  returns (
                    refl,
                    h.0,
                    record {
                      device = h.1.device;
                      driver = h.1.driver;
                      at = h.1.at;
                      completed = h.1.completed;
                    },
                  )))))
