-- ===== src/ProcessorContext/Tables.antt =====
-- What `InitializeEPT` writes (Guypervisor/processor_context.cpp).
use guypervisor.Base.{
  ℕ, zero, suc, ◌+◌, ◌/◌, ◌%◌, ◌≤◌, ◌<◌, ◌≡◌, ◌≢◌, ◌⊎◌, refl, false, if◌then◌else◌, ap, ◌==◌, some,
  ◌∷◌, arith, ◌∙◌,
}
use guypervisor.Machine.{Platform, World, ProcessorContext, allocate_pool}
use guypervisor.Machine.Returns
use guypervisor.Machine.Returns.{Returns, returns}
use guypervisor.Machine.Memory.{store}
use guypervisor.ProcessorContext.{entry_count}
use guypervisor.ProcessorContext.Ept.{set_pml4_entry, pdpte_loop, pde_row, pde_loop, initialize_ept}

-- The address `b` is not one of the `n` bytes from `a` on.
abbrev pub Apart : (a n b : ℕ) → Type 0
Apart a n b = (b < a) ⊎ (a + n ≤ b)

pub store-Apart : (n a v : ℕ) (m : ℕ → ℕ) (b : ℕ) → Apart a n b → store n a v m b ≡ m b
unfolding store
store-Apart zero a v m b h = refl
store-Apart (suc n) a v m b h =
    ground (arith, store-Apart n (a + 1) (v / 256) (λ c. if c == a then v % 256 else m c) b)

abbrev Unwritten : World → World → Type 0
Unwritten w w' = (w'.memory ≡ w.memory) × (w'.context ≡ w.context)

module _ (p : Platform) where
  pdpte_loop-Unwritten :
      (row : ℕ → ℕ) (left i : ℕ) (w : World)
      → Returns (λ _. Unwritten w) (pdpte_loop p row left i w)
  unfolding pdpte_loop
  pdpte_loop-Unwritten row zero i w = returns (refl, refl)
  pdpte_loop-Unwritten row (suc left) i w = pdpte_loop-Unwritten row left (i + 1) _

  pde_row-Unwritten :
      (address left : ℕ) (w : World) → Returns (λ _. Unwritten w) (pde_row p address left w)
  unfolding pde_row
  pde_row-Unwritten address zero w = returns (refl, refl)
  pde_row-Unwritten address (suc left) w = pde_row-Unwritten address left _

  pde_loop-Unwritten :
      (row : ℕ → ℕ) (left i : ℕ) (w : World) → Returns (λ _. Unwritten w) (pde_loop p row left i w)
  unfolding pde_loop
  pde_loop-Unwritten row zero i w = returns (refl, refl)
  pde_loop-Unwritten row (suc left) i w =
      Returns.bind (pde_row-Unwritten (row i) entry_count w) λ _ w1 (m1, c1).
        Returns.weaken (pde_loop-Unwritten row left (i + 1) w1) λ _ w2 (m2, c2). (m2 ∙ m1, c2 ∙ c1)

-- With a context and a first table, and where the pool has memory for the two others, `InitializeEPT`
-- returns 0 with the context as it was, and it writes nothing apart from the first entry of the first
-- table, the first 512 bytes of the second, of 4096, and the first 262144 of the third, of 2097152: every
-- other entry is what the memory held before.
pub initialize_ept-Apart :
    (p : Platform) (c : ProcessorContext) (w : World) (b : ℕ)
    → let pdpte = p.datum w.trace (allocate_pool 4096) in
      let pde = p.datum (allocate_pool 4096 ∷ w.trace) (allocate_pool 2097152) in
      w.context ≡ some c
      → c.ept_pml4_entries ≢ 0
      → pdpte ≢ 0
      → pde ≢ 0
      → Apart c.ept_pml4_entries 8 b
      → Apart pdpte 512 b
      → Apart pde 262144 b
      → Returns
          (λ s w'. (s ≡ p.wdk.status_success) × (w'.context ≡ some c) × (w'.memory b ≡ w.memory b))
          (initialize_ept p w)
unfolding initialize_ept set_pml4_entry
initialize_ept-Apart p c w b known ne1 ne2 ne3 apart1 apart2 apart3 =
    let table : (c.ept_pml4_entries == 0) ≡ false = ground arith in
    let second : (p.datum w.trace (allocate_pool 4096) == 0) ≡ false = ground arith in
    let third : (p.datum (allocate_pool 4096 ∷ w.trace) (allocate_pool 2097152) == 0) ≡ false =
      ground arith in
    rw (known, initialize_ept)
      (rw second (
        rw third (
          rw table (
            Returns.bind (pdpte_loop-Unwritten p _ entry_count 0 _) λ _ w1 (m1, c1).
              Returns.bind (pde_loop-Unwritten p _ entry_count 0 w1) λ _ w2 (m2, c2). returns (
                refl,
                c2 ∙ c1,
                ap (λ m. m b) (m2 ∙ m1) ∙ store-Apart 8 _ _ _ b apart1 ∙ ground arith,
              )))))
