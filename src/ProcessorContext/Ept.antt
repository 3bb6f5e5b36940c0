-- ===== src/ProcessorContext/Ept.antt =====
-- `InitializeEPT` (Guypervisor/processor_context.cpp), and the memory that it leaves.
use guypervisor.Base.{ℕ, zero, suc, ◌+◌, ◌*◌, ◌/◌}
use guypervisor.Machine.{Platform, allocate_pool, get_physical_address}
use guypervisor.Machine.Run.{Io, pure, ◌>>=◌, ◌>>◌, ask, the_context}
use guypervisor.Machine.Memory.{load, set_field, write_bytes}
use guypervisor.VirtualAddr.{zero_memory}
use guypervisor.ProcessorContext.{entry_count, through}

-- The bits `read_access`, `write_access` and `execute_access` of an entry.
abbrev pub with_access : ℕ → ℕ
with_access entry = set_field 2 1 1 (set_field 1 1 1 (set_field 0 1 1 entry))

module _ (p : Platform) where
  open p use {wdk}

  -- `pml4_entries[0]`
  unfoldable pub set_pml4_entry : (pml4 pdpte : ℕ) → Io (Unit {0})
  set_pml4_entry pml4 pdpte = do
    physical ← ask p (get_physical_address pdpte)
    λ w.
        write_bytes 8 pml4
          (set_field 12 40 (physical / wdk.page_size) (with_access (load w.memory 8 pml4))) w

  -- A loop with `left` rounds left, from index `i` on; `row i` is the address of `pde_entries[i][0]`. Each
  -- round sets the fields of `temp`, a copy of the entry, so nothing is written.
  unfoldable pub pdpte_loop : (row : ℕ → ℕ) → (left i : ℕ) → Io (Unit {0})
  pdpte_loop row zero i = pure tt
  pdpte_loop row (suc left) i = do
    physical ← ask p (get_physical_address (row i))
    pdpte_loop row left (i + 1)

  -- The rounds of `j`.
  unfoldable pub pde_row : (address : ℕ) → (left : ℕ) → Io (Unit {0})
  pde_row address zero = pure tt
  pde_row address (suc left) = do
    physical ← ask p (get_physical_address address)
    pde_row address left

  unfoldable pub pde_loop : (row : ℕ → ℕ) → (left i : ℕ) → Io (Unit {0})
  unfolding pde_row
  pde_loop row zero i = pure tt
  pde_loop row (suc left) i = do pde_row (row i) entry_count; pde_loop row left (i + 1)

  unfoldable pub initialize_ept : Io ℕ
  initialize_ept = do
    c ← the_context
    pdpte ← ask p (allocate_pool (entry_count * 8))
    through pdpte (zero_memory pdpte entry_count)
    pde ← ask p (allocate_pool (entry_count * entry_count * 8))
    through pde (zero_memory pde (entry_count * entry_count))
    through c.ept_pml4_entries (set_pml4_entry c.ept_pml4_entries pdpte)
    pdpte_loop (λ i. pde + i * (entry_count * 8)) entry_count 0
    pde_loop (λ i. pde + i * (entry_count * 8)) entry_count 0
    pure wdk.status_success
