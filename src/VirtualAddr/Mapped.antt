-- ===== src/VirtualAddr/Mapped.antt =====
-- What becomes of a write to physical memory (Guypervisor/virtual_addr_helpers.cpp).
use guypervisor.Base.{
  ℕ, ◌+◌, ◌≤◌, ◌<◌, ◌≡◌, ◌≢◌, ◌⊎◌, refl, true, false, ltb, ◌==◌, some, ◌∷◌, arith, Bool-cases, inl,
  inr,
}
use guypervisor.Machine.{Platform, World, map_view, unmap_view}
use guypervisor.Machine.Returns.{Returns, returns}
use guypervisor.Machine.Memory.{load, load-store}
use guypervisor.Machine.Status.{IsDocumented, status_failed_to_allocate_memory, base_error}
use guypervisor.VirtualAddr.Physical.{write_physical_memory, failed_byte, test_word}

failed_byte_lem : (p : Platform) → IsDocumented p.wdk → failed_byte p ≡ 1
unfolding status_failed_to_allocate_memory
failed_byte_lem p documented =
    rw (documented.error_above (base_error + 0x1) (omega arith) (omega arith)) refl

-- Where ZwMapViewOfSection stores a pointer that is not null, `WritePhysicalMemory` returns. For a length
-- below 4 that is TRUE, with nothing called and nothing written; for another one FALSE, with the memory
-- as it was, where the view cannot be mapped, else TRUE, with the four bytes at the pointer and the
-- view unmapped.
pub write_physical_memory-outcome :
    (p : Platform) (handle address length mapped : ℕ) (w : World)
    → IsDocumented p.wdk
    → p.loaded w.trace (map_view handle address length) ≡ some mapped
    → mapped ≢ 0
    → let mapping = p.code w.trace (map_view handle address length) in
      Returns
        (λ s w'.
          ((length < 4) × (s ≡ 1) × (w' ≡ w))
          ⊎ (((4 ≤ length)
                × (p.wdk.nt_success mapping ≡ false)
                × (s ≡ 0)
                × (w'.memory ≡ w.memory)
                × (w'.trace ≡ map_view handle address length ∷ w.trace))
              ⊎ ((4 ≤ length)
                  × (p.wdk.nt_success mapping ≡ true)
                  × (s ≡ 1)
                  × (load w'.memory 4 mapped ≡ test_word)
                  × (w'.trace ≡ unmap_view mapped ∷ map_view handle address length ∷ w.trace))))
        (write_physical_memory p handle address length w)
unfolding write_physical_memory
write_physical_memory-outcome p handle address length mapped w documented stored there =
    elim (Bool-cases (ltb length 4)) [
      | inl short ↦
          rw (short, write_physical_memory)
            (returns (inl (ground arith, failed_byte_lem p documented, refl)))
      | inr long ↦
          rw (long, write_physical_memory)
            (rw stored
              (elim (Bool-cases
                (p.wdk.nt_success (p.code w.trace (map_view handle address length)))) [
                  | inr failed ↦
                      rw failed (returns (inr (inl (ground arith, refl, refl, refl, refl))))
                  | inl fine ↦
                      let given : (mapped == 0) ≡ false = ground arith in
                      rw fine (
                        rw given (
                          returns (
                            inr (
                              inr (
                                ground arith,
                                refl,
                                refl,
                                load-store mapped test_word w.memory,
                                refl,
                              )))))
                ]))
    ]
