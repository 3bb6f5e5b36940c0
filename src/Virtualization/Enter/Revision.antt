-- ===== src/Virtualization/Enter/Revision.antt =====
-- The revision identifier that `EnterVmxonMode` and `InitializeVMCS` write
-- (Guypervisor/virtualization.cpp).
use guypervisor.Base.{ℕ, ◌+◌, ◌*◌, ◌/◌, ◌%◌, ◌^◌, ◌≡◌, ◌≢◌, refl, false, ◌==◌, arith, ◌∙◌}
use guypervisor.Machine.{World}
use guypervisor.Machine.Memory.{load-store, load, set_field}
use guypervisor.Machine.Returns.{Returns, returns}
use guypervisor.ProcessorContext.Tables.{Apart, store-Apart}
use guypervisor.Virtualization.Enter.{set_revision}

-- In a region that is not null, the low 31 bits of the first word are those of the identifier, its bit 31
-- is as it was, and so is every byte `b` outside that word.
pub set_revision-stored :
    (region id b : ℕ) (w : World)
    → region ≢ 0
    → Apart region 4 b
    → Returns
        (λ _ w'.
          (load w'.memory 4 region ≡ load w.memory 4 region / 2 ^ 31 % 2 * 2 ^ 31 + id % 2 ^ 31)
          × (w'.memory b ≡ w.memory b)
          × (w'.trace ≡ w.trace))
        (set_revision region id w)
unfolding set_revision
set_revision-stored region id b w ne apart =
    let there : (region == 0) ≡ false = ground arith in
    rw (there, set_revision)
      (returns (
        load-store region (set_field 0 31 id (load w.memory 4 region)) w.memory ∙ omega arith,
        store-Apart 4 region _ w.memory b apart,
        refl,
      ))
