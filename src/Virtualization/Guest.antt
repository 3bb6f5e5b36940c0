-- ===== src/Virtualization/Guest.antt =====
-- The guest once it is launched: `guest_code` (Guypervisor/vmcs_init_helpers.asm) executes CPUID for ever,
-- each CPUID exits, and the exit goes to `vmexit_handler` (Guypervisor/virtualization.cpp).
pub mod Exits
use guypervisor.Base.{ℕ, zero, suc}
use guypervisor.Machine.{Platform}
use guypervisor.Machine.Run.{Io, enter_guest, until_exit}
use guypervisor.Virtualization.Enter.{vmexit_handler}

module _ (p : Platform) (fuel : ℕ) where
  -- The guest from its entry on, up to an exit of the loop and the ones after it.
  unfoldable pub guest_loop : (exits : ℕ) → Io (Unit {0})
  guest_loop zero = enter_guest
  guest_loop (suc exits) = λ w. until_exit (vmexit_handler p fuel w) (guest_loop exits)
