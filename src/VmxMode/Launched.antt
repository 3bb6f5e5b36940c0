-- ===== src/VmxMode/Launched.antt =====
-- The machine when VMLAUNCH has given the processor to the guest.
use guypervisor.Base.{ℕ, ◌≡◌, ◌∷◌}
use guypervisor.Machine.{Platform, World, Trace, vmlaunch}
use guypervisor.VmxMode.{current, launched, mode}

-- The last call was a VMLAUNCH that succeeded, from a current VMCS that had not been launched.
pub record IsLaunched (p : Platform) (w : World) : Type 0 where
  pub region : ℕ
  pub earlier : Trace
  pub last : w.trace ≡ vmlaunch ∷ earlier
  pub succeeded : p.code earlier vmlaunch ≡ 0
  pub at_earlier : mode p.code earlier ≡ current region
  pub at : mode p.code w.trace ≡ launched region
