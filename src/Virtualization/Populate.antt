-- ===== src/Virtualization/Populate.antt =====
-- `PopulateActiveVMCS` (Guypervisor/virtualization.cpp), in three parts: the control fields, the
-- segments and the registers. A run of consecutive `status |= WriteVMCSField…` is a list of writes. The
-- lines that are printed are left out, and the registers that they read again are read.
pub mod Kept
pub mod Status
pub mod Controls
pub mod Segments
pub mod Registers
pub mod Written
pub mod Targets
pub mod Expected
pub mod Promised
pub mod Once
use guypervisor.Base.{ℕ}
use guypervisor.Machine.{Platform}
use guypervisor.Machine.Run.{Io, pure, ◌>>=◌, ◌>>◌}
use guypervisor.Virtualization.Dump.{dump_vmcs_guest_area}
use Controls.{populate_controls}
use Segments.{populate_segments}
use Registers.{populate_registers}

module _ (p : Platform) (fuel : ℕ) where
  unfoldable pub populate_active_vmcs : Io ℕ
  populate_active_vmcs = do
    status ← populate_controls p fuel
    status ← populate_segments p fuel status
    status ← populate_registers p fuel status
    dump_vmcs_guest_area p fuel
    pure status
