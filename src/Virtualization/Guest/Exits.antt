-- ===== src/Virtualization/Guest/Exits.antt =====
-- The exits of the launched guest, one after another.
use guypervisor.Base.{ℕ, zero, suc, ◌∷◌}
use guypervisor.Machine.{Trace, vmread, vmresume}
use guypervisor.Fields.{encode, exit32}
use guypervisor.Fields.Exit.{exit_reason}

-- The calls of a number of exits: the read of the exit reason, and VMRESUME.
abbrev pub exit_calls : ℕ → Trace → Trace
exit_calls zero t = t
exit_calls (suc exits) t = exit_calls exits (vmresume ∷ vmread (encode (exit32 exit_reason)) ∷ t)
