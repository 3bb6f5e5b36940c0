-- ===== src/Virtualization/Enter/Resumed.antt =====
-- How the exit handler ends (Guypervisor/virtualization.cpp).
use guypervisor.Base.{ℕ, ◌≡◌, ◌≢◌, refl, ◌∷◌, ◌==◌, Bool-cases, inl, inr, arith}
use guypervisor.Machine.{Platform, World, Trace, vmread, vmresume}
use guypervisor.Machine.Ends.{Ends, ends, enters}
use guypervisor.VmxMode.{launched, mode}
use guypervisor.VmxMode.Cooperative.{IsCooperative}
use guypervisor.Fields.{encode, exit32}
use guypervisor.Fields.Exit.{exit_reason}
use guypervisor.Virtualization.Access.{read_vmcs_field_generic, read_reporting, read_reporting64}
use guypervisor.Virtualization.Enter.{vmexit_handler}

-- The calls up to the read of the exit reason.
abbrev pub reason_read : World → Trace
reason_read w = vmread (encode (exit32 exit_reason)) ∷ w.trace

-- After an exit of the launched guest, with fields that can be read, the exit handler reads the exit
-- reason and nothing else, executes VMRESUME as its last call, writes no memory and keeps the VMCS
-- launched; the guest runs again where VMRESUME succeeds, and the handler returns where it fails.
pub vmexit_handler-resumes :
    (p : Platform) (a fuel : ℕ) (w : World)
    → IsCooperative p
    → mode p.code w.trace ≡ launched a
    → Ends
        (λ _ w'.
          (p.code (reason_read w) vmresume ≢ 0)
          × (w'.trace ≡ vmresume ∷ reason_read w)
          × (mode p.code w'.trace ≡ launched a)
          × (w'.memory ≡ w.memory))
        (λ w'.
          (p.code (reason_read w) vmresume ≡ 0)
          × (w'.trace ≡ vmresume ∷ reason_read w)
          × (mode p.code w'.trace ≡ launched a)
          × (w'.memory ≡ w.memory))
        (vmexit_handler p fuel w)
unfolding vmexit_handler read_vmcs_field_generic read_reporting read_reporting64
vmexit_handler-resumes p a fuel w cooperative at =
    rw (cooperative.vmread_launched w.trace a (exit32 exit_reason) at, vmexit_handler)
      (elim (Bool-cases (p.code (reason_read w) vmresume == 0)) [
        | inl runs ↦ rw runs (enters (ground arith, refl, rw at refl, refl))
        | inr fails ↦ rw fails (ends (ground arith, refl, rw at refl, refl))
      ])
