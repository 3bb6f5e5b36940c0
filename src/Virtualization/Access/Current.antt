-- ===== src/Virtualization/Access/Current.antt =====
-- With a current VMCS, the reads and writes of its fields return, and keep it current; a failed write
-- is seen in its status.
use guypervisor.Base.{
  ℕ, suc, ◌≡◌, refl, some, ◌==◌, ◌^◌, ◌%◌, true, if◌then◌else◌, arith, Bool-cases, inl, inr, bit_or,
  ◌↔◌, false, Bool, ◌+◌, ◌&&◌, ◌&&◌,
}
use guypervisor.Machine.{Platform, World, vmwrite}
use guypervisor.Machine.Run.{log, Io}
use guypervisor.Machine.Returns
use guypervisor.Machine.Returns.{Returns, returns}
use guypervisor.Machine.Status.{IsDocumented, status_failed_vmwrite, base_error}
use guypervisor.VmxMode.{current, mode, clean}
use guypervisor.VmxMode.Cooperative.{IsCooperative}
use guypervisor.Fields.{VmcsField, encode, exit32}
use guypervisor.Fields.Exit.{vm_instruction_error, exit_reason}
use guypervisor.Virtualization.Access.{
  read_reporting, print_reporting, print_vmx_error, write_vmcs_field64,
}
use guypervisor.Bits.Zero.{bit_or-zero_iff}

-- The current VMCS is the one at `a`, and the writes since the stop are as clean as `b` says.
pub record IsCurrent (p : Platform) (a stop : ℕ) (b : Bool) (w : World) : Type 0 where
  pub at : mode p.code w.trace ≡ current a
  pub since : clean p.code stop w.trace ≡ b

-- The current VMCS is the one at `a`, and the status is 0 exactly when no write since the stop failed.
pub record Reports (p : Platform) (a stop status : ℕ) (w : World) : Type 0 where
  pub at : mode p.code w.trace ≡ current a
  pub told : (status ≡ 0) ↔ (clean p.code stop w.trace ≡ true)

-- The code of the instruction that a write executes.
abbrev pub write_code : Platform → VmcsField → ℕ → World → ℕ
write_code p f v w = p.code w.trace (vmwrite (encode f) (v % 2 ^ 64))

module _ (p : Platform) (documented : IsDocumented p.wdk) (cooperative : IsCooperative p) where
  pub success_lem : p.wdk.nt_success p.wdk.status_success ≡ true
  success_lem = rw documented.success_zero (documented.success_below 0 (omega arith))

  pub failed_vmwrite_lem : status_failed_vmwrite p.wdk ≡ 1
  unfolding status_failed_vmwrite
  failed_vmwrite_lem = documented.error_above (base_error + 0x16) (omega arith) (omega arith)

  module _ {a stop : ℕ} {b : Bool} where
    pub read_reporting-IsCurrent :
        (report : Io ℕ) (width : ℕ) (e : VmcsField) (old : ℕ) (w : World)
        → IsCurrent p a stop b w
        → Returns
            (λ (s, v) w'. (s ≡ p.wdk.status_success) × IsCurrent p a stop b w')
            (read_reporting p report width e (some old) w)
    unfolding read_reporting
    read_reporting-IsCurrent report width e old w h =
        rw (cooperative.vmread_succeeds w.trace a e h.at)
          (returns (refl, record { at = rw h.at; since = h.since }))

    pub print_vmx_error-IsCurrent :
        (fuel : ℕ) (w : World)
        → IsCurrent p a stop b w
        → Returns (λ s w'. IsCurrent p a stop b w') (print_vmx_error p (suc fuel) w)
    unfolding print_vmx_error print_reporting
    print_vmx_error-IsCurrent fuel w h =
        Returns.bind
          (read_reporting-IsCurrent (print_vmx_error p fuel) 32 (exit32 vm_instruction_error) 0 w h)
          λ (s, v) w' (good, h').
            rw (good, success_lem)
              (Returns.bind
                (read_reporting-IsCurrent (print_vmx_error p fuel) 32 (exit32 exit_reason) 0 w' h')
                λ _ w'' (_, h''). returns h'')

  module _ {a : ℕ} (stop fuel : ℕ) (f : VmcsField) (v : ℕ) (w : World) where
    -- A write returns 0 or 1, by that code, and is counted since the stop.
    pub write_vmcs_field64-outcome :
        mode p.code w.trace ≡ current a
        → Returns
            (λ s w'.
              (s ≡ (if write_code p f v w == 0 then 0 else 1))
              × (mode p.code w'.trace ≡ current a)
              × (clean p.code stop w'.trace ≡ (
                  (write_code p f v w == 0)
                  && (if encode f == stop then true else clean p.code stop w.trace))))
            (write_vmcs_field64 p (suc fuel) f v w)
    unfolding write_vmcs_field64
    write_vmcs_field64-outcome at = elim (Bool-cases (write_code p f v w == 0)) [
      | inl fine ↦ rw (fine, write_vmcs_field64) (returns (documented.success_zero, rw at, rw fine))
      | inr failed ↦
          rw (failed, write_vmcs_field64)
            (Returns.bind
              (print_vmx_error-IsCurrent {a = a} {stop = stop} {b = false} fuel
                (log (vmwrite (encode f) (v % 2 ^ 64)) w)
                (record { at = rw at; since = rw failed }))
              λ _ w' h. returns (failed_vmwrite_lem, h.at, h.since))
    ]

    -- A write after the stop.
    pub write_vmcs_field64-Reports :
        (status : ℕ)
        → Reports p a stop status w
        → (encode f == stop) ≡ false
        → Returns
            (λ s w'. Reports p a stop (bit_or status s) w')
            (write_vmcs_field64 p (suc fuel) f v w)
    write_vmcs_field64-Reports status h other =
        Returns.weaken (write_vmcs_field64-outcome h.at) λ s w' (value, at, counted). record {
          at = at;
          told = ground (arith, bit_or-zero_iff status s, h.told);
        }

    -- The write of the stop itself.
    pub write_vmcs_field64-stop :
        mode p.code w.trace ≡ current a
        → (encode f == stop) ≡ true
        → Returns (λ s w'. Reports p a stop s w') (write_vmcs_field64 p (suc fuel) f v w)
    write_vmcs_field64-stop at same =
        Returns.weaken (write_vmcs_field64-outcome at)
          λ s w' (value, at', counted). record { at = at'; told = ground arith }
