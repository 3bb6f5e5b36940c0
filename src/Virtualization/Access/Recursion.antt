-- ===== src/Virtualization/Access/Recursion.antt =====
-- Where fields cannot be read, `PrintVMXError` calls itself without end.
use guypervisor.Base.{ℕ, zero, suc, ◌≡◌, ◌≢◌, refl, false, ◌==◌, ◌^◌, ◌%◌, arith}
use guypervisor.Machine.{Platform, World, Trace, vmread, vmwrite}
use guypervisor.Machine.Run.{out_of_fuel, log}
use guypervisor.Fields.{VmcsField, encode, exit32}
use guypervisor.Fields.Exit.{vm_instruction_error}
use guypervisor.Virtualization.Access.{
  read_reporting64, read_reporting, print_reporting, print_vmx_error, write_vmcs_field64,
}

-- `vmread` of the instruction error fails, whatever has happened before: so it does outside VMX
-- operation's use of a current VMCS.
abbrev pub Unreadable : Platform → Type 0
Unreadable p = (t : Trace) → p.code t (vmread (encode (exit32 vm_instruction_error))) ≢ 0

module _ (p : Platform) (unreadable : Unreadable p) where
  print_vmx_error-out_of_fuel : (fuel : ℕ) (w : World) → print_vmx_error p fuel w ≡ out_of_fuel
  unfolding print_vmx_error print_reporting read_reporting read_reporting64
  print_vmx_error-out_of_fuel zero w = refl
  print_vmx_error-out_of_fuel (suc fuel) w =
      let e : ℕ = encode (exit32 vm_instruction_error) in
      let failed : (p.code w.trace (vmread e) == 0) ≡ false = ground (arith, unreadable w.trace) in
      rw (failed, print_reporting) (rw (print_vmx_error-out_of_fuel fuel (log (vmread e) w)))

  -- Where the instruction error cannot be read, neither `PrintVMXError` nor a write that fails ever
  -- returns: no amount of fuel is enough.
  pub unreadable_never_returns :
      (fuel : ℕ) (w : World) (f : VmcsField) (v : ℕ)
      → p.code w.trace (vmwrite (encode f) (v % 2 ^ 64)) ≢ 0
      → (print_vmx_error p fuel w ≡ out_of_fuel) × (write_vmcs_field64 p fuel f v w ≡ out_of_fuel)
  unfolding write_vmcs_field64
  unreadable_never_returns fuel w f v failed =
      let test : (p.code w.trace (vmwrite (encode f) (v % 2 ^ 64)) == 0) ≡ false = ground arith in
      (
        print_vmx_error-out_of_fuel fuel w,
        rw (test, write_vmcs_field64)
            (rw (print_vmx_error-out_of_fuel fuel (log (vmwrite (encode f) (v % 2 ^ 64)) w))),
      )
