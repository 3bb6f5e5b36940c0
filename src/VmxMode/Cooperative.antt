-- ===== src/VmxMode/Cooperative.antt =====
-- What the theorems ask of a processor on which the set-up of VMX operation succeeds.
use guypervisor.Base.{ℕ, ◌-◌, ◌^◌, ◌<◌, ◌≡◌}
use guypervisor.Machine.{
  Trace, Platform, vmxon, vmclear, vmptrld, vmptrst, vmread, get_physical_address,
}
use guypervisor.VmxMode.{current, launched, mode}
use guypervisor.Fields.{VmcsField, encode}

-- VMXON, VMCLEAR and VMPTRLD succeed; VMREAD of a field of the enumeration succeeds where there is a
-- current VMCS, and VMPTRST stores its pointer before it is launched; no physical address is the pointer ~0 of "no current VMCS". Nothing is
-- asked of VMWRITE and VMLAUNCH.
pub record IsCooperative (p : Platform) : Type 0 where
  pub vmxon_succeeds : (t : Trace) (a : ℕ) → p.code t (vmxon a) ≡ 0
  pub vmclear_succeeds : (t : Trace) (a : ℕ) → p.code t (vmclear a) ≡ 0
  pub vmptrld_succeeds : (t : Trace) (a : ℕ) → p.code t (vmptrld a) ≡ 0
  pub vmread_succeeds :
      (t : Trace) (a : ℕ) (f : VmcsField)
      → mode p.code t ≡ current a
      → p.code t (vmread (encode f)) ≡ 0
  pub vmread_launched :
      (t : Trace) (a : ℕ) (f : VmcsField)
      → mode p.code t ≡ launched a
      → p.code t (vmread (encode f)) ≡ 0
  pub vmptrst_stores : (t : Trace) (a : ℕ) → mode p.code t ≡ current a → p.datum t vmptrst ≡ a
  pub physical_lt : (t : Trace) (a : ℕ) → p.datum t (get_physical_address a) < 2 ^ 64 - 1
