-- ===== src/Virtualization/Populate/Promised.antt =====
-- How often the fields of the enumeration are among those that `PopulateActiveVMCS` writes
-- (Guypervisor/virtualization.cpp).
use guypervisor.Base.{
  ℕ, suc, ◌+◌, ◌≡◌, refl, if◌then◌else◌, ◌==◌, List, [], ◌∷◌, arith, Bool-cases, inl, inr, ◌∙◌,
}
use guypervisor.Fields.{
  VmcsField, encode, control16, guest16, host16, control64, exit64, guest64, host64, control32,
  exit32, guest32, host32, control_natural, exit_natural, guest_natural, host_natural,
}
use guypervisor.Fields.Control.{
  Control16, control_vpid, Control64, control_address_io_bitmap_a_full, Control32,
  control_pin_based_vm_execution_controls, ControlNatural, control_cr0_mask,
}
use guypervisor.Fields.Guest.{
  Guest16, guest_es_selector, Guest64, guest_vmcs_link_ptr_full, Guest32, guest_es_limit,
  GuestNatural, guest_cr0,
}
use guypervisor.Fields.Host.{
  Host16, host_es_selector, Host64, host_ia32_pat_full, Host32, host_ia32_sysenter_cs, HostNatural,
  host_cr0,
}
use guypervisor.Fields.Exit.{
  Exit64, guest_physical_addr_full, Exit32, vm_instruction_error, ExitNatural,
  vm_exit_qualification,
}
use guypervisor.Virtualization.Populate.Targets.{populated}
use guypervisor.Virtualization.Populate.Written.{encodings}
use guypervisor.Virtualization.Populate.Expected.{promise}

-- How often a number stands in a list, and an encoding among fields.
unfoldable pub times : ℕ → List ℕ → ℕ
times n [] = 0
times n (x ∷ xs) = let rest = times n xs in if x == n then suc rest else rest

unfoldable pub occurrences : ℕ → List VmcsField → ℕ
occurrences n [] = 0
occurrences n (f ∷ fs) = let rest = occurrences n fs in if encode f == n then suc rest else rest

pub times-encodings :
    (n : ℕ) (fs : List VmcsField) (es : List ℕ)
    → times n (encodings fs es) ≡ times n es + occurrences n fs
unfolding times occurrences
times-encodings n [] es = omega arith
times-encodings n (f ∷ fs) es =
    times-encodings n fs (encode f ∷ es) ∙ elim (Bool-cases (encode f == n)) [
      | inl same ↦ rw same (omega arith)
      | inr other ↦ rw other refl
    ]

occurrences-control16 :
    (f : Control16) → occurrences (encode (control16 f)) populated ≡ promise (control16 f)
unfolding occurrences encode
occurrences-control16 control_vpid = refl
occurrences-control16 _ = refl

occurrences-guest16 :
    (f : Guest16) → occurrences (encode (guest16 f)) populated ≡ promise (guest16 f)
unfolding occurrences encode
occurrences-guest16 guest_es_selector = refl
occurrences-guest16 _ = refl

occurrences-host16 : (f : Host16) → occurrences (encode (host16 f)) populated ≡ promise (host16 f)
unfolding occurrences encode
occurrences-host16 host_es_selector = refl
occurrences-host16 _ = refl

occurrences-control64 :
    (f : Control64) → occurrences (encode (control64 f)) populated ≡ promise (control64 f)
unfolding occurrences encode
occurrences-control64 control_address_io_bitmap_a_full = refl
occurrences-control64 _ = refl

occurrences-exit64 : (f : Exit64) → occurrences (encode (exit64 f)) populated ≡ promise (exit64 f)
unfolding occurrences encode
occurrences-exit64 guest_physical_addr_full = refl
occurrences-exit64 _ = refl

occurrences-guest64 :
    (f : Guest64) → occurrences (encode (guest64 f)) populated ≡ promise (guest64 f)
unfolding occurrences encode
occurrences-guest64 guest_vmcs_link_ptr_full = refl
occurrences-guest64 _ = refl

occurrences-host64 : (f : Host64) → occurrences (encode (host64 f)) populated ≡ promise (host64 f)
unfolding occurrences encode
occurrences-host64 host_ia32_pat_full = refl
occurrences-host64 _ = refl

occurrences-control32 :
    (f : Control32) → occurrences (encode (control32 f)) populated ≡ promise (control32 f)
unfolding occurrences encode
occurrences-control32 control_pin_based_vm_execution_controls = refl
occurrences-control32 _ = refl

occurrences-exit32 : (f : Exit32) → occurrences (encode (exit32 f)) populated ≡ promise (exit32 f)
unfolding occurrences encode
occurrences-exit32 vm_instruction_error = refl
occurrences-exit32 _ = refl

occurrences-guest32 :
    (f : Guest32) → occurrences (encode (guest32 f)) populated ≡ promise (guest32 f)
unfolding occurrences encode
occurrences-guest32 guest_es_limit = refl
occurrences-guest32 _ = refl

occurrences-host32 : (f : Host32) → occurrences (encode (host32 f)) populated ≡ promise (host32 f)
unfolding occurrences encode
occurrences-host32 host_ia32_sysenter_cs = refl

occurrences-control_natural :
    (f : ControlNatural)
    → occurrences (encode (control_natural f)) populated ≡ promise (control_natural f)
unfolding occurrences encode
occurrences-control_natural control_cr0_mask = refl
occurrences-control_natural _ = refl

occurrences-exit_natural :
    (f : ExitNatural) → occurrences (encode (exit_natural f)) populated ≡ promise (exit_natural f)
unfolding occurrences encode
occurrences-exit_natural vm_exit_qualification = refl
occurrences-exit_natural _ = refl

occurrences-guest_natural :
    (f : GuestNatural)
    → occurrences (encode (guest_natural f)) populated ≡ promise (guest_natural f)
unfolding occurrences encode
occurrences-guest_natural guest_cr0 = refl
occurrences-guest_natural _ = refl

occurrences-host_natural :
    (f : HostNatural) → occurrences (encode (host_natural f)) populated ≡ promise (host_natural f)
unfolding occurrences encode
occurrences-host_natural host_cr0 = refl
occurrences-host_natural _ = refl

pub occurrences-promise : (f : VmcsField) → occurrences (encode f) populated ≡ promise f
occurrences-promise (control16 f) = occurrences-control16 f
occurrences-promise (guest16 f) = occurrences-guest16 f
occurrences-promise (host16 f) = occurrences-host16 f
occurrences-promise (control64 f) = occurrences-control64 f
occurrences-promise (exit64 f) = occurrences-exit64 f
occurrences-promise (guest64 f) = occurrences-guest64 f
occurrences-promise (host64 f) = occurrences-host64 f
occurrences-promise (control32 f) = occurrences-control32 f
occurrences-promise (exit32 f) = occurrences-exit32 f
occurrences-promise (guest32 f) = occurrences-guest32 f
occurrences-promise (host32 f) = occurrences-host32 f
occurrences-promise (control_natural f) = occurrences-control_natural f
occurrences-promise (exit_natural f) = occurrences-exit_natural f
occurrences-promise (guest_natural f) = occurrences-guest_natural f
occurrences-promise (host_natural f) = occurrences-host_natural f
