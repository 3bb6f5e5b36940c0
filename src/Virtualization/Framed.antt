-- ===== src/Virtualization/Framed.antt =====
-- What the functions of Guypervisor/virtualization.cpp leave alone: the access to fields, and the functions
-- that enter and leave VMX operation.
pub mod Populate
use guypervisor.Base.{
  ℕ, zero, suc, refl, Option, none, some, List, [], ◌∷◌, ◌==◌, Bool-cases, inl, inr,
}
use guypervisor.Machine.{Platform}
use guypervisor.Machine.Run.{Io, out_of_fuel}
use guypervisor.Machine.Frame.{
  IsFramed, framed, frames, out_of_fuel-IsFramed, crash_same, done_same, IsSame-refl,
}
use guypervisor.Msr.{Msr}
use guypervisor.Fields.{VmcsField}
use guypervisor.Virtualization.Access.{
  read_reporting64, read_reporting, print_reporting, print_vmx_error, write_vmcs_field64,
  write_vmcs_field32, write_vmcs_field16, write_vmcs_field_natural,
}
use guypervisor.Virtualization.Enter.{
  set_revision, fix_control_registers, enable_feature_control, enter_vmxon_mode,
  modify_control_value, initialize_vmcs, launch_guest, clear_active_vmcs,
}

set_revision-IsFramed : (region id : ℕ) → IsFramed (set_revision region id)
unfolding set_revision
set_revision-IsFramed region id = framed λ w. elim (Bool-cases (region == 0)) [
  | inl null ↦ rw null (crash_same (IsSame-refl w))
  | inr there ↦
      rw there
        (done_same (record { context = refl; device = refl; driver = refl; completed = refl }))
]

module _ (p : Platform) where
  read_reporting64-IsFramed :
      (report : Io ℕ) (e : VmcsField) (old : Option ℕ)
      → IsFramed report
      → IsFramed (read_reporting64 p report e old)
  unfolding read_reporting64
  read_reporting64-IsFramed report e none f = search frames depth 80
  read_reporting64-IsFramed report e (some v) f = search frames depth 80

  pub read_reporting-IsFramed :
      (report : Io ℕ) (width : ℕ) (e : VmcsField) (old : Option ℕ)
      → IsFramed report
      → IsFramed (read_reporting p report width e old)
  unfolding read_reporting
  read_reporting-IsFramed report width e none f = search frames depth 80
  read_reporting-IsFramed report width e (some v) f =
      search (frames, read_reporting64-IsFramed) depth 80

  print_reporting-IsFramed : (report : Io ℕ) → IsFramed report → IsFramed (print_reporting p report)
  unfolding print_reporting
  print_reporting-IsFramed report f = search (frames, read_reporting-IsFramed) depth 80

  pub print_vmx_error-IsFramed : (fuel : ℕ) → IsFramed (print_vmx_error p fuel)
  unfolding print_vmx_error
  print_vmx_error-IsFramed zero = out_of_fuel-IsFramed
  print_vmx_error-IsFramed (suc fuel) = print_reporting-IsFramed _ (print_vmx_error-IsFramed fuel)

  pub write_vmcs_field64-IsFramed :
      (fuel : ℕ) (e : VmcsField) (v : ℕ) → IsFramed (write_vmcs_field64 p fuel e v)
  unfolding write_vmcs_field64
  write_vmcs_field64-IsFramed fuel e v =
      search (frames, print_vmx_error-IsFramed) depth 80 fits 20000

  pub write_vmcs_field32-IsFramed :
      (fuel : ℕ) (e : VmcsField) (v : ℕ) → IsFramed (write_vmcs_field32 p fuel e v)
  unfolding write_vmcs_field32
  write_vmcs_field32-IsFramed fuel e v = write_vmcs_field64-IsFramed fuel e _

  pub write_vmcs_field16-IsFramed :
      (fuel : ℕ) (e : VmcsField) (v : ℕ) → IsFramed (write_vmcs_field16 p fuel e v)
  unfolding write_vmcs_field16
  write_vmcs_field16-IsFramed fuel e v = write_vmcs_field64-IsFramed fuel e _

  pub write_vmcs_field_natural-IsFramed :
      (fuel : ℕ) (e : VmcsField) (v : ℕ) → IsFramed (write_vmcs_field_natural p fuel e v)
  unfolding write_vmcs_field_natural
  write_vmcs_field_natural-IsFramed fuel e v = write_vmcs_field64-IsFramed fuel e _

  pub fix_control_registers-IsFramed : IsFramed (fix_control_registers p)
  unfolding fix_control_registers
  fix_control_registers-IsFramed = search frames depth 80 fits 20000

  pub enable_feature_control-IsFramed : IsFramed (enable_feature_control p)
  unfolding enable_feature_control
  enable_feature_control-IsFramed = search frames depth 80 fits 20000

  pub modify_control_value-IsFramed :
      (register : Msr) (requested : ℕ) → IsFramed (modify_control_value p register requested)
  unfolding modify_control_value
  modify_control_value-IsFramed register requested = search frames depth 80 fits 20000

  pub enter_vmxon_mode-IsFramed : IsFramed (enter_vmxon_mode p)
  unfolding enter_vmxon_mode
  enter_vmxon_mode-IsFramed =
      search
        (
          frames, fix_control_registers-IsFramed, enable_feature_control-IsFramed,
          set_revision-IsFramed,
        )
        depth 80 fits 20000

  pub initialize_vmcs-IsFramed : IsFramed (initialize_vmcs p)
  unfolding initialize_vmcs
  initialize_vmcs-IsFramed = search (frames, set_revision-IsFramed) depth 80 fits 20000

  pub launch_guest-IsFramed : (fuel : ℕ) → IsFramed (launch_guest p fuel)
  unfolding launch_guest
  launch_guest-IsFramed fuel = search (frames, print_vmx_error-IsFramed) depth 80 fits 20000

  pub clear_active_vmcs-IsFramed : (fuel : ℕ) → IsFramed (clear_active_vmcs p fuel)
  unfolding clear_active_vmcs
  clear_active_vmcs-IsFramed fuel = search (frames, print_vmx_error-IsFramed) depth 80 fits 20000
