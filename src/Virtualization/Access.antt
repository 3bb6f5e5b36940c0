-- ===== src/Virtualization/Access.antt =====
-- Access to the fields of the current VMCS (Guypervisor/virtualization.cpp): the `WriteVMCSField…`
-- and `ReadVMCSField…` functions, and `PrintVMXError`. A failed `vmread` calls `PrintVMXError`, which
-- reads two fields itself: that recursion runs on fuel. A pointer to a destination is the value that
-- stands there, or `none` for `nullptr`. Widths are those of the 64-bit build.
pub mod Current
pub mod Recursion
use guypervisor.Base.{ℕ, zero, suc, ◌%◌, ◌^◌, Option, none, some, not, ◌==◌, if◌then◌else◌}
use guypervisor.Machine.{Platform, vmread, vmwrite}
use guypervisor.Machine.Run.{Io, pure, out_of_fuel, ◌>>=◌, ◌>>◌, attempt, load_field}
use guypervisor.Machine.Status.{status_failed_vmread, status_failed_vmwrite, status_nullptr_error}
use guypervisor.Fields.{VmcsField, encode, exit32}
use guypervisor.Fields.Exit.{vm_instruction_error, exit_reason}

abbrev value_at : Option ℕ → ℕ
value_at none = 0
value_at (some v) = v

module _ (p : Platform) where
  open p use {wdk}

  -- `ReadVMCSField64`; `report` stands for the call of `PrintVMXError`.
  unfoldable pub read_reporting64 : Io ℕ → VmcsField → Option ℕ → Io (ℕ × Option ℕ)
  read_reporting64 report e none = pure (status_nullptr_error wdk, none)
  read_reporting64 report e (some old) = do
    (code, v) ← load_field p (vmread (encode e)) old
    if code == 0
        then pure (wdk.status_success, some v)
        else do report; pure (status_failed_vmread wdk, some v)

  -- `ReadVMCSFieldGeneric`, for a type of `width` bits.
  unfoldable pub read_reporting : Io ℕ → (width : ℕ) → VmcsField → Option ℕ → Io (ℕ × Option ℕ)
  unfolding read_reporting64
  read_reporting report width e none = pure (status_nullptr_error wdk, none)
  read_reporting report width e (some old) = do
    (status, tmp) ← read_reporting64 report e (some 0)
    pure (status, if wdk.nt_success status then some (value_at tmp % 2 ^ width) else some old)

  -- The body of `PrintVMXError`. The texts that it prints are in Guypervisor/error_codes.cpp.
  unfoldable pub print_reporting : Io ℕ → Io ℕ
  unfolding read_reporting
  print_reporting report = do
    (status, instruction_error) ← read_reporting report 32 (exit32 vm_instruction_error) (some 0)
    if not (wdk.nt_success status) then pure status else do
      (status', reason) ← read_reporting report 32 (exit32 exit_reason) (some 0)
      pure status'

  unfoldable pub print_vmx_error : ℕ → Io ℕ
  unfolding print_reporting
  print_vmx_error zero = λ _. out_of_fuel
  print_vmx_error (suc fuel) = print_reporting (print_vmx_error fuel)

module _ (p : Platform) (fuel : ℕ) where
  open p use {wdk}

  unfoldable pub read_vmcs_field64 : VmcsField → Option ℕ → Io (ℕ × Option ℕ)
  read_vmcs_field64 = read_reporting64 p (print_vmx_error p fuel)

  unfoldable pub read_vmcs_field_generic : ℕ → VmcsField → Option ℕ → Io (ℕ × Option ℕ)
  read_vmcs_field_generic = read_reporting p (print_vmx_error p fuel)

  unfoldable pub read_vmcs_field_natural : VmcsField → Option ℕ → Io (ℕ × Option ℕ)
  unfolding read_vmcs_field64
  read_vmcs_field_natural = read_vmcs_field64

  unfoldable pub write_vmcs_field64 : VmcsField → ℕ → Io ℕ
  write_vmcs_field64 e v = do
    code ← attempt p (vmwrite (encode e) (v % 2 ^ 64))
    if code == 0
        then pure wdk.status_success
        else do print_vmx_error p fuel; pure (status_failed_vmwrite wdk)

  unfoldable pub write_vmcs_field32 : VmcsField → ℕ → Io ℕ
  write_vmcs_field32 e v = write_vmcs_field64 e (v % 2 ^ 32)

  unfoldable pub write_vmcs_field16 : VmcsField → ℕ → Io ℕ
  write_vmcs_field16 e v = write_vmcs_field64 e (v % 2 ^ 16)

  unfoldable pub write_vmcs_field_natural : VmcsField → ℕ → Io ℕ
  write_vmcs_field_natural = write_vmcs_field64
