-- ===== src/Machine/Status.antt =====
-- The codes of Guypervisor/custom_status_codes.h, and what wdm.h documents of its macros.
use guypervisor.Base.{ℕ, ◌+◌, ◌*◌, ◌^◌, ◌≤◌, ◌<◌, ◌≡◌, true, false}
use guypervisor.Machine.{Wdk}

abbrev pub base_error : ℕ
base_error = 0xc0133700

module _ (k : Wdk) where
  unfoldable pub status_failed_to_allocate_memory : ℕ
  status_failed_to_allocate_memory = k.nt_error (base_error + 0x1)

  unfoldable pub status_failed_vmxon : ℕ
  status_failed_vmxon = k.nt_error (base_error + 0x10)

  unfoldable pub status_failed_vmptrld : ℕ
  status_failed_vmptrld = k.nt_error (base_error + 0x12)

  unfoldable pub status_failed_vmclear : ℕ
  status_failed_vmclear = k.nt_error (base_error + 0x13)

  unfoldable pub status_failed_vmlaunch : ℕ
  status_failed_vmlaunch = k.nt_error (base_error + 0x14)

  unfoldable pub status_failed_vmread : ℕ
  status_failed_vmread = k.nt_error (base_error + 0x15)

  unfoldable pub status_failed_vmwrite : ℕ
  status_failed_vmwrite = k.nt_error (base_error + 0x16)

  unfoldable pub status_nullptr_error : ℕ
  status_nullptr_error = k.nt_error (base_error + 0x30)

-- `NT_SUCCESS` holds of the success and informational statuses, the patterns below 2 ^ 31; `NT_ERROR`
-- is a test, 1 on the patterns from 3 * 2 ^ 30 on and 0 on the others.
pub record IsDocumented (k : Wdk) : Type 0 where
  pub success_below : (s : ℕ) → s < 2 ^ 31 → k.nt_success s ≡ true
  pub failure_above : (s : ℕ) → 2 ^ 31 ≤ s → s < 2 ^ 32 → k.nt_success s ≡ false
  pub error_above : (s : ℕ) → 3 * 2 ^ 30 ≤ s → s < 2 ^ 32 → k.nt_error s ≡ 1
  pub error_below : (s : ℕ) → s < 3 * 2 ^ 30 → k.nt_error s ≡ 0
  pub success_zero : k.status_success ≡ 0
  pub not_supported : k.status_not_supported ≡ 0xc00000bb
  pub page_lem : k.page_size ≡ 4096
  pub create_zero : k.irp_mj_create ≡ 0x00
  pub close_two : k.irp_mj_close ≡ 0x02
  pub write_four : k.irp_mj_write ≡ 0x04
  pub device_control_fourteen : k.irp_mj_device_control ≡ 0x0e
  pub maximum_function : k.irp_mj_maximum_function ≡ 0x1b
