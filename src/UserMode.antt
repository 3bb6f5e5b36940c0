-- ===== src/UserMode.antt =====
-- The program in user mode (Guypervisor_usermode/Guypervisor_usermode/Guypervisor_usermode/
-- Guypervisor_usermode.cpp), by the calls of Windows that it makes, the first one first.
use guypervisor.Base.{ℕ, ◌-◌, ◌^◌, Bool, not, ◌==◌, if◌then◌else◌, List, [], ◌∷◌}
use guypervisor.Machine.{Wdk}

pub data UserCall : Type 0 where
  create_file_w : UserCall
  device_io_control : (device code : ℕ) → UserCall
  get_last_error getchar : UserCall
  exit : (status : ℕ) → UserCall

-- What Windows answers: the handle of the device, and whether the request succeeds.
pub record Windows : Type 0 where
  pub invalid_handle_value : ℕ
  pub created : ℕ
  pub controlled : (device code : ℕ) → Bool

-- `VMX_ENTER`
abbrev pub vmx_enter : Wdk → ℕ
vmx_enter k = k.ctl_code k.file_device_unknown 0x801 k.method_buffered k.file_any_access

-- `exit(-1)`, after the error has been printed.
abbrev pub failed : List UserCall
failed = get_last_error ∷ exit (2 ^ 32 - 1) ∷ []

-- `main`, whose last call is `exit` unless it returns 0.
unfoldable pub main : Wdk → Windows → List UserCall
main k windows =
    create_file_w
    ∷ (if windows.created == windows.invalid_handle_value
        then failed
        else device_io_control windows.created (vmx_enter k)
          ∷ (if not (windows.controlled windows.created (vmx_enter k))
              then failed
              else getchar ∷ []))
