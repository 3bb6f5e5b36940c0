-- ===== src/Tests/Requests.antt =====
-- The theorems on requests and on VMX operation at concrete inputs.
use guypervisor.Fields.{guest16}
use guypervisor.Fields.Guest.{guest_cs_selector}
use guypervisor.Virtualization.Access.Current.{Reports}
use guypervisor.Virtualization.Write.{word16, write_each}
use guypervisor.Virtualization.Write.Reported.{write_each-Reports}
use guypervisor.Tests.{wdm}
use guypervisor.Machine.{vmresume, vmread}
use guypervisor.Machine.Ends.{Ends}
use guypervisor.Machine.Frame.{completions}
use guypervisor.VmxMode.Launched.{IsLaunched}
use guypervisor.Tests.{declining, declining-IsCooperative, declined, no_launch}
use guypervisor.Fields.{encode, exit32}
use guypervisor.Fields.Exit.{exit_reason}
use guypervisor.Virtualization.Enter.{vmexit_handler}
use guypervisor.Virtualization.Enter.Resumed.{vmexit_handler-resumes}
use guypervisor.Tests.{wdm-IsDocumented, willing, refusing, willing-IsCooperative, known, after}
use guypervisor.Base.{
  ℕ, ◌+◌, ◌*◌, ◌/◌, ◌%◌, ◌^◌, ◌≡◌, ◌≢◌, refl, true, ltb, [], ◌∷◌, arith, ◌↔◌, min, max,
}
use guypervisor.Machine.{Trace, Call, vmxon, vmptrld, vmlaunch}
use guypervisor.Machine.Run.{out_of_fuel}
use guypervisor.Machine.Returns.{Returns}
use guypervisor.Machine.Memory.{load}
use guypervisor.Msr.{ia32_vmx_exit_ctls, msr_number}
use guypervisor.Fields.{guest64}
use guypervisor.Fields.Guest.{guest_vmcs_link_ptr_full}
use guypervisor.Bits.Digit.{digit}
use guypervisor.Virtualization.Access.{print_vmx_error, write_vmcs_field64}
use guypervisor.Virtualization.Access.Recursion.{unreadable_never_returns}
use guypervisor.Virtualization.Enter.{
  initialize_vmcs, fix_control_registers, enable_feature_control, set_revision, enter_vmxon_mode,
  modify_control_value,
}
use guypervisor.Virtualization.Enter.Controls.{modify_control_value-digit}
use guypervisor.Virtualization.Populate.{populate_active_vmcs}
use guypervisor.Virtualization.Populate.Kept.{pending_write}
use guypervisor.Virtualization.Populate.Status.{populate_active_vmcs-Reports}
use guypervisor.IrpHandlers.Completed.{ioctl_handler-completed}
use guypervisor.IrpHandlers.Loaded.{initialize_vmcs-outcome}
use guypervisor.Virtualization.Enter.Registers.{
  cr0_read, cr4_read, fix_control_registers-digit, enable_feature_control-bits,
}
use guypervisor.Virtualization.Enter.Revision.{set_revision-stored}
use guypervisor.IrpHandlers.{enter_vmx_handler, ioctl_handler, ioctl_enter_vmx}
use guypervisor.IrpHandlers.Setup.{enter_vmxon_mode-outcome}
use guypervisor.IrpHandlers.EnterVmx.{IsCleaned, enter_vmx_handler-Ends}
use guypervisor.VmxMode.{outside, root, current, launched, mode, clean}
use guypervisor.Base.{inr}
use guypervisor.Machine.{read_cr4, write_cr0, write_cr4, write_msr, complete_request}

enter_vmx_handler-Ends_example :
    Ends
      (λ s w'. IsCleaned declining w')
      (IsLaunched declining)
      (enter_vmx_handler declining 1 (after []))
enter_vmx_handler-Ends_example =
    enter_vmx_handler-Ends declining wdm-IsDocumented declining-IsCooperative known 0 (after [])
      (ground arith) (ground arith) refl refl

populate_active_vmcs-Reports_example :
    Returns
      (λ s w'.
        (mode (λ _ _. 0) w'.trace ≡ current 8192)
        × ((s ≡ 0) ↔ (clean (λ _ _. 0) pending_write w'.trace ≡ true)))
      (populate_active_vmcs willing 1 (after (vmptrld 8192 ∷ vmxon 4096 ∷ [])))
populate_active_vmcs-Reports_example =
    populate_active_vmcs-Reports willing wdm-IsDocumented willing-IsCooperative 8192 0
      (after (vmptrld 8192 ∷ vmxon 4096 ∷ [])) refl

enter_vmxon_mode-outcome_example :
    Returns
      (λ s w'.
        (t : Trace) × (a : ℕ) × (w'.trace ≡ vmxon a ∷ t)
        × (ltb s (2 ^ 31) ≡ true)
        × (s ≡ 1)
        × (mode (λ _ _. 1) w'.trace ≡ outside))
      (enter_vmxon_mode refusing (after []))
enter_vmxon_mode-outcome_example =
    enter_vmxon_mode-outcome refusing known (after []) wdm-IsDocumented (ground arith) refl refl

unreadable_never_returns_example :
    (print_vmx_error refusing 5 (after []) ≡ out_of_fuel)
    × (write_vmcs_field64 refusing 5 (guest64 guest_vmcs_link_ptr_full) 7 (after []) ≡ out_of_fuel)
unreadable_never_returns_example =
    unreadable_never_returns refusing (λ _. ground arith) 5 (after [])
      (guest64 guest_vmcs_link_ptr_full) 7 (ground arith)

modify_control_value-digit_example :
    Returns
      (λ result w'.
        (digit 9 result ≡ max (min (digit 9 512) (digit (32 + 9) 8192)) (digit 9 8192))
        × (w'.memory ≡ (after []).memory)
        × (w'.trace ≡ Call.read_msr (msr_number ia32_vmx_exit_ctls) ∷ []))
      (modify_control_value willing ia32_vmx_exit_ctls 512 (after []))
modify_control_value-digit_example =
    modify_control_value-digit willing ia32_vmx_exit_ctls 512 (after []) 9 (omega arith)

ioctl_handler-completed_example :
    Ends
      (λ s w'.
        (t : Trace) × (w'.trace ≡ complete_request 500 s ∷ t) × (mode no_launch w'.trace ≡ outside))
      (λ w'.
        (declined [] (Call.io_control_code 500) ≡ ioctl_enter_vmx wdm)
        × IsLaunched declining w'
        × (completions w'.trace ≡ []))
      (ioctl_handler declining 1 500 (after []))
ioctl_handler-completed_example =
    ioctl_handler-completed declining known 0 500 (after []) wdm-IsDocumented
      declining-IsCooperative (ground arith) (ground arith) refl refl

initialize_vmcs-outcome_example :
    Returns
      (λ s w'.
        (t : Trace) × (a : ℕ) × (mode (λ _ _. 0) t ≡ root)
        × (s ≡ 0)
        × (mode (λ _ _. 0) w'.trace ≡ current a))
      (initialize_vmcs willing (after (vmxon 4096 ∷ [])))
initialize_vmcs-outcome_example =
    initialize_vmcs-outcome willing wdm-IsDocumented known (after (vmxon 4096 ∷ [])) (ground arith)
      refl refl

fix_control_registers-digit_example :
    let t = cr0_read [] in
    Returns
      (λ _ w'.
        (a : ℕ) × (b : ℕ) × (c : ℕ) × (w'.trace
          ≡ write_cr4 c ∷ read_cr4 ∷ write_cr4 b ∷ cr4_read (write_cr0 a ∷ t))
        × (digit 13 a ≡ min (max (digit 13 8192) (digit 13 8192)) (digit 13 8192))
        × (digit 13 b ≡ min (max (digit 13 8192) (digit 13 8192)) (digit 13 8192))
        × (c / 2 ^ 13 % 2 ≡ 1)
        × (c % 2 ^ 13 ≡ 8192 % 2 ^ 13)
        × (c / 2 ^ 14 ≡ 8192 / 2 ^ 14))
      (fix_control_registers willing (after []))
fix_control_registers-digit_example = fix_control_registers-digit willing (after []) 13

enable_feature_control-bits_example :
    Returns
      (λ _ w'.
        (v : ℕ) × (w'.trace ≡ write_msr 0x3A v ∷ Call.read_msr 0x3A ∷ [])
        × (v % 8 ≡ 7)
        × (v / 8 ≡ 8192 / 8))
      (enable_feature_control willing (after []))
enable_feature_control-bits_example = enable_feature_control-bits willing (after [])

set_revision-stored_example :
    Returns
      (λ _ w'.
        (load w'.memory 4 4096 ≡ load (after []).memory 4 4096 / 2 ^ 31 % 2 * 2 ^ 31 + 18 % 2 ^ 31)
        × (w'.memory 4100 ≡ 4100)
        × (w'.trace ≡ []))
      (set_revision 4096 18 (after []))
set_revision-stored_example =
    set_revision-stored 4096 18 4100 (after []) (ground arith) (inr (omega arith))

-- The trace of a launched guest.
abbrev launched_trace : Trace
launched_trace = vmlaunch ∷ vmptrld 8192 ∷ vmxon 4096 ∷ []

vmexit_handler-resumes_example :
    Ends
      (λ _ w'.
        (willing.code [] vmresume ≢ 0)
        × (w'.trace ≡ vmresume ∷ vmread (encode (exit32 exit_reason)) ∷ launched_trace)
        × (mode (λ _ _. 0) w'.trace ≡ launched 8192)
        × (w'.memory ≡ (after []).memory))
      (λ w'.
        (willing.code [] vmresume ≡ 0)
        × (w'.trace ≡ vmresume ∷ vmread (encode (exit32 exit_reason)) ∷ launched_trace)
        × (mode (λ _ _. 0) w'.trace ≡ launched 8192)
        × (w'.memory ≡ (after []).memory))
      (vmexit_handler willing 1 (after launched_trace))
vmexit_handler-resumes_example =
    vmexit_handler-resumes willing 8192 1 (after launched_trace) willing-IsCooperative refl

write_each-Reports_example :
    Returns
      (λ s w'. Reports willing 8192 pending_write s w')
      (write_each willing 1 0
        (word16 (guest16 guest_cs_selector) 16 ∷ [])
        (after (vmptrld 8192 ∷ vmxon 4096 ∷ [])))
unfolding encode
write_each-Reports_example =
    write_each-Reports willing wdm-IsDocumented willing-IsCooperative 8192 pending_write 0
      (word16 (guest16 guest_cs_selector) 16 ∷ []) 0 (after (vmptrld 8192 ∷ vmxon 4096 ∷ [])) refl
      (record { at = refl; told = ((λ _. refl), (λ _. refl)) })
