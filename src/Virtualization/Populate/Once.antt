-- ===== src/Virtualization/Populate/Once.antt =====
-- How often `PopulateActiveVMCS` writes a field (Guypervisor/virtualization.cpp).
use guypervisor.Base.{ℕ, suc, ◌+◌, ◌≡◌, refl, ◌∙◌, ap}
use guypervisor.Machine.{Platform, World}
use guypervisor.Machine.Returns
use guypervisor.Machine.Returns.{Returns, returns}
use guypervisor.Machine.Written.{written, Returns-EndsWriting, run_writing}
use guypervisor.Machine.Status.{IsDocumented}
use guypervisor.VmxMode.{current, mode}
use guypervisor.VmxMode.Cooperative.{IsCooperative}
use guypervisor.Fields.{VmcsField, encode}
use guypervisor.Virtualization.Populate.{populate_active_vmcs}
use guypervisor.Virtualization.Populate.Status.{populate_active_vmcs-Reports}
use guypervisor.Virtualization.Populate.Targets.{populated}
use guypervisor.Virtualization.Populate.Written.{populate_active_vmcs-IsWriting}
use guypervisor.Virtualization.Populate.Promised.{times, times-encodings, occurrences-promise}
use guypervisor.Virtualization.Populate.Expected.{promise}

-- With a current VMCS and readable fields, `PopulateActiveVMCS` returns with the VMCS current, and whatever
-- the processor answers and whether its writes succeed, it has executed VMWRITE once for each field of
-- the enumeration that `is_populated` names, and not at all for any other one.
pub populate_active_vmcs-times :
    (p : Platform) (a fuel : ℕ) (f : VmcsField) (w : World)
    → IsDocumented p.wdk
    → IsCooperative p
    → mode p.code w.trace ≡ current a
    → Returns
        (λ _ w'.
          (mode p.code w'.trace ≡ current a)
          × (times (encode f) (written w'.trace) ≡ times (encode f) (written w.trace) + promise f))
        (populate_active_vmcs p (suc fuel) w)
populate_active_vmcs-times p a fuel f w documented cooperative at =
    Returns.weaken
      (Returns-EndsWriting (populate_active_vmcs-Reports p documented cooperative a fuel w at)
        (run_writing (populate_active_vmcs-IsWriting p (suc fuel)) w refl))
      λ s w' (h, made). (
        h.0,
        ap (times (encode f)) made
            ∙ times-encodings (encode f) populated (written w.trace)
            ∙ ap (λ n. times (encode f) (written w.trace) + n) (occurrences-promise f),
      )
