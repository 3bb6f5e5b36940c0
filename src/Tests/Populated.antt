-- ===== src/Tests/Populated.antt =====
-- The theorem on the fields written at a concrete input.
use guypervisor.Base.{◌≡◌, refl, [], ◌∷◌}
use guypervisor.Machine.{vmxon, vmptrld}
use guypervisor.Machine.Returns.{Returns}
use guypervisor.Machine.Written.{written}
use guypervisor.VmxMode.{current, mode}
use guypervisor.Fields.{encode, guest32}
use guypervisor.Fields.Guest.{guest_cs_limit}
use guypervisor.Virtualization.Populate.{populate_active_vmcs}
use guypervisor.Virtualization.Populate.Promised.{times}
use guypervisor.Virtualization.Populate.Once.{populate_active_vmcs-times}
use guypervisor.Tests.{wdm-IsDocumented, willing, willing-IsCooperative, after}

populate_active_vmcs-times_example :
    Returns
      (λ _ w'.
        (mode (λ _ _. 0) w'.trace ≡ current 8192)
        × (times (encode (guest32 guest_cs_limit)) (written w'.trace) ≡ 1))
      (populate_active_vmcs willing 1 (after (vmptrld 8192 ∷ vmxon 4096 ∷ [])))
unfolding times
populate_active_vmcs-times_example =
    populate_active_vmcs-times willing 8192 0 (guest32 guest_cs_limit)
      (after (vmptrld 8192 ∷ vmxon 4096 ∷ [])) wdm-IsDocumented willing-IsCooperative refl
