-- ===== src/Virtualization/Populate/Status.antt =====
-- What `PopulateActiveVMCS` returns.
use guypervisor.Base.{ℕ, suc, ◌≡◌, refl, true, ◌↔◌, Bool, Option, none, some, List, [], ◌∷◌}
use guypervisor.Machine.{Platform, World}
use guypervisor.Machine.Returns
use guypervisor.Machine.Returns.{Returns, returns}
use guypervisor.Machine.Status.{IsDocumented}
use guypervisor.VmxMode.{current, mode, clean}
use guypervisor.VmxMode.Cooperative.{IsCooperative}
use guypervisor.Fields.{VmcsField, encode}
use guypervisor.Virtualization.Access.{
  write_vmcs_field_natural, print_vmx_error, read_vmcs_field_generic, read_reporting,
}
use guypervisor.Virtualization.Access.Current.{
  IsCurrent, Reports, read_reporting-IsCurrent, write_vmcs_field64-stop,
}
use guypervisor.Virtualization.Dump.{
  dump_fields, dump_vmcs_guest_area, dumped16, dumped64, dumped32, dumped_natural,
}
use guypervisor.Virtualization.Write.Reported.{write_each-at}
use guypervisor.Virtualization.Enter.{modify_control_value}
use guypervisor.Virtualization.Populate.{populate_active_vmcs}
use guypervisor.Virtualization.Populate.Kept.{
  pending_write, populate_segments-Keeps, populate_registers-Keeps,
}
use guypervisor.Virtualization.Populate.Controls.{write_controls, populate_controls}

module _ (p : Platform) (documented : IsDocumented p.wdk) (cooperative : IsCooperative p) where
  module _ (a fuel : ℕ) where
    write_controls-at :
        (w : World)
        → mode p.code w.trace ≡ current a
        → Returns (λ s w'. mode p.code w'.trace ≡ current a) (write_controls p (suc fuel) w)
    unfolding write_controls modify_control_value
    write_controls-at w at =
        Returns.bind (write_each-at p documented cooperative a fuel _ 0 _ at) λ s1 w1 at1.
          Returns.bind (write_each-at p documented cooperative a fuel _ s1 _ at1) λ s2 w2 at2.
            Returns.bind (write_each-at p documented cooperative a fuel _ s2 _ at2) λ s3 w3 at3.
              Returns.bind (write_each-at p documented cooperative a fuel _ s3 _ at3) λ s4 w4 at4.
                Returns.bind (write_each-at p documented cooperative a fuel _ s4 _ at4)
                  λ s5 w5 at5. write_each-at p documented cooperative a fuel _ s5 _ at5

    populate_controls-Reports :
        (w : World)
        → mode p.code w.trace ≡ current a
        → Returns (λ s w'. Reports p a pending_write s w') (populate_controls p (suc fuel) w)
    unfolding populate_controls write_vmcs_field_natural encode
    populate_controls-Reports w at = Returns.bind (write_controls-at w at) λ s w' at'.
        write_vmcs_field64-stop p documented cooperative pending_write fuel _ 0 w' at' refl

    dump_fields-IsCurrent :
        {stop : ℕ} {b : Bool} (width : ℕ) (fs : List VmcsField) (old : Option ℕ) (w : World)
        → IsCurrent p a stop b w
        → Returns (λ v w'. IsCurrent p a stop b w') (dump_fields p (suc fuel) width fs old w)
    unfolding dump_fields read_vmcs_field_generic read_reporting
    dump_fields-IsCurrent width [] old w h = returns h
    dump_fields-IsCurrent width (f ∷ fs) none w h = dump_fields-IsCurrent width fs none w h
    dump_fields-IsCurrent width (f ∷ fs) (some old) w h =
        Returns.bind
          (read_reporting-IsCurrent p documented cooperative (print_vmx_error p (suc fuel)) width f
            old w h)
          λ (s, v) w' (_, h'). dump_fields-IsCurrent width fs v w' h'

    dump_vmcs_guest_area-IsCurrent :
        {stop : ℕ} {b : Bool} (w : World)
        → IsCurrent p a stop b w
        → Returns (λ v w'. IsCurrent p a stop b w') (dump_vmcs_guest_area p (suc fuel) w)
    unfolding dump_vmcs_guest_area
    dump_vmcs_guest_area-IsCurrent w h =
        Returns.bind (dump_fields-IsCurrent 16 dumped16 (some 0) w h) λ v1 w1 h1.
          Returns.bind (dump_fields-IsCurrent 64 dumped64 (some 0) w1 h1) λ v2 w2 h2.
            Returns.bind (dump_fields-IsCurrent 32 dumped32 (some 0) w2 h2) λ v3 w3 h3.
              Returns.bind (dump_fields-IsCurrent 64 dumped_natural v2 w3 h3) λ v4 w4 h4. returns h4

    dump_vmcs_guest_area-Reports :
        (status : ℕ) (w : World)
        → Reports p a pending_write status w
        → Returns
            (λ _ w'. Reports p a pending_write status w')
            (dump_vmcs_guest_area p (suc fuel) w)
    dump_vmcs_guest_area-Reports status w h =
        Returns.weaken
          (dump_vmcs_guest_area-IsCurrent {stop = pending_write} w
            (record { at = h.at; since = refl }))
          λ v w' c. record { at = c.at; told = rw c.since h.told }

    -- With a current VMCS and readable fields, `PopulateActiveVMCS` returns, leaves the VMCS current, and
    -- returns 0 exactly when every write from that of the pending debug exceptions on has succeeded,
    -- whatever became of the writes before it.
    pub populate_active_vmcs-Reports :
        (w : World)
        → mode p.code w.trace ≡ current a
        → Returns
            (λ s w'.
              (mode p.code w'.trace ≡ current a)
              × ((s ≡ 0) ↔ (clean p.code pending_write w'.trace ≡ true)))
            (populate_active_vmcs p (suc fuel) w)
    unfolding populate_active_vmcs
    populate_active_vmcs-Reports w at = Returns.bind (populate_controls-Reports w at) λ s1 w1 h1.
        Returns.bind (populate_segments-Keeps p documented cooperative a fuel s1 w1 h1) λ s2 w2 h2.
          Returns.bind (populate_registers-Keeps p documented cooperative a fuel s2 w2 h2)
            λ s3 w3 h3.
              Returns.bind (dump_vmcs_guest_area-Reports s3 w3 h3)
                λ _ w4 h4. returns (h4.at, h4.told)
