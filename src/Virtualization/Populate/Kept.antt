-- ===== src/Virtualization/Populate/Kept.antt =====
-- Each part of `PopulateActiveVMCS` after the controls keeps the VMCS current, and joins its statuses.
use guypervisor.Base.{ℕ, suc, refl, ◌==◌, Bool-cases, inl, inr, bit_and}
use guypervisor.Machine.{Platform, World, TableRegister}
use guypervisor.Machine.Run.{Io}
use guypervisor.Machine.Returns
use guypervisor.Machine.Returns.{Returns, returns}
use guypervisor.Machine.Status.{IsDocumented}
use guypervisor.VmxMode.Cooperative.{IsCooperative}
use guypervisor.Processor.{access_rights, read_gdt_entry, base_in_memory, load_segment_selectors}
use guypervisor.Fields.{encode}
use guypervisor.Virtualization.Access.Current.{Reports}
use guypervisor.Virtualization.Write.Reported.{write_each-Reports}
use guypervisor.Virtualization.Populate.Segments.{
  populate_cs, populate_ss, populate_ds, populate_es, populate_fs, populate_gs, populate_tr,
  populate_ldtr, populate_tables, populate_segments,
}
use guypervisor.Virtualization.Populate.Registers.{
  populate_control_registers, populate_contexts, populate_sysenter, populate_registers,
}

-- The write to the pending debug exceptions, at which `status` is assigned anew.
abbrev pub pending_write : ℕ
pending_write = 0x6822

module _ (p : Platform) {a stop status : ℕ} where
  read_gdt_entry-Reports :
      (gdtr : TableRegister) (selector : ℕ) (w : World)
      → Reports p a stop status w
      → Returns (λ _ w'. Reports p a stop status w') (read_gdt_entry p gdtr selector w)
  unfolding read_gdt_entry access_rights base_in_memory
  read_gdt_entry-Reports gdtr selector w h = elim (Bool-cases (bit_and selector 3 == 1)) [
    | inl ldt ↦ rw (ldt, read_gdt_entry) (returns h)
    | inr gdt ↦
        rw (gdt, read_gdt_entry)
          (elim (Bool-cases (selector == 0)) [
            | inl null ↦ rw (null, access_rights) (returns (record { at = h.at; told = h.told }))
            | inr used ↦ rw (used, access_rights) (returns (record { at = h.at; told = h.told }))
          ])
  ]

-- What each part of the function keeps.
abbrev pub Keeps : Platform → ℕ → (ℕ → Io ℕ) → Type 0
Keeps p a part =
    (status : ℕ) (w : World)
    → Reports p a pending_write status w
    → Returns (λ s w'. Reports p a pending_write s w') (part status w)

module _ (p : Platform) (documented : IsDocumented p.wdk) (cooperative : IsCooperative p) where
  module _ (a fuel : ℕ) where
    populate_cs-Keeps :
        (gdtr : TableRegister) (selector : ℕ) → Keeps p a (populate_cs p (suc fuel) gdtr selector)
    unfolding populate_cs encode
    populate_cs-Keeps gdtr selector status w h =
        Returns.bind (read_gdt_entry-Reports p gdtr selector w h) λ e w' h'.
          write_each-Reports p documented cooperative a pending_write fuel _ status w' refl h'

    populate_ss-Keeps :
        (gdtr : TableRegister) (selector : ℕ) → Keeps p a (populate_ss p (suc fuel) gdtr selector)
    unfolding populate_ss encode
    populate_ss-Keeps gdtr selector status w h =
        Returns.bind (read_gdt_entry-Reports p gdtr selector w h) λ e w' h'.
          write_each-Reports p documented cooperative a pending_write fuel _ status w' refl h'

    populate_ds-Keeps :
        (gdtr : TableRegister) (selector : ℕ) → Keeps p a (populate_ds p (suc fuel) gdtr selector)
    unfolding populate_ds encode
    populate_ds-Keeps gdtr selector status w h =
        Returns.bind (read_gdt_entry-Reports p gdtr selector w h) λ e w' h'.
          write_each-Reports p documented cooperative a pending_write fuel _ status w' refl h'

    populate_es-Keeps :
        (gdtr : TableRegister) (selector : ℕ) → Keeps p a (populate_es p (suc fuel) gdtr selector)
    unfolding populate_es encode
    populate_es-Keeps gdtr selector status w h =
        Returns.bind (read_gdt_entry-Reports p gdtr selector w h) λ e w' h'.
          write_each-Reports p documented cooperative a pending_write fuel _ status w' refl h'

    populate_fs-Keeps :
        (gdtr : TableRegister) (selector : ℕ) → Keeps p a (populate_fs p (suc fuel) gdtr selector)
    unfolding populate_fs encode
    populate_fs-Keeps gdtr selector status w h =
        Returns.bind (read_gdt_entry-Reports p gdtr selector w h) λ e w' h'.
          write_each-Reports p documented cooperative a pending_write fuel _ status w' refl h'

    populate_tr-Keeps :
        (gdtr : TableRegister) (selector : ℕ) → Keeps p a (populate_tr p (suc fuel) gdtr selector)
    unfolding populate_tr encode
    populate_tr-Keeps gdtr selector status w h =
        Returns.bind (read_gdt_entry-Reports p gdtr selector w h) λ e w' h'.
          write_each-Reports p documented cooperative a pending_write fuel _ status w' refl h'

    populate_ldtr-Keeps :
        (gdtr : TableRegister) (selector : ℕ) → Keeps p a (populate_ldtr p (suc fuel) gdtr selector)
    unfolding populate_ldtr encode
    populate_ldtr-Keeps gdtr selector status w h =
        Returns.bind (read_gdt_entry-Reports p gdtr selector w h) λ e w' h'.
          write_each-Reports p documented cooperative a pending_write fuel _ status w' refl h'

    populate_gs-Keeps :
        (gdtr : TableRegister) (selector : ℕ) → Keeps p a (populate_gs p (suc fuel) gdtr selector)
    unfolding populate_gs encode
    populate_gs-Keeps gdtr selector status w h =
        Returns.bind (read_gdt_entry-Reports p gdtr selector w h) λ e w1 h1.
          Returns.bind
            (write_each-Reports p documented cooperative a pending_write fuel _ status w1 refl h1)
            λ s2 w2 h2.
              Returns.bind
                (write_each-Reports p documented cooperative a pending_write fuel _ s2 _ refl
                  (record { at = h2.at; told = h2.told }))
                λ s3 w3 h3.
                  Returns.bind
                    (write_each-Reports p documented cooperative a pending_write fuel _ s3 _ refl
                      (record { at = h3.at; told = h3.told }))
                    λ s4 w4 h4. returns (record { at = h4.at; told = h4.told })

    populate_tables-Keeps :
        (gdtr idtr : TableRegister) → Keeps p a (populate_tables p (suc fuel) gdtr idtr)
    unfolding populate_tables encode
    populate_tables-Keeps gdtr idtr status w h =
        write_each-Reports p documented cooperative a pending_write fuel _ status w refl h

    pub populate_segments-Keeps : Keeps p a (populate_segments p (suc fuel))
    unfolding populate_segments load_segment_selectors
    populate_segments-Keeps status w h =
        Returns.bind (populate_cs-Keeps _ _ status _ (record { at = h.at; told = h.told }))
          λ s1 w1 h1. Returns.bind (populate_ss-Keeps _ _ s1 w1 h1) λ s2 w2 h2.
            Returns.bind (populate_ds-Keeps _ _ s2 w2 h2) λ s3 w3 h3.
              Returns.bind (populate_es-Keeps _ _ s3 w3 h3) λ s4 w4 h4.
                Returns.bind (populate_fs-Keeps _ _ s4 w4 h4) λ s5 w5 h5.
                  Returns.bind (populate_gs-Keeps _ _ s5 w5 h5) λ s6 w6 h6.
                    Returns.bind (populate_tr-Keeps _ _ s6 w6 h6) λ s7 w7 h7.
                      Returns.bind (populate_ldtr-Keeps _ _ s7 w7 h7)
                        λ s8 w8 h8. populate_tables-Keeps _ _ s8 w8 h8

    populate_control_registers-Keeps : Keeps p a (populate_control_registers p (suc fuel))
    unfolding populate_control_registers encode
    populate_control_registers-Keeps status w h =
        Returns.bind
          (write_each-Reports p documented cooperative a pending_write fuel _ status _ refl
            (record { at = h.at; told = h.told }))
          λ s1 w1 h1.
            Returns.bind
              (write_each-Reports p documented cooperative a pending_write fuel _ s1 _ refl
                (record { at = h1.at; told = h1.told }))
              λ s2 w2 h2.
                Returns.bind
                  (write_each-Reports p documented cooperative a pending_write fuel _ s2 _ refl
                    (record { at = h2.at; told = h2.told }))
                  λ s3 w3 h3.
                    Returns.bind
                      (write_each-Reports p documented cooperative a pending_write fuel _ s3 _ refl
                        (record { at = h3.at; told = h3.told }))
                      λ s4 w4 h4.
                        Returns.bind
                          (write_each-Reports p documented cooperative a pending_write fuel _ s4 _
                            refl (record { at = h4.at; told = h4.told }))
                          λ s5 w5 h5.
                            write_each-Reports p documented cooperative a pending_write fuel _ s5 _
                              refl (record { at = h5.at; told = h5.told })

    populate_contexts-Keeps : Keeps p a (populate_contexts p (suc fuel))
    unfolding populate_contexts encode
    populate_contexts-Keeps status w h =
        Returns.bind
          (write_each-Reports p documented cooperative a pending_write fuel _ status _ refl
            (record { at = h.at; told = h.told }))
          λ s1 w1 h1.
            write_each-Reports p documented cooperative a pending_write fuel _ s1 _ refl
              (record { at = h1.at; told = h1.told })

    populate_sysenter-Keeps : Keeps p a (populate_sysenter p (suc fuel))
    unfolding populate_sysenter encode
    populate_sysenter-Keeps status w h =
        write_each-Reports p documented cooperative a pending_write fuel _ status _ refl
          (record { at = h.at; told = h.told })

    pub populate_registers-Keeps : Keeps p a (populate_registers p (suc fuel))
    unfolding populate_registers
    populate_registers-Keeps status w h =
        Returns.bind (populate_control_registers-Keeps status w h) λ s1 w1 h1.
          Returns.bind (populate_contexts-Keeps s1 w1 h1)
            λ s2 w2 h2. populate_sysenter-Keeps s2 w2 h2
