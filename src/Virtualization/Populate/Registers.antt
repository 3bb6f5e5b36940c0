-- ===== src/Virtualization/Populate/Registers.antt =====
-- The control registers, the contexts and the SYSENTER registers in `PopulateActiveVMCS`
-- (Guypervisor/virtualization.cpp).
use guypervisor.Base.{ℕ, ◌+◌, ◌-◌, bit_and, bit_or, [], ◌∷◌}
use guypervisor.Machine.{
  Platform, read_cr0, read_cr3, read_cr4, read_dr7, read_eflags, guest_code, vmexit_handler,
  guest_stack, host_stack,
}
use guypervisor.Machine.Run.{Io, ◌>>=◌, ask}
use guypervisor.Msr.{
  read_msr, ia32_vmx_cr0_fixed0, ia32_vmx_cr0_fixed1, ia32_vmx_cr4_fixed0, ia32_sysenter_cs,
  ia32_sysenter_esp, ia32_sysenter_eip,
}
use guypervisor.Fields.{control_natural, guest_natural, host_natural, guest32, host32}
use guypervisor.Fields.Control.{
  control_cr0_mask, control_cr0_read_shadow, control_cr4_mask, control_cr4_read_shadow,
}
use guypervisor.Fields.Guest.{
  guest_cr0, guest_cr3, guest_cr4, guest_dr7, guest_rsp, guest_rip, guest_r_flags,
  guest_ia32_sysenter_cs, guest_ia32_sysenter_esp, guest_ia32_sysenter_eip,
}
use guypervisor.Fields.Host.{
  host_cr0, host_cr3, host_cr4, host_rsp, host_rip, host_ia32_sysenter_cs, host_ia32_sysenter_esp,
  host_ia32_sysenter_eip,
}
use guypervisor.Virtualization.Write.{word32, natural, write_each}

-- The size of the two stacks.
abbrev pub stack_size : ℕ
stack_size = 4096

module _ (p : Platform) (fuel : ℕ) where
  open p use {address}

  unfoldable pub populate_control_registers : (status : ℕ) → Io ℕ
  populate_control_registers status = do
    cr0 ← ask p read_cr0
    cr0_fixed0 ← read_msr p ia32_vmx_cr0_fixed0
    cr0_fixed1 ← read_msr p ia32_vmx_cr0_fixed1
    let cr0 = bit_and (bit_or cr0 cr0_fixed0) cr0_fixed1
    cr4 ← ask p read_cr4
    cr4 ← ask p read_cr4
    cr4_fixed0 ← read_msr p ia32_vmx_cr4_fixed0
    -- the source reads this register here too
    cr4_fixed1 ← read_msr p ia32_vmx_cr0_fixed1
    let cr4 = bit_and (bit_or cr4 cr4_fixed0) cr4_fixed1
    status ← write_each p fuel status (natural (guest_natural guest_cr0) cr0 ∷ [])
    host_value ← ask p read_cr0
    status ← write_each p fuel status (natural (host_natural host_cr0) host_value ∷ [])
    printed ← ask p read_cr0
    status ← write_each p fuel status (
        natural (control_natural control_cr0_mask) 0
        ∷ natural (control_natural control_cr0_read_shadow) cr0
        ∷ [])
    cr3 ← ask p read_cr3
    status ← write_each p fuel status (
        natural (guest_natural guest_cr3) cr3
        ∷ natural (host_natural host_cr3) cr3
        ∷ natural (guest_natural guest_cr4) cr4
        ∷ [])
    host_value ← ask p read_cr4
    status ← write_each p fuel status (natural (host_natural host_cr4) host_value ∷ [])
    printed ← ask p read_cr4
    write_each p fuel status (
        natural (control_natural control_cr4_mask) 0
        ∷ natural (control_natural control_cr4_read_shadow) cr4
        ∷ [])

  unfoldable pub populate_contexts : (status : ℕ) → Io ℕ
  populate_contexts status = do
    dr7 ← ask p read_dr7
    status ← write_each p fuel status (natural (guest_natural guest_dr7) dr7 ∷ [])
    printed ← ask p read_dr7
    rflags ← ask p read_eflags
    write_each p fuel status (
        natural (guest_natural guest_rsp) (address guest_stack + stack_size - 8)
        ∷ natural (guest_natural guest_rip) (address guest_code)
        ∷ natural (guest_natural guest_r_flags) rflags
        ∷ natural (host_natural host_rsp) (address host_stack + stack_size - 8)
        ∷ natural (host_natural host_rip) (address vmexit_handler)
        ∷ [])

  unfoldable pub populate_sysenter : (status : ℕ) → Io ℕ
  populate_sysenter status = do
    cs ← read_msr p ia32_sysenter_cs
    esp ← read_msr p ia32_sysenter_esp
    eip ← read_msr p ia32_sysenter_eip
    write_each p fuel status (
        word32 (host32 host_ia32_sysenter_cs) cs
        ∷ word32 (guest32 guest_ia32_sysenter_cs) cs
        ∷ natural (guest_natural guest_ia32_sysenter_esp) esp
        ∷ natural (guest_natural guest_ia32_sysenter_eip) eip
        ∷ natural (host_natural host_ia32_sysenter_esp) esp
        ∷ natural (host_natural host_ia32_sysenter_eip) eip
        ∷ [])

  unfoldable pub populate_registers : (status : ℕ) → Io ℕ
  unfolding populate_control_registers populate_contexts populate_sysenter
  populate_registers status = do
    status ← populate_control_registers status
    status ← populate_contexts status
    populate_sysenter status
