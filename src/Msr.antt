-- ===== src/Msr.antt =====
-- The model-specific registers (Guypervisor/msr.h, Guypervisor/msr.cpp).
use guypervisor.Base.{ℕ}
use guypervisor.Machine.{Call, Platform}
use guypervisor.Machine.Run.{Io, ask}

-- `msr::intel_e`
pub data Msr : Type 0 where
  ia32_feature_control : Msr
  ia32_vmx_basic : Msr
  ia32_vmx_cr0_fixed0 : Msr
  ia32_vmx_cr0_fixed1 : Msr
  ia32_vmx_cr4_fixed0 : Msr
  ia32_vmx_cr4_fixed1 : Msr
  ia32_debug_ctl : Msr
  ia32_sysenter_cs : Msr
  ia32_sysenter_esp : Msr
  ia32_sysenter_eip : Msr
  ia32_vmx_pinbased_ctls : Msr
  ia32_vmx_true_pinbased_ctls : Msr
  ia32_vmx_procbased_ctls : Msr
  ia32_vmx_true_procbased_ctls : Msr
  ia32_vmx_procbased_ctls2 : Msr
  ia32_vmx_misc : Msr
  ia32_vmx_entry_ctls : Msr
  ia32_vmx_true_entry_ctls : Msr
  ia32_vmx_exit_ctls : Msr
  ia32_vmx_true_exit_ctls : Msr
  ia32_fs_base : Msr
  ia32_gs_base : Msr

unfoldable pub msr_number : Msr → ℕ
msr_number ia32_feature_control = 0x3A
msr_number ia32_vmx_basic = 0x480
msr_number ia32_vmx_cr0_fixed0 = 0x486
msr_number ia32_vmx_cr0_fixed1 = 0x487
msr_number ia32_vmx_cr4_fixed0 = 0x488
msr_number ia32_vmx_cr4_fixed1 = 0x489
msr_number ia32_debug_ctl = 0x01D9
msr_number ia32_sysenter_cs = 0x174
msr_number ia32_sysenter_esp = 0x175
msr_number ia32_sysenter_eip = 0x176
msr_number ia32_vmx_pinbased_ctls = 0x481
msr_number ia32_vmx_true_pinbased_ctls = 0x48D
msr_number ia32_vmx_procbased_ctls = 0x482
msr_number ia32_vmx_true_procbased_ctls = 0x48E
msr_number ia32_vmx_procbased_ctls2 = 0x48B
msr_number ia32_vmx_misc = 0x485
msr_number ia32_vmx_entry_ctls = 0x484
msr_number ia32_vmx_true_entry_ctls = 0x490
msr_number ia32_vmx_exit_ctls = 0x483
msr_number ia32_vmx_true_exit_ctls = 0x48F
msr_number ia32_fs_base = 0xc0000100
msr_number ia32_gs_base = 0xc0000101

-- `msr::ReadMsr`
abbrev pub read_msr : Platform → Msr → Io ℕ
read_msr p r = ask p (Call.read_msr (msr_number r))
