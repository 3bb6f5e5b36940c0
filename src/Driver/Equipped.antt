-- ===== src/Driver/Equipped.antt =====
-- What the theorems ask of a processor and a kernel on which the driver starts.
use guypervisor.Base.{ℕ, ◌+◌, ◌/◌, ◌%◌, ◌^◌, ◌≤◌, ◌≡◌, ◌≢◌, true, ◌∷◌, ◌∙◌}
use guypervisor.Machine.{
  Platform, World, Trace, cpuid, read_eflags, write_eflags, allocate_pool, allocate_contiguous,
  create_device, create_symbolic_link,
}
use guypervisor.Machine.Frame.{completions}
use guypervisor.VmxMode.{mode}
use guypervisor.Detection.{ia32_cpu_vendor_name, ia32_cpu_version}

-- A processor of Intel with CPUID, whose bit 21 of the flags can be set, and VT-x; a kernel that has
-- memory for what the driver asks for, in blocks that end below 2 ^ 64, and that creates the device and
-- the symbolic link.
pub record IsEquipped (p : Platform) : Type 0 where
  pub flag_sticks :
      (t : Trace) (v : ℕ)
      → v / 2 ^ 21 % 2 ≡ 1
      → p.datum (write_eflags v ∷ t) read_eflags / 2 ^ 21 % 2 ≡ 1
  pub vendor_intel : (t : Trace) → (p.cpu_info t (cpuid ia32_cpu_vendor_name)).ecx ≡ 0x6c65746e
  pub has_vtx : (t : Trace) → (p.cpu_info t (cpuid ia32_cpu_version)).ecx / 2 ^ 26 % 2 ≡ 1
  pub vmcs_small : p.vmcs_size ≤ 4096
  pub context_small : p.context_size ≤ 4096
  pub device_small : p.device_size ≤ 4096
  pub pool_given : (t : Trace) (size : ℕ) → size ≤ 2 ^ 22 → p.datum t (allocate_pool size) ≢ 0
  pub block_given :
      (t : Trace) (size highest : ℕ)
      → size ≤ 2 ^ 16
      → p.datum t (allocate_contiguous size highest) ≢ 0
  pub block_fits :
      (t : Trace) (size highest : ℕ)
      → p.datum t (allocate_contiguous size highest) ≢ 0
      → p.datum t (allocate_contiguous size highest) + size ≤ 2 ^ 64
  pub device_created : (t : Trace) → p.wdk.nt_success (p.code t create_device) ≡ true
  pub link_created : (t : Trace) → p.wdk.nt_success (p.code t create_symbolic_link) ≡ true

-- A stage of the start that executes no VMX instruction and leaves the device and the driver object,
-- and that completes no request.
pub record IsKept (p : Platform) (w w' : World) : Type 0 where
  pub device : w'.device ≡ w.device
  pub driver : w'.driver ≡ w.driver
  pub at : mode p.code w'.trace ≡ mode p.code w.trace
  pub completed : completions w'.trace ≡ completions w.trace

pub IsKept-trans : (p : Platform) {u v w : World} → IsKept p u v → IsKept p v w → IsKept p u w
IsKept-trans p a b = record {
  device = b.device ∙ a.device;
  driver = b.driver ∙ a.driver;
  at = b.at ∙ a.at;
  completed = b.completed ∙ a.completed;
}
