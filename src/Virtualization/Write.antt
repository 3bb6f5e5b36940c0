-- ===== src/Virtualization/Write.antt =====
-- Writes to the fields of the current VMCS, each with the function that makes it, and the statuses of
-- a run of them joined by `|=` (Guypervisor/virtualization.cpp).
pub mod Reported
use guypervisor.Base.{ℕ, bit_or, List, [], ◌∷◌}
use guypervisor.Machine.{Platform}
use guypervisor.Machine.Run.{Io, pure, ◌>>=◌}
use guypervisor.Fields.{VmcsField}
use guypervisor.Virtualization.Access.{
  write_vmcs_field16, write_vmcs_field32, write_vmcs_field64, write_vmcs_field_natural,
}

pub data FieldWrite : Type 0 where
  word16 word32 word64 natural : VmcsField → ℕ → FieldWrite

module _ (p : Platform) (fuel : ℕ) where
  unfoldable pub write_field : FieldWrite → Io ℕ
  write_field (word16 f v) = write_vmcs_field16 p fuel f v
  write_field (word32 f v) = write_vmcs_field32 p fuel f v
  write_field (word64 f v) = write_vmcs_field64 p fuel f v
  write_field (natural f v) = write_vmcs_field_natural p fuel f v

  unfoldable pub write_each : (status : ℕ) → List FieldWrite → Io ℕ
  unfolding write_field
  write_each status [] = pure status
  write_each status (x ∷ xs) = do written ← write_field x; write_each (bit_or status written) xs
