-- ===== src/Virtualization/Write/Reported.antt =====
-- A run of writes returns, keeps the VMCS current, and its joined status tells whether one failed.
use guypervisor.Base.{
  ℕ, suc, ◌^◌, ◌%◌, ◌≡◌, refl, Bool, true, not, ◌&&◌, ◌==◌, bit_or, List, [], ◌∷◌, arith,
}
use guypervisor.Machine.{Platform, World}
use guypervisor.Machine.Returns
use guypervisor.Machine.Returns.{Returns, returns}
use guypervisor.Machine.Status.{IsDocumented}
use guypervisor.VmxMode.{mode, current}
use guypervisor.VmxMode.Cooperative.{IsCooperative}
use guypervisor.Fields.{VmcsField, encode}
use guypervisor.Virtualization.Access.{
  write_vmcs_field64, write_vmcs_field16, write_vmcs_field32, write_vmcs_field_natural,
}
use guypervisor.Virtualization.Access.Current.{
  Reports, write_vmcs_field64-Reports, write_vmcs_field64-outcome,
}
use guypervisor.Virtualization.Write.{
  FieldWrite, word16, word32, word64, natural, write_field, write_each,
}

-- The field that is written.
abbrev pub target : FieldWrite → VmcsField
target (word16 f v) = f
target (word32 f v) = f
target (word64 f v) = f
target (natural f v) = f

-- No write of the list is to the encoding `stop`.
abbrev pub all_other : (stop : ℕ) → List FieldWrite → Bool
all_other stop [] = true
all_other stop (x ∷ xs) = not (encode (target x) == stop) && all_other stop xs

-- The value, at the width of the function that writes it.
abbrev pub truncated : FieldWrite → ℕ
truncated (word16 f v) = v % 2 ^ 16
truncated (word32 f v) = v % 2 ^ 32
truncated (word64 f v) = v
truncated (natural f v) = v

-- Every write goes through `WriteVMCSField64`.
pub write_field-write_vmcs_field64 :
    (p : Platform) (fuel : ℕ) (x : FieldWrite)
    → write_field p fuel x ≡ write_vmcs_field64 p fuel (target x) (truncated x)
unfolding write_field write_vmcs_field16 write_vmcs_field32 write_vmcs_field_natural
write_field-write_vmcs_field64 p fuel (word16 f v) = refl
write_field-write_vmcs_field64 p fuel _ = refl

module _ (p : Platform) (documented : IsDocumented p.wdk) (cooperative : IsCooperative p) where
  module _ (a stop fuel : ℕ) where
    -- Where the VMCS at `a` is current with readable fields, and where a status is 0 exactly when every
    -- write since the last one to `stop` has succeeded, a run of writes to other fields returns, keeps the
    -- VMCS current, and joins its statuses to one of which the same holds.
    pub write_each-Reports :
        (xs : List FieldWrite) (status : ℕ) (w : World)
        → all_other stop xs ≡ true
        → Reports p a stop status w
        → Returns (λ s w'. Reports p a stop s w') (write_each p (suc fuel) status xs w)
    unfolding write_each
    write_each-Reports [] status w other h = returns h
    write_each-Reports (x ∷ xs) status w other h =
        rw (write_field-write_vmcs_field64 p (suc fuel) x) (
          Returns.bind
            (write_vmcs_field64-Reports p documented cooperative stop fuel (target x) (truncated x)
              w status h (ground arith))
            λ s w' h'. write_each-Reports xs (bit_or status s) w' (ground arith) h')

  pub write_each-at :
      (a fuel : ℕ) (xs : List FieldWrite) (status : ℕ) (w : World)
      → mode p.code w.trace ≡ current a
      → Returns (λ s w'. mode p.code w'.trace ≡ current a) (write_each p (suc fuel) status xs w)
  unfolding write_each
  write_each-at a fuel [] status w at = returns at
  write_each-at a fuel (x ∷ xs) status w at = rw (write_field-write_vmcs_field64 p (suc fuel) x) (
      Returns.bind
        (write_vmcs_field64-outcome p documented cooperative 0 fuel (target x) (truncated x) w at)
        λ s w' (_, at', _). write_each-at a fuel xs (bit_or status s) w' at')
