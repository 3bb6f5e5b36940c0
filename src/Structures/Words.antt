-- ===== src/Structures/Words.antt =====
-- The unions of a word and the bit fields that it stands for, in Guypervisor/vmcs.h,
-- Guypervisor/paging.h, Guypervisor/msr.h and Guypervisor/processor.h.
use mathlib.Core.List.{Memᴰ}
use native.Mathlib.Nat.{div-div-eq-div-mul, mod-add-div', div-eq_of_lt}
use guypervisor.Base.{
  ℕ, zero, suc, ◌+◌, ◌*◌, ◌/◌, ◌^◌, ◌<◌, ◌≡◌, refl, Bool, true, ◌&&◌, ◌==◌, List, [], ◌∷◌, arith,
  both, every, every-Memᴰ,
}
use guypervisor.Bits.Mask.{two-pow-suc}
use guypervisor.Machine.Memory.{field}
use guypervisor.Structures.{CType, struct, union, whole, Members, end, ◌▷◌, size_of}
use guypervisor.Structures.Placed.{Place, members_of}
use guypervisor.Structures.Registers.{register32}
use guypervisor.Structures.ControlRegisters.{cr0, cr3}
use guypervisor.Structures.Descriptors.{vmx_access_rights}
use guypervisor.Structures.Msrs.{feature_control_msr, vmx_basic_msr, vmx_misc_msr}
use guypervisor.Structures.Paging.{pml4_entry, pdpt_entry, pd_entry, pt_entry}
use guypervisor.Structures.Controls.{
  vm_exec_ctrl_fields, secondary_vm_exec_ctrls, vm_exit_ctrl_fields, vm_entry_ctrl_fields, eptp,
}
use guypervisor.Structures.Exits.{exit_reason_word}

-- The structs among the members of a union.
abbrev structs : Members → List CType
structs end = []
structs (whole name (struct packing ms) ▷ rest) = struct packing ms ∷ structs rest
structs (_ ▷ rest) = structs rest

abbrev pub structs_of : CType → List CType
structs_of (union packing ms) = structs ms
structs_of _ = []

-- The values of the fields of a word, and the word with given values in its fields.
abbrev pub fields_of : List Place → ℕ → List ℕ
fields_of [] x = []
fields_of (q ∷ qs) x = field q.first q.width x ∷ fields_of qs x

abbrev pub word_of : List Place → List ℕ → ℕ
word_of (q ∷ qs) (v ∷ vs) = v * 2 ^ q.first + word_of qs vs
word_of _ _ = 0

-- Whether places follow each other from `low` to `high` without a gap.
unfoldable pub tiles : (low high : ℕ) → List Place → Bool
tiles low high [] = low == high
tiles low high (q ∷ qs) = (q.first == low) && tiles (low + q.width) high qs

two-pow-add : (k w : ℕ) → 2 ^ (k + w) ≡ 2 ^ k * 2 ^ w
two-pow-add zero w = let same : 0 + w ≡ w = omega arith in rw same (omega arith)
two-pow-add (suc k) w =
    let next : suc k + w ≡ suc (k + w) = omega arith in
    rw (next, two-pow-suc k, two-pow-suc (k + w), two-pow-add k w) (grind arith)

field-split :
    (low w x : ℕ)
    → field low w x * 2 ^ low + x / 2 ^ (low + w) * 2 ^ (low + w) ≡ x / 2 ^ low * 2 ^ low
field-split low w x =
    rw (two-pow-add low w, ← div-div-eq-div-mul x (2 ^ low) (2 ^ w))
      (grind (arith, mod-add-div' (x / 2 ^ low) (2 ^ w)))

word_of-tiles :
    (low high : ℕ) (qs : List Place) (x : ℕ)
    → tiles low high qs ≡ true
    → word_of qs (fields_of qs x) + x / 2 ^ high * 2 ^ high ≡ x / 2 ^ low * 2 ^ low
unfolding tiles
word_of-tiles low high [] x h = let same : low ≡ high = ground arith in rw same (omega arith)
word_of-tiles low high (q ∷ qs) x h =
    let (starts, rest) = both {a = q.first == low} {b = tiles (low + q.width) high qs} h in
    let same : q.first ≡ low = ground arith in
    rw same (omega (arith, word_of-tiles (low + q.width) high qs x rest, field-split low q.width x))

-- The unions of a word and bit fields that fill it. They do not in `Cr4` and `PinBasedControls`, whose fields
-- have a gap, and in `FieldEncoding` (Guypervisor/vmcs_field.h), whose word has 64 bits and its fields 32.
abbrev pub words : List CType
words =
    register32 ∷ cr0 ∷ cr3 ∷ vmx_access_rights ∷ feature_control_msr ∷ vmx_basic_msr ∷ vmx_misc_msr
    ∷ pml4_entry ∷ pdpt_entry ∷ pd_entry ∷ pt_entry ∷ vm_exec_ctrl_fields ∷ secondary_vm_exec_ctrls
    ∷ vm_exit_ctrl_fields ∷ vm_entry_ctrl_fields ∷ eptp ∷ exit_reason_word ∷ []

abbrev tiled : CType → CType → Bool
tiled t s = tiles 0 (8 * size_of t) (members_of s)

words-tiled : every (λ t. every (tiled t) (structs_of t)) words ≡ true
unfolding tiles members_of size_of
words-tiled = refl

-- In each union of a word and bit fields of vmcs.h, paging.h, msr.h and processor.h but `Cr4` and
-- `PinBasedControls`: whatever the word, as wide as the union, it is put together again from the values
-- of its fields, in each of the structs that the union declares.
pub words-roundtrip :
    (t s : CType) (x : ℕ)
    → Memᴰ t words
    → Memᴰ s (structs_of t)
    → x < 2 ^ (8 * size_of t)
    → word_of (members_of s) (fields_of (members_of s) x) ≡ x
words-roundtrip t s x listed inside small =
    let each : every (tiled t) (structs_of t) ≡ true =
      every-Memᴰ (λ u. every (tiled u) (structs_of u)) words t words-tiled listed in
    let tiling : tiled t s ≡ true = every-Memᴰ (tiled t) (structs_of t) s each inside in
    let none_above : x / 2 ^ (8 * size_of t) ≡ 0 = div-eq_of_lt small in
    let split : word_of (members_of s) (fields_of (members_of s) x)
          + x / 2 ^ (8 * size_of t) * 2 ^ (8 * size_of t)
        ≡ x / 2 ^ 0 * 2 ^ 0 =
      word_of-tiles 0 (8 * size_of t) (members_of s) x tiling in
    let gone : x / 2 ^ (8 * size_of t) * 2 ^ (8 * size_of t) ≡ 0 = rw none_above (omega arith) in
    omega (arith, split, gone)
