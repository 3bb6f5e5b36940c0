-- ===== src/Processor/Descriptor.antt =====
-- What `ReadGDTEntry` reads (Guypervisor/processor.cpp), against the layout of a descriptor.
use guypervisor.Base.{
  ◌∷◌, ℕ, ◌+◌, ◌-◌, ◌*◌, ◌/◌, ◌%◌, ◌^◌, ◌<◌, bit_and, bit_or, ◌==◌, if◌then◌else◌, ◌≡◌, refl, arith,
  Bool-cases, inl, inr, ◌∙◌,
}
use guypervisor.Bits.Mask.{bit_and-low, bit_and-clear}
use guypervisor.Bits.Slice.{bit_or-disjoint, bit_or_comm}
use guypervisor.Machine.{Platform, World, TableRegister, segment_limit, load_access_rights}
use guypervisor.Machine.Memory.{field, load}
use guypervisor.Machine.Returns.{Returns, returns}
use guypervisor.Processor.{
  GdtEntry, without_rpl, gdt_entry_at, descriptor_base, base_in_memory, access_rights,
  read_gdt_entry,
}

-- The offset at which `ReadGDTEntry` looks for the descriptor of a 16-bit selector is eight bytes for each
-- descriptor of its index, and four more where its table indicator, bit 2, is set.
pub without_rpl-offset :
    (selector : ℕ)
    → selector < 2 ^ 16
    → without_rpl selector ≡ selector / 8 * 8 + selector / 4 % 2 * 4
without_rpl-offset selector h =
    let cleared : bit_and selector (2 ^ 30 * 2 ^ 2 - 2 ^ 2) ≡ selector - selector % 2 ^ 2 =
      bit_and-clear 2 30 selector (omega arith) in
    omega (arith, cleared)

-- The four low bytes of a base, and its eight for a system descriptor (`system` is 0).
base_as_sum :
    (d : GdtEntry)
    → d.base0 < 2 ^ 16
    → d.base1 < 2 ^ 8
    → d.base2 < 2 ^ 8
    → descriptor_base d
      ≡ d.base0
        + d.base1 * 2 ^ 16
        + d.base2 * 2 ^ 24
        + (if d.system == 0 then d.base3 * 2 ^ 32 else 0)
unfolding descriptor_base
base_as_sum d h0 h1 h2 =
    let high : bit_or (d.base2 * 2 ^ 24) (d.base1 * 2 ^ 16) ≡ (d.base2 * 2 ^ 8 + d.base1) * 2 ^ 16 =
      omega (arith, bit_or-disjoint 24 d.base2 (d.base1 * 2 ^ 16) (omega arith)) in
    let low : bit_or ((d.base2 * 2 ^ 8 + d.base1) * 2 ^ 16) d.base0
        ≡ (d.base2 * 2 ^ 8 + d.base1) * 2 ^ 16 + d.base0 =
      bit_or-disjoint 16 (d.base2 * 2 ^ 8 + d.base1) d.base0 h0 in
    let masked : bit_and ((d.base2 * 2 ^ 8 + d.base1) * 2 ^ 16 + d.base0) 0xffffffff
        ≡ (d.base2 * 2 ^ 8 + d.base1) * 2 ^ 16 + d.base0 =
      omega (arith, bit_and-low 32 ((d.base2 * 2 ^ 8 + d.base1) * 2 ^ 16 + d.base0)) in
    let word : ℕ = (d.base2 * 2 ^ 8 + d.base1) * 2 ^ 16 + d.base0 in
    let joined : bit_or word (d.base3 * 2 ^ 32) ≡ d.base3 * 2 ^ 32 + word =
      bit_or_comm word (d.base3 * 2 ^ 32) ∙ bit_or-disjoint 32 d.base3 word (omega arith) in
    rw (high, low, masked) (ground arith)

-- The base that is put together from the descriptor at `a` has its bytes 2, 3, 4 and 7 from the lowest
-- on, and, where bit 4 of byte 5 (a code or data segment) is 0, the bytes 8 to 11 above them.
pub descriptor_base-bytes :
    (m : ℕ → ℕ) (a : ℕ)
    → descriptor_base (gdt_entry_at m a)
      ≡ m (a + 2) % 256
        + m (a + 3) % 256 * 2 ^ 8
        + m (a + 4) % 256 * 2 ^ 16
        + m (a + 7) % 256 * 2 ^ 24
        + (if m (a + 5) % 256 / 16 % 2 == 0 then load m 4 (a + 8) * 2 ^ 32 else 0)
unfolding gdt_entry_at load
descriptor_base-bytes m a =
    let third : a + 2 + 1 ≡ a + 3 = omega arith in
    let fifth : a + 4 + 1 ≡ a + 5 = omega arith in
    let seventh : a + 6 + 1 ≡ a + 7 = omega arith in
    let system : field 12 1 (m (a + 4) % 256 + 256 * (m (a + 5) % 256 + 0))
        ≡ m (a + 5) % 256 / 16 % 2 =
      omega arith in
    base_as_sum (gdt_entry_at m a) (omega arith) (omega arith) (omega arith)
    ∙ rw (third, fifth, seventh) (rw system (omega arith))

-- The base of the descriptor at `a`, from its bytes.
abbrev pub base_bytes : (ℕ → ℕ) → ℕ → ℕ
base_bytes m a =
    m (a + 2) % 256
    + m (a + 3) % 256 * 2 ^ 8
    + m (a + 4) % 256 * 2 ^ 16
    + m (a + 7) % 256 * 2 ^ 24
    + (if m (a + 5) % 256 / 16 % 2 == 0 then load m 4 (a + 8) * 2 ^ 32 else 0)

-- The address of the descriptor of a selector.
abbrev pub descriptor_address : TableRegister → ℕ → ℕ
descriptor_address gdtr selector = (gdtr.base + (selector / 8 * 8 + selector / 4 % 2 * 4)) % 2 ^ 64

module _ (p : Platform) (gdtr : TableRegister) (selector : ℕ) (w : World) where
  -- For a 16-bit selector `ReadGDTEntry` returns and leaves the memory alone. For a requested privilege
  -- level of 1 it calls nothing and the entry is all 0. For any other it asks for the limit, and for
  -- the access rights unless the selector is 0; the limit is the answer in 32 bits, the rights are bits
  -- 8 to 31 of the answer, or the bit `unusable` alone for selector 0, and the base is made of the bytes
  -- of the descriptor in memory, eight bytes into the table for each descriptor of the index and four
  -- more for the table indicator.
  pub read_gdt_entry-bytes :
      selector < 2 ^ 16
      → Returns
          (λ entry w'.
            (w'.memory ≡ w.memory)
            × (w'.trace ≡ (
                if selector % 4 == 1
                then w.trace
                else if selector == 0
                then segment_limit selector ∷ w.trace
                else load_access_rights selector ∷ segment_limit selector ∷ w.trace))
            × (entry.limit ≡ (
                if selector % 4 == 1 then 0 else p.datum w.trace (segment_limit selector) % 2 ^ 32))
            × (entry.base ≡ (
                if selector % 4 == 1
                then 0
                else base_bytes w.memory (descriptor_address gdtr selector)))
            × (entry.access ≡ (
                if selector % 4 == 1
                then 0
                else if selector == 0
                then 2 ^ 16
                else p.datum (segment_limit selector ∷ w.trace) (load_access_rights selector)
                  / 2 ^ 8
                  % 2 ^ 24)))
          (read_gdt_entry p gdtr selector w)
  unfolding read_gdt_entry access_rights base_in_memory
  read_gdt_entry-bytes h =
      let bytes = descriptor_base-bytes w.memory (descriptor_address gdtr selector) in
      rw (bit_and-low 2 selector) (elim (Bool-cases (selector % 4 == 1)) [
        | inl ldt ↦ rw (ldt, read_gdt_entry) (returns (refl, refl, refl, refl, refl))
        | inr gdt ↦
            rw (gdt, read_gdt_entry)
              (rw (without_rpl-offset selector h, read_gdt_entry)
                (elim (Bool-cases (selector == 0)) [
                  | inl null ↦ rw (null, access_rights) (returns (refl, refl, refl, bytes, refl))
                  | inr used ↦
                      rw (used, access_rights) (returns (refl, refl, refl, bytes, omega arith))
                ]))
      ])
