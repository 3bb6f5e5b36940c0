-- ===== src/Processor.antt =====
-- Segment selectors and descriptors (Guypervisor/processor.h, Guypervisor/processor.cpp).
pub mod Descriptor
use guypervisor.Base.{ℕ, ◌+◌, ◌-◌, ◌*◌, ◌/◌, ◌%◌, ◌^◌, bit_and, bit_or, ◌==◌, if◌then◌else◌}
use guypervisor.Machine.{
  Platform, Segment, es, cs, ss, ds, fs, gs, ldtr, tr, TableRegister, read_selector, segment_limit,
  load_access_rights,
}
use guypervisor.Machine.Run.{Io, done, pure, ◌>>=◌, ask}
use guypervisor.Machine.Memory.{field, set_field, load}

-- `segmentSelector`
pub record SegmentSelector : Type 0 where
  pub es_selector : ℕ
  pub cs_selector : ℕ
  pub ss_selector : ℕ
  pub ds_selector : ℕ
  pub fs_selector : ℕ
  pub gs_selector : ℕ
  pub ldtr_selector : ℕ
  pub tr_selector : ℕ

-- The fields of `vmxGdtEntry`; `access` is the 32-bit word of its access rights.
pub record VmxGdtEntry : Type 0 where
  pub limit : ℕ
  pub base : ℕ
  pub access : ℕ

-- The fields of `GDTEntry` that the driver reads.
pub record GdtEntry : Type 0 where
  pub base0 : ℕ
  pub base1 : ℕ
  pub system : ℕ
  pub base2 : ℕ
  pub base3 : ℕ

-- `selector & ~kRplMask`, in the 32 bits of an `int`.
abbrev pub without_rpl : ℕ → ℕ
without_rpl selector = bit_and selector (2 ^ 32 - 4)

-- The structure at an address.
unfoldable pub gdt_entry_at : (ℕ → ℕ) → ℕ → GdtEntry
gdt_entry_at memory a =
    let type_word = load memory 2 (a + 4) in
    let flags_word = load memory 2 (a + 6) in
    record {
      base0 = load memory 2 (a + 2);
      base1 = field 0 8 type_word;
      system = field 12 1 type_word;
      base2 = field 8 8 flags_word;
      base3 = load memory 4 (a + 8);
    }

-- `entry->fields.base` as `ReadGDTEntry` puts it together.
unfoldable pub descriptor_base : GdtEntry → ℕ
descriptor_base d =
    let low = bit_and (bit_or (bit_or (d.base2 * 2 ^ 24) (d.base1 * 2 ^ 16)) d.base0) 0xffffffff in
    if d.system == 0 then bit_or low (d.base3 * 2 ^ 32) else low

-- The base of the descriptor that stands at an address.
unfoldable pub base_in_memory : ℕ → Io ℕ
unfolding gdt_entry_at descriptor_base
base_in_memory a w = done (descriptor_base (gdt_entry_at w.memory a)) w

module _ (p : Platform) where
  unfoldable pub load_segment_selectors : Io SegmentSelector
  load_segment_selectors = do
    es_value ← ask p (read_selector es)
    cs_value ← ask p (read_selector cs)
    ss_value ← ask p (read_selector ss)
    ds_value ← ask p (read_selector ds)
    fs_value ← ask p (read_selector fs)
    gs_value ← ask p (read_selector gs)
    ldtr_value ← ask p (read_selector ldtr)
    tr_value ← ask p (read_selector tr)
    pure (record {
      es_selector = es_value % 2 ^ 16;
      cs_selector = cs_value % 2 ^ 16;
      ss_selector = ss_value % 2 ^ 16;
      ds_selector = ds_value % 2 ^ 16;
      fs_selector = fs_value % 2 ^ 16;
      gs_selector = gs_value % 2 ^ 16;
      ldtr_selector = ldtr_value % 2 ^ 16;
      tr_selector = tr_value % 2 ^ 16;
    })

  -- The rights of a selector: those of its descriptor, or the bit `unusable` for a null selector.
  unfoldable pub access_rights : ℕ → Io ℕ
  access_rights selector =
      if selector == 0
      then pure (set_field 16 1 1 0)
      else do rights ← ask p (load_access_rights selector); pure (rights % 2 ^ 32 / 2 ^ 8)

  unfoldable pub read_gdt_entry : TableRegister → ℕ → Io VmxGdtEntry
  unfolding access_rights base_in_memory
  read_gdt_entry gdt selector =
      if bit_and selector 3 == 1 then pure (record { limit = 0; base = 0; access = 0 }) else do
        segment_bytes ← ask p (segment_limit selector)
        rights ← access_rights selector
        base ← base_in_memory ((gdt.base + without_rpl selector) % 2 ^ 64)
        pure (record { limit = segment_bytes % 2 ^ 32; base = base; access = rights })
