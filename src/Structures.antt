-- ===== src/Structures.antt =====
-- The types that the headers of Guypervisor declare, with the size and the alignment that the compiler
-- gives them: the bits of a type stand in its bytes from the lowest on, and adjacent bit fields share
-- a unit where their declared types have one size and the next field still fits.
pub mod Registers
pub mod ControlRegisters
pub mod Descriptors
pub mod Msrs
pub mod Paging
pub mod Segments
pub mod States
pub mod Controls
pub mod Exits
pub mod Vmcs
pub mod Placed
pub mod Words
pub mod Used
pub mod Region
use Prim.Native.String.{String}
use guypervisor.Base.{ℕ, ◌+◌, ◌-◌, ◌*◌, ◌%◌, min, max, Bool, ◌&&◌, ◌==◌, leb, if◌then◌else◌}

-- A struct and a union come with their packing, the bound on the alignment of their members.
mutual
  pub data CType : Type 0 where
    scalar : (bytes : ℕ) → CType
    array : (count : ℕ) → CType → CType
    struct : (packing : ℕ) → Members → CType
    union : (packing : ℕ) → Members → CType

  -- A member with its type, or a bit field with the bytes of its declared type and its width.
  pub data Member : Type 0 where
    whole : String → CType → Member
    bits : String → (bytes width : ℕ) → Member

  infixr 5 ◌▷◌
  pub data Members : Type 0 where
    end : Members
    ◌▷◌ : Member → Members → Members

abbrev pub round_up : (n a : ℕ) → ℕ
round_up n a = n + (a - n % a) % a

-- Where the next member may stand: the byte behind what is placed, the bytes of the unit of bit fields
-- that ends there, 0 for none, and the bits of it that are in use.
pub record Cursor : Type 0 where
  pub next : ℕ
  pub unit : ℕ
  pub used : ℕ

abbrev pub cursor : (next unit used : ℕ) → Cursor
cursor n u k = record { next = n; unit = u; used = k }

-- Whether a bit field goes into the open unit.
abbrev pub shares : Cursor → (bytes width : ℕ) → Bool
shares c bytes width = (c.unit == bytes) && leb (c.used + width) (8 * bytes)

-- The bit at which a bit field, and a member of a size and an alignment, stands, and the cursor behind it.
unfoldable pub bits_at : (packing : ℕ) → Cursor → (bytes width : ℕ) → ℕ × Cursor
bits_at packing c bytes width =
    if shares c bytes width
    then (8 * (c.next - c.unit) + c.used, cursor c.next c.unit (c.used + width))
    else let start = round_up c.next (min packing bytes) in
      (8 * start, cursor (start + bytes) bytes width)

unfoldable pub whole_at : Cursor → (size alignment : ℕ) → ℕ × Cursor
whole_at c size alignment =
    let start = round_up c.next alignment in (8 * start, cursor (start + size) 0 0)

unfoldable mutual
  pub align_of : CType → ℕ
  align_of (scalar bytes) = bytes
  align_of (array count t) = align_of t
  align_of (struct packing ms) = min packing (members_align ms)
  align_of (union packing ms) = min packing (members_align ms)

  pub members_align : Members → ℕ
  members_align end = 1
  members_align (whole name t ▷ ms) = max (align_of t) (members_align ms)
  members_align (bits name bytes width ▷ ms) = max bytes (members_align ms)

unfoldable mutual
  unfolding align_of bits_at whole_at

  pub size_of : CType → ℕ
  size_of (scalar bytes) = bytes
  size_of (array count t) = count * size_of t
  size_of (struct packing ms) =
      round_up (struct_end packing (cursor 0 0 0) ms) (min packing (members_align ms))
  size_of (union packing ms) = round_up (union_end ms) (min packing (members_align ms))

  -- The byte behind the last member.
  pub struct_end : (packing : ℕ) → Cursor → Members → ℕ
  struct_end packing c end = c.next
  struct_end packing c (whole name t ▷ ms) =
      struct_end packing ((whole_at c (size_of t) (min packing (align_of t))).1) ms
  struct_end packing c (bits name bytes width ▷ ms) =
      struct_end packing ((bits_at packing c bytes width).1) ms

  pub union_end : Members → ℕ
  union_end end = 0
  union_end (whole name t ▷ ms) = max (size_of t) (union_end ms)
  union_end (bits name bytes width ▷ ms) = max bytes (union_end ms)
