-- ===== src/Structures/Placed.antt =====
-- Where the members of a struct stand.
use Prim.Native.String.{String}
use guypervisor.Base.{ℕ, ◌*◌, min, List, [], ◌∷◌}
use guypervisor.Structures.{
  CType, struct, whole, bits, Members, end, ◌▷◌, Cursor, cursor, bits_at, whole_at, align_of,
  size_of,
}

-- A member with its first bit and the number of its bits.
pub record Place : Type 0 where
  pub name : String
  pub first : ℕ
  pub width : ℕ

abbrev pub place : String → (first width : ℕ) → Place
place s f w = record { name = s; first = f; width = w }

unfoldable pub places : (packing : ℕ) → Cursor → Members → List Place
places packing c end = []
places packing c (whole name t ▷ ms) =
    let (first, next) = whole_at c (size_of t) (min packing (align_of t)) in
    place name first (8 * size_of t) ∷ places packing next ms
places packing c (bits name bytes width ▷ ms) =
    let (first, next) = bits_at packing c bytes width in
    place name first width ∷ places packing next ms

-- The members of a struct; those of a union all stand at bit 0.
unfoldable pub members_of : CType → List Place
unfolding places
members_of (struct packing ms) = places packing (cursor 0 0 0) ms
members_of _ = []
