-- ===== src/Kernel/Layout.antt =====
-- How a compiler lays out a packed struct: bit-fields one behind the other, every other member from the
-- next byte on, and the whole rounded up to the alignment that the type asks for. A member has its size
-- in bytes or bits; a comment of the source that names a byte is kept between the members.
use Prim.Native.String.{String}
use sbuoperating_system.Prelude.{ℕ, ◌+◌, ◌-◌, ◌*◌, ◌/◌, ◌≡◌, List, [], ◌∷◌, if◌then◌else◌}
use text.Mathlib.Text.{◌==◌}

abbrev pub uint8_t : ℕ
uint8_t = 1

abbrev pub uint16_t : ℕ
uint16_t = 2

abbrev pub uint32_t : ℕ
uint32_t = 4

abbrev pub uint64_t : ℕ
uint64_t = 8

pub data Member : Type 0 where
  field : (name : String) (bytes : ℕ) → Member
  bits : (name : String) (width : ℕ) → Member
  comment : (byte : ℕ) → Member

pub record Struct : Type 0 where
  pub members : List Member
  pub alignment : ℕ

-- Where a member stands: its first bit and its width in bits.
pub record Place : Type 0 where
  pub name : String
  pub first : ℕ
  pub width : ℕ

-- The first multiple of `a` from `n` on.
abbrev pub round_up : ℕ → ℕ → ℕ
round_up n a = (n + (a - 1)) / a * a

-- The places of the members from the bit `at` on.
unfoldable pub places : ℕ → List Member → List Place
places at [] = []
places at (field name bytes ∷ ms) =
    let first = round_up at 8 in
    record { name = name; first = first; width = 8 * bytes } ∷ places (first + 8 * bytes) ms
places at (bits name width ∷ ms) =
    record { name = name; first = at; width = width } ∷ places (at + width) ms
places at (comment byte ∷ ms) = places at ms

-- The bit behind the members from the bit `at` on.
unfoldable pub end_of : ℕ → List Member → ℕ
end_of at [] = at
end_of at (field name bytes ∷ ms) = end_of (round_up at 8 + 8 * bytes) ms
end_of at (bits name width ∷ ms) = end_of (at + width) ms
end_of at (comment byte ∷ ms) = end_of at ms

unfoldable pub sizeof : Struct → ℕ
unfolding end_of
sizeof s = round_up (round_up (end_of 0 s.members) 8 / 8) s.alignment

-- The first bit of the member with a name, or of none the bit 0.
unfoldable pub first_of : String → List Place → ℕ
first_of name [] = 0
first_of name (x ∷ xs) = if x.name == name then x.first else first_of name xs

-- Every comment names the byte that comes next.
abbrev pub Commented : ℕ → List Member → Type 0
Commented at [] = Unit
Commented at (field name bytes ∷ ms) = Commented (round_up at 8 + 8 * bytes) ms
Commented at (bits name width ∷ ms) = Commented (at + width) ms
Commented at (comment byte ∷ ms) = (at ≡ 8 * byte) × Commented at ms
