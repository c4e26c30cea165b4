-- ===== src/Coord.antt =====
-- Positions in a buffer (src/coord.hh): a line and a byte column, ordered by line, then column.
--
-- The source's LineCount and ByteCount are signed 32-bit counts; the positions that the modelled
-- functions take and return are not negative, so both fields are natural numbers here.
use kakoune.Prelude.{ℕ, ◌≡◌, Bool, true, false, ◌&&◌, ◌||◌, arith, ltb, ◌==◌}

-- struct BufferCoord
pub record BufferCoord : Type 0 where
  pub line : ℕ
  pub column : ℕ

abbrev pub coord : ℕ → ℕ → BufferCoord
coord l c = record { line = l; column = c }

-- The defaulted operator<=> compares the fields in the order of their declaration.
unfoldable pub coord_lt : BufferCoord → BufferCoord → Bool
coord_lt a b = ltb a.line b.line || (a.line == b.line && ltb a.column b.column)

unfoldable pub coord_eq : BufferCoord → BufferCoord → Bool
coord_eq a b = a.line == b.line && a.column == b.column

unfoldable pub coord_le : BufferCoord → BufferCoord → Bool
unfolding coord_lt coord_eq
coord_le a b = coord_lt a b || coord_eq a b

-- The order is total.
pub coord_le-false :
    (a b : BufferCoord) → coord_le a b ≡ false → (coord_lt b a ≡ true) × (coord_lt a b ≡ false)
unfolding coord_le
coord_le-false a b h = ground arith

pub coord_le_differ : (a b : BufferCoord) → coord_le a b ≡ false → coord_eq b a ≡ false
unfolding coord_le
coord_le_differ a b h = ground arith
