-- ===== src/Lines/Navigate/Offset.antt =====
-- Coordinates (src/coord.hh) seen as offsets into the text.
use kakoune.Prelude.{
  ℕ, zero, suc, ◌+◌, ◌-◌, ◌≤◌, ◌<◌, ◌≡◌, sym, ap, ◌∙◌, true, false, [], ◌∷◌, arith, length, take,
  drop, length-append,
}
use kakoune.Coord.{BufferCoord, coord_lt}
use kakoune.Lines.{BufferLines, line_at, total_length}
use kakoune.Lines.View.{
  text, Valid, text_before, text_after, IsAt-cases, length-before, IsAt-unique, before-append-after,
}

abbrev pub offset : BufferLines → BufferCoord → ℕ
offset ls c = length (text_before ls c)

-- In terms of the lines before the coordinate and the column.
pub offset_sum :
    (ls : BufferLines) (c : BufferCoord)
    → Valid ls c
    → offset ls c ≡ total_length (take c.line ls) + c.column
offset_sum ls c v = length-before ls c.line c.column v

pub offset-le :
    (ls : BufferLines) (c : BufferCoord) → offset ls c + length (text_after ls c) ≡ length (text ls)
offset-le ls c =
    sym (length-append (text_before ls c) (text_after ls c))
    ∙ ap length (before-append-after ls c.line c.column)

pub offset_unique :
    (ls : BufferLines) (a b : BufferCoord)
    → Valid ls a
    → Valid ls b
    → offset ls a ≡ offset ls b
    → a ≡ b
offset_unique ls a b va vb e =
    let (p, q) = IsAt-unique ls a.line a.column b.line b.column va vb e in
    λ i. record { line = p i; column = q i }

pub total_length-take-suc :
    (ls : BufferLines) (l : ℕ)
    → total_length (take (suc l) ls) ≡ total_length (take l ls) + length (line_at ls l)
total_length-take-suc [] zero = omega arith
total_length-take-suc [] (suc l) = omega arith
total_length-take-suc (x ∷ xs) zero = omega arith
total_length-take-suc (x ∷ xs) (suc l) = omega (arith, total_length-take-suc xs l)

pub total_length-take_add :
    (ls : BufferLines) (i k j : ℕ)
    → j ≡ i + k
    → total_length (take j ls) ≡ total_length (take i ls) + total_length (take k (drop i ls))
total_length-take_add ls zero k j e = let q : j ≡ k = omega arith in rw q (omega arith)
total_length-take_add [] (suc i) zero zero e = absurd (omega arith)
total_length-take_add [] (suc i) zero (suc j) e = omega arith
total_length-take_add [] (suc i) (suc k) zero e = absurd (omega arith)
total_length-take_add [] (suc i) (suc k) (suc j) e = omega arith
total_length-take_add (x ∷ xs) (suc i) k zero e = absurd (omega arith)
total_length-take_add (x ∷ xs) (suc i) k (suc j) e =
    omega (arith, total_length-take_add xs i k j (omega arith))

pub total_length-take_mono :
    (ls : BufferLines) (i j : ℕ) → i ≤ j → total_length (take i ls) ≤ total_length (take j ls)
total_length-take_mono ls i j h = omega (arith, total_length-take_add ls i (j - i) j (omega arith))

-- The order of coordinates is the order of offsets.
pub offset_lt :
    (ls : BufferLines) (a b : BufferCoord)
    → Valid ls a
    → Valid ls b
    → coord_lt a b ≡ true
    → offset ls a < offset ls b
unfolding coord_lt
offset_lt ls a b va vb h = ground (
  arith,
  offset_sum ls a va,
  offset_sum ls b vb,
  IsAt-cases ls a.line a.column va,
  IsAt-cases ls b.line b.column vb,
  total_length-take-suc ls a.line,
  total_length-take_mono ls (suc a.line) b.line,
  total_length-take_mono ls a.line b.line,
)

pub not_offset_lt :
    (ls : BufferLines) (a b : BufferCoord)
    → Valid ls a
    → Valid ls b
    → coord_lt a b ≡ false
    → offset ls b ≤ offset ls a
unfolding coord_lt
not_offset_lt ls a b va vb h = ground (
  arith,
  offset_sum ls a va,
  offset_sum ls b vb,
  IsAt-cases ls a.line a.column va,
  IsAt-cases ls b.line b.column vb,
  total_length-take-suc ls b.line,
  total_length-take_mono ls (suc b.line) a.line,
  total_length-take_mono ls b.line a.line,
)
