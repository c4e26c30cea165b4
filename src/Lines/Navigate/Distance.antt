-- ===== src/Lines/Navigate/Distance.antt =====
-- Buffer::distance, next and prev (src/buffer.inl.hh) and Buffer::clamp (src/buffer.cc).
use kakoune.Prelude.{
  ℕ, zero, suc, ◌+◌, ◌-◌, ◌≤◌, ◌<◌, ◌≡◌, refl, ap, ◌∙◌, inl, inr, true, false, [], ◌∷◌, arith,
  length, take, Bool-cases, ◌==◌, ltb,
}
use kakoune.Prelude.Int.{sub_ℕ}
use kakoune.Coord.{BufferCoord, coord, coord_lt}
use kakoune.Lines.{
  BufferLines, line_at, total_length, advance, distance, distance_ordered, next, prev, clamp,
  back_coord,
}
use kakoune.Lines.View.{IsAt, Valid, IsAt-cases}
use kakoune.Lines.WellFormed.{WellFormed, length-line-pos, line_at-IsLine}
use kakoune.Lines.Navigate.Offset.{
  offset, offset_sum, offset-le, offset_unique, offset_lt, not_offset_lt, total_length-take-suc,
  total_length-take_add,
}
use kakoune.Lines.Navigate.Advance.{advance_lem, IsAt-line}

distance_ordered_lem :
    (ls : BufferLines) (b e : BufferCoord)
    → Valid ls b
    → Valid ls e
    → coord_lt e b ≡ false
    → distance_ordered ls b e + offset ls b ≡ offset ls e
unfolding distance_ordered coord_lt
distance_ordered_lem ls b e vb ve h = ground (
  arith,
  offset_sum ls b vb,
  offset_sum ls e ve,
  IsAt-cases ls b.line b.column vb,
  IsAt-cases ls e.line e.column ve,
  total_length-take-suc ls b.line,
  total_length-take_add ls (suc b.line) (e.line - suc b.line) e.line,
)

coord_lt_asymm : (a b : BufferCoord) → coord_lt a b ≡ true → coord_lt b a ≡ false
unfolding coord_lt
coord_lt_asymm a b h = ground arith

-- Between valid coordinates, the distance is the difference of the offsets into the text, negative
-- if `begin` is behind `end`.
pub distance_lem :
    (ls : BufferLines) (b e : BufferCoord)
    → Valid ls b
    → Valid ls e
    → distance ls b e ≡ sub_ℕ (offset ls e) (offset ls b)
unfolding distance
distance_lem ls b e vb ve = elim (Bool-cases (coord_lt e b)) [
  | inl t ↦
      let lt = offset_lt ls e b ve vb t in
      let d = distance_ordered_lem ls e b ve vb (coord_lt_asymm e b t) in
      rw t (ground (arith, lt, d))
  | inr f ↦
      let le = not_offset_lt ls e b ve vb f in
      let d = distance_ordered_lem ls b e vb ve f in rw f (ground (arith, le, d))
]

-- In well-formed lines, advancing from one valid coordinate by its distance to another, in either
-- direction, gives the other.
pub advance-distance :
    (ls : BufferLines) (b e : BufferCoord)
    → WellFormed ls
    → Valid ls b
    → Valid ls e
    → advance ls b (distance ls b e) ≡ e
advance-distance ls b e w vb ve =
    let (p, q) = advance_lem ls b (distance ls b e) w vb in
    offset_unique ls (advance ls b (distance ls b e)) e p ve
      (q ∙ rw (distance_lem ls b e vb ve) (ground (arith, offset-le ls e)))

IsAt-start : (ls : BufferLines) (l : ℕ) → WellFormed ls → l ≤ length ls → IsAt ls l 0
IsAt-start [] l w h = (omega arith, refl)
IsAt-start (x ∷ xs) zero w h = length-line-pos x w.0
IsAt-start (x ∷ xs) (suc l) w h = IsAt-start xs l w.1 (omega arith)

-- In well-formed lines, the coordinate after that of a byte is valid, and one byte further.
pub next_lem :
    (ls : BufferLines) (c : BufferCoord)
    → WellFormed ls
    → Valid ls c
    → c.line < length ls
    → Valid ls (next ls c) × (offset ls (next ls c) ≡ offset ls c + 1)
unfolding next
next_lem ls c w v lt = elim (Bool-cases (ltb c.column (length (line_at ls c.line) - 1))) [
  | inl e ↦
      let d = coord c.line (c.column + 1) in
      let vd : Valid ls d = IsAt-line ls c.line (c.column + 1) (ground arith) in
      rw e (vd, omega (arith, offset_sum ls d vd, offset_sum ls c v))
  | inr e ↦
      let below : c.line + 1 ≡ suc c.line = omega arith in
      let d = coord (suc c.line) 0 in
      let last : length (line_at ls c.line) ≡ c.column + 1 =
        ground (arith, IsAt-cases ls c.line c.column v) in
      let vd : Valid ls d = IsAt-start ls (suc c.line) w lt in
      rw (e, below)
        (vd, omega (arith, offset_sum ls d vd, offset_sum ls c v, total_length-take-suc ls c.line))
]

total_length-take_zero : (ls : BufferLines) (l : ℕ) → l ≡ 0 → total_length (take l ls) ≡ 0
total_length-take_zero ls l e = rw e

-- In well-formed lines, the coordinate before a valid one that is not the start is valid, and one
-- byte less far.
pub prev_lem :
    (ls : BufferLines) (c : BufferCoord)
    → WellFormed ls
    → Valid ls c
    → 0 < offset ls c
    → Valid ls (prev ls c) × (offset ls (prev ls c) + 1 ≡ offset ls c)
unfolding prev
prev_lem ls c w v lt = elim (Bool-cases (c.column == 0)) [
  | inl e ↦
      let z : c.column ≡ 0 = ground arith in
      let sum = offset_sum ls c v in
      let k = c.line - 1 in
      let in_lines : k < length ls = ground (arith, IsAt-cases ls c.line c.column v) in
      let is_line = line_at-IsLine ls k in_lines w in
      let d = coord k (length (line_at ls k) - 1) in
      let vd : Valid ls d =
        IsAt-line ls k (length (line_at ls k) - 1)
          (omega (arith, length-line-pos (line_at ls k) is_line)) in
      let below : c.line ≡ suc k = ground (arith, total_length-take_zero ls c.line) in
      rw e (
        vd,
        omega (
          arith,
          offset_sum ls d vd,
          ap (λ n. total_length (take n ls)) below,
          total_length-take-suc ls k,
          length-line-pos (line_at ls k) is_line,
        ),
      )
  | inr e ↦
      let d = coord c.line (c.column - 1) in
      let vd : Valid ls d =
        IsAt-line ls c.line (c.column - 1) (ground (arith, IsAt-cases ls c.line c.column v)) in
      rw e (vd, ground (arith, offset_sum ls d vd, offset_sum ls c v))
]

-- In well-formed lines, not empty, clamping any coordinate gives that of a byte, and leaves the
-- coordinate of a byte as it is.
pub clamp_lem :
    (ls : BufferLines) (c : BufferCoord)
    → WellFormed ls
    → 0 < length ls
    → Valid ls (clamp ls c)
      × ((clamp ls c).line < length ls)
      × (Valid ls c → c.line < length ls → clamp ls c ≡ c)
unfolding clamp
clamp_lem ls c w ne = elim (Bool-cases (coord_lt (back_coord ls) c)) [
  | inl e ↦
      let last = length ls - 1 in
      let some_byte = length-line-pos (line_at ls last) (line_at-IsLine ls last (omega arith) w) in
      rw e (
        IsAt-line ls last _ (omega (arith, some_byte)),
        omega arith,
        λ v lt. absurd (ground (arith, IsAt-cases ls c.line c.column v)),
      )
  | inr e ↦
      let in_lines : c.line < length ls = ground arith in
      let some_byte = length-line-pos (line_at ls c.line) (line_at-IsLine ls c.line in_lines w) in
      rw e (
        IsAt-line ls c.line _ (omega (arith, some_byte)),
        in_lines,
        λ v lt. ap (coord c.line) (omega (arith, IsAt-cases ls c.line c.column v)),
      )
]
