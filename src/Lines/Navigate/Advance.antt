-- ===== src/Lines/Navigate/Advance.antt =====
-- Buffer::advance (src/buffer.cc) moves by a number of bytes, and stops at both ends of the buffer.
use kakoune.Prelude.{
  ℕ, zero, suc, ◌+◌, ◌-◌, ◌≤◌, ◌<◌, min, ◌≡◌, refl, sym, ap, ◌∙◌, inl, inr, [], ◌∷◌, ◌++◌,
  append_assoc, arith, length, take, drop, length-append, take-append-drop, length-take, ltb, leb,
  take-append, take-append_right, Bool-cases, take-nil, append-nil,
}
use kakoune.Prelude.Int.{ℤ, pos, negsuc, pos_part, neg_part}
use kakoune.Coord.{BufferCoord, coord}
use kakoune.Lines.{
  Bytes, BufferLines, line_at, total_length, advance, advance_forward, advance_backward,
}
use kakoune.Lines.View.{
  text, before, after, IsAt, Valid, text_before, text_after, IsAt-cases, before-take,
}
use kakoune.Lines.WellFormed.{WellFormed, length-line-pos}
use kakoune.Lines.Navigate.Offset.{offset, offset_sum, offset-le, total_length-take-suc}

-- The coordinate that the forward loop stops at, seen from the line where it starts.
record Stops (xs : BufferLines) (line count : ℕ) (c : BufferCoord) : Type 0 where
  down : ℕ
  line_eq : c.line ≡ line + down
  is_at : IsAt xs down c.column
  text_eq : before xs down c.column ≡ take count (text xs)

advance_forward-Stops :
    (xs : BufferLines) (line count : ℕ) → Stops xs line count (advance_forward xs line count)
unfolding advance_forward
advance_forward-Stops [] line count = record {
  down = 0;
  line_eq = omega arith;
  is_at = (refl, refl);
  text_eq = sym (take-nil count);
}
advance_forward-Stops (x ∷ xs) line count = elim (Bool-cases (ltb count (length x))) [
  | inl e ↦
      rw (e, advance_forward)
        (record {
          down = 0;
          line_eq = omega arith;
          is_at = ground arith;
          text_eq = sym (take-append count x (text xs) (ground arith));
        })
  | inr e ↦
      let s = advance_forward-Stops xs (suc line) (count - length x) in
      rw (e, advance_forward)
        (record {
          down = suc s.down;
          line_eq = s.line_eq ∙ omega arith;
          is_at = s.is_at;
          text_eq = ap (x ++◌) s.text_eq ∙ sym (take-append_right count x (text xs) (ground arith));
        })
]

-- The text from the start of a coordinate's line on.
text-drop :
    (ls : BufferLines) (l col : ℕ) → text (drop l ls) ≡ take col (line_at ls l) ++ after ls l col
text-drop [] zero col = rw (take-nil {A = ℕ} col)
text-drop [] (suc l) col = rw (take-nil {A = ℕ} col)
text-drop (x ∷ xs) zero col =
    ap (λ t. t ++ text xs) (sym (take-append-drop col x))
    ∙ append_assoc (take col x) (drop col x) (text xs)
text-drop (x ∷ xs) (suc l) col = text-drop xs l col

length-take_column :
    (ls : BufferLines) (c : BufferCoord)
    → Valid ls c
    → length (take c.column (line_at ls c.line)) ≡ c.column
length-take_column ls c v =
    omega (arith, IsAt-cases ls c.line c.column v, length-take c.column (line_at ls c.line))

line-le : (ls : BufferLines) (c : BufferCoord) → Valid ls c → c.line ≤ length ls
line-le ls c v = omega (arith, IsAt-cases ls c.line c.column v)

-- A coordinate of the lines from `l` on is one of all the lines.
below_drop :
    (ls : BufferLines) (l d j col : ℕ)
    → l ≤ length ls
    → j ≡ l + d
    → IsAt (drop l ls) d col
    → IsAt ls j col × (before ls j col ≡ text (take l ls) ++ before (drop l ls) d col)
below_drop ls zero d j col h e v = let q : j ≡ d = omega arith in rw q (v, refl)
below_drop [] (suc l) d j col h e v = absurd (omega arith)
below_drop (x ∷ xs) (suc l) d zero col h e v = absurd (omega arith)
below_drop (x ∷ xs) (suc l) d (suc j) col h e v =
    let (p, q) = below_drop xs l d j col (omega arith) (omega arith) v in
    (p, ap (x ++◌) q ∙ sym (append_assoc x (text (take l xs)) (before (drop l xs) d col)))

module _ (ls : BufferLines) (c r : BufferCoord) (v : Valid ls c) where
  at_drop :
      (count : ℕ)
      → Stops (drop c.line ls) c.line count r
      → Valid ls r
        × (text_before ls r ≡ text (take c.line ls) ++ take count (text (drop c.line ls)))
  at_drop count s =
      let (p, q) = below_drop ls c.line s.down r.line r.column (line-le ls c v) s.line_eq s.is_at in
      (p, q ∙ ap (text (take c.line ls) ++◌) s.text_eq)

-- Forwards: as many more bytes stand before the result, if there are as many.
pub advance_pos :
    (ls : BufferLines) (c : BufferCoord) (n : ℕ)
    → Valid ls c
    → Valid ls (advance ls c (pos n))
      × (text_before ls (advance ls c (pos n)) ≡ text_before ls c ++ take n (text_after ls c))
unfolding advance
advance_pos ls c zero v = (v, sym (append-nil (text_before ls c)))
advance_pos ls c (suc n) v =
    let stops = advance_forward-Stops (drop c.line ls) c.line (suc n + c.column) in
    let (a, b) = at_drop ls c _ v (suc n + c.column) stops in (a, b ∙ regroup)
  where
    front : Bytes
    front = take c.column (line_at ls c.line)

    n_left : suc n + c.column - length front ≡ suc n
    n_left = omega (arith, length-take_column ls c v)

    regroup :
        text (take c.line ls) ++ take (suc n + c.column) (text (drop c.line ls))
        ≡ text_before ls c ++ take (suc n) (text_after ls c)
    regroup =
        rw
          (
            text-drop ls c.line c.column,
            before-take ls c.line c.column,
            take-append_right (suc n + c.column) front (text_after ls c)
                (omega (arith, length-take_column ls c v)),
            n_left,
          )
          (sym (append_assoc (text (take c.line ls)) front (take (suc n) (text_after ls c))))

-- Backwards.
pub origin-Valid : (ls : BufferLines) → WellFormed ls → Valid ls (coord 0 0)
origin-Valid [] w = (refl, refl)
origin-Valid (x ∷ xs) w = length-line-pos x w.0

offset-origin : (ls : BufferLines) → offset ls (coord 0 0) ≡ 0
offset-origin [] = refl
offset-origin (x ∷ xs) = refl

pub IsAt-line : (ls : BufferLines) (l col : ℕ) → col < length (line_at ls l) → IsAt ls l col
IsAt-line [] l col h = absurd (omega arith)
IsAt-line (x ∷ xs) zero col h = h
IsAt-line (x ∷ xs) (suc l) col h = IsAt-line xs l col h

advance_backward_lem :
    (ls : BufferLines) (line missing : ℕ)
    → WellFormed ls
    → 0 < missing
    → let r = advance_backward ls line missing in
      Valid ls r × (offset ls r ≡ total_length (take line ls) - missing)
unfolding advance_backward
advance_backward_lem ls zero missing w h = (origin-Valid ls w, omega (arith, offset-origin ls))
advance_backward_lem ls (suc line) missing w h =
    elim (Bool-cases (leb missing (length (line_at ls line)))) [
      | inl e ↦
          let enough : missing ≤ length (line_at ls line) = ground arith in
          let c = coord line (length (line_at ls line) - missing) in
          let v : Valid ls c =
            IsAt-line ls line (length (line_at ls line) - missing) (omega arith) in
          rw (e, advance_backward)
            (v, omega (arith, offset_sum ls c v, total_length-take-suc ls line))
      | inr e ↦
          let more : length (line_at ls line) < missing = ground arith in
          let rest = missing - length (line_at ls line) in
          let (p, q) = advance_backward_lem ls line rest w (omega arith) in
          rw (e, advance_backward) (p, omega (arith, q, total_length-take-suc ls line))
    ]

advance_negsuc :
    (ls : BufferLines) (c : BufferCoord) (n : ℕ)
    → WellFormed ls
    → Valid ls c
    → Valid ls (advance ls c (negsuc n))
      × (offset ls (advance ls c (negsuc n)) ≡ offset ls c - suc n)
unfolding advance
advance_negsuc ls c n w v = elim (Bool-cases (leb (suc n) c.column)) [
  | inl e ↦
      let enough : suc n ≤ c.column = ground arith in
      let d = coord c.line (c.column - suc n) in
      let vd : Valid ls d =
        IsAt-line ls c.line (c.column - suc n) (omega (arith, IsAt-cases ls c.line c.column v)) in
      rw e (vd, omega (arith, offset_sum ls d vd, offset_sum ls c v))
  | inr e ↦
      let more : c.column < suc n = ground arith in
      let (p, q) = advance_backward_lem ls c.line (suc n - c.column) w (omega arith) in
      rw e (p, omega (arith, q, offset_sum ls c v))
]

-- In well-formed lines, `advance` from a valid coordinate by any count, negative or not, gives a
-- valid coordinate, whose offset is the sum, kept between the start and the end of the text.
pub advance_lem :
    (ls : BufferLines) (c : BufferCoord) (k : ℤ)
    → WellFormed ls
    → Valid ls c
    → Valid ls (advance ls c k)
      × (offset ls (advance ls c k)
          ≡ min (offset ls c + pos_part k - neg_part k) (length (text ls)))
advance_lem ls c (pos n) w v =
    let (p, q) = advance_pos ls c n v in
    (
      p,
      omega (
        arith,
        ap length q,
        length-append (text_before ls c) (take n (text_after ls c)),
        length-take n (text_after ls c),
        offset-le ls c,
      ),
    )
advance_lem ls c (negsuc n) w v =
    let (p, q) = advance_negsuc ls c n w v in (p, omega (arith, q, offset-le ls c))
