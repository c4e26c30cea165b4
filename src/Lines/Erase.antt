-- ===== src/Lines/Erase.antt =====
-- Erasing from the lines (Buffer::do_erase in src/buffer.cc).
use kakoune.Prelude.{
  ℕ, zero, suc, ◌<◌, ◌≡◌, refl, sym, ap, ◌∙◌, ◌⊎◌, inl, inr, Bool, true, false, [], ◌∷◌, ◌++◌, ◌&&◌,
  append_assoc, arith, ◌==◌, if◌then◌else◌, length, is_empty, take, drop, set, ==_iff,
  length-append, take-length_append, append_cancel, length-take, length-drop, drop_of_le,
}
use kakoune.Coord.{BufferCoord}
use kakoune.Lines.{Bytes, BufferLines, line_at, erase_lines}
use kakoune.Lines.View.{
  text, text-append, before, after, IsAt, Valid, text_before, text_after, IsAt-cases,
  before-append-after, drop_cons, before-append, IsAt-append, before-take, after-drop,
}
use kakoune.Lines.WellFormed.{
  IsLine, NoNewline, WellFormed, All-append, All-take, All-drop, NoNewline-take, IsLine-drop,
  IsLine-append, line_at-IsLine,
}

-- The result on the list of lines alone, for the induction over the lines before `begin`.
abbrev cut_out : BufferLines → ℕ → ℕ → ℕ → ℕ → BufferLines
cut_out ls l col l' col' =
    let front = take col (line_at ls l) in
    let rest = if l' == length ls then [] else drop col' (line_at ls l') in
    let kept = take l ls ++ drop l' ls in
    if is_empty front && is_empty rest then kept else set kept l (front ++ rest)

-- `begin` is not behind `end`; a range up to the end of the buffer starts at a line's start.
abbrev pub IsRange : BufferLines → BufferCoord → BufferCoord → Type 0
IsRange ls b e =
    ((b.line < e.line) ⊎ ((b.line ≡ e.line) × (b.column < e.column)))
    × (e.line ≡ length ls → b.column ≡ 0)

-- The lines from `end` on, with what is kept of the line of `begin` in front of them.
joined : Bytes → BufferLines → ℕ → BufferLines
joined front [] col = []
joined front (y ∷ ys) col = (front ++ drop col y) ∷ ys

set-append :
    (xs ys : BufferLines) (y v : Bytes) (l : ℕ)
    → l ≡ length xs
    → set (xs ++ y ∷ ys) l v ≡ xs ++ v ∷ ys
set-append [] ys y v zero e = refl
set-append [] ys y v (suc l) e = absurd (omega arith)
set-append (x ∷ xs) ys y v zero e = absurd (omega arith)
set-append (x ∷ xs) ys y v (suc l) e = ap (x ∷◌) (set-append xs ys y v l (omega arith))

is_empty-drop : (n : ℕ) (x : Bytes) → n < length x → is_empty (drop n x) ≡ false
is_empty-drop n [] h = absurd (omega arith)
is_empty-drop zero (c ∷ r) h = refl
is_empty-drop (suc n) (c ∷ r) h = is_empty-drop n r (omega arith)

and_false : (b : Bool) → (b && false) ≡ false
and_false true = refl
and_false false = refl

-- What is joined, for a position in its first line or at the end.
text-joined :
    (front : Bytes) (ys : BufferLines) (col : ℕ)
    → (ys ≡ [] → front ≡ [])
    → text (joined front ys col) ≡ front ++ after ys 0 col
unfolding joined
text-joined front [] col h = rw (h refl)
text-joined front (y ∷ ys) col h = append_assoc front (drop col y) (text ys)

before-joined :
    (front : Bytes) (ys : BufferLines) (col n : ℕ)
    → (ys ≡ [] → front ≡ [])
    → n ≡ length front
    → before (joined front ys col) 0 n ≡ front
unfolding joined
before-joined front [] col n h e = sym (h refl)
before-joined front (y ∷ ys) col n h e = rw e (take-length_append front (drop col y))

joined-WellFormed :
    (front : Bytes) (ys : BufferLines) (col : ℕ)
    → WellFormed ys
    → IsAt ys 0 col
    → NoNewline front
    → WellFormed (joined front ys col)
unfolding joined
joined-WellFormed front [] col w v h = tt
joined-WellFormed front (y ∷ ys) col w v h =
    (IsLine-append front (drop col y) h (IsLine-drop col y v w.0), w.1)

joined-IsAt :
    (front : Bytes) (ys : BufferLines) (col n : ℕ)
    → IsAt ys 0 col
    → (ys ≡ [] → front ≡ [])
    → n ≡ length front
    → IsAt (joined front ys col) 0 n
unfolding joined
joined-IsAt front [] col n v h e = (refl, e ∙ ap length (h refl))
joined-IsAt front (y ∷ ys) col n v h e =
    omega (arith, length-append front (drop col y), length-drop col y)

IsAt-drop : (ls : BufferLines) (l col : ℕ) → IsAt ls l col → IsAt (drop l ls) 0 col
IsAt-drop ls zero col v = v
IsAt-drop [] (suc l) col v = (refl, v.1)
IsAt-drop (x ∷ xs) (suc l) col v = IsAt-drop xs l col v

module _ (ls : BufferLines) (b e : BufferCoord) (w : WellFormed ls) (vb : Valid ls b)
    (ve : Valid ls e) (r : IsRange ls b e) where
  in_lines : b.line < length ls
  in_lines = omega (arith, IsAt-cases ls b.line b.column vb, IsAt-cases ls e.line e.column ve)

  differ : (b.line == e.line && b.column == e.column) ≡ false
  differ = ground arith

  length-take_line : b.line ≡ length (take b.line ls)
  length-take_line = omega (arith, length-take b.line ls, in_lines)

  erase_to_end :
      e.line ≡ length ls
      → erase_lines ls b e
        ≡ take b.line ls ++ joined (take b.column (line_at ls b.line)) (drop e.line ls) e.column
  unfolding erase_lines joined
  erase_to_end end =
      let d : drop e.line ls ≡ [] = drop_of_le e.line ls (omega arith) in
      let at_end : (e.line == length ls) ≡ true = (==_iff e.line (length ls)).1 end in
      let front : take b.column (line_at ls b.line) ≡ [] =
        ap (λ n. take n (line_at ls b.line)) (r.1 end) in
      rw (differ, at_end, d, front)

  erase_to_line :
      e.line < length ls
      → e.column < length (line_at ls e.line)
      → erase_lines ls b e
        ≡ take b.line ls ++ joined (take b.column (line_at ls b.line)) (drop e.line ls) e.column
  unfolding erase_lines joined
  erase_to_line lt col =
      let inside : (e.line == length ls) ≡ false = ground arith in
      rw
        (
          differ,
          inside,
          is_empty-drop e.column (line_at ls e.line) col,
          and_false,
          drop_cons ls e.line lt,
        )
        (set-append (take b.line ls) _ (line_at ls e.line) _ b.line length-take_line)

  erase_lines-joined :
      erase_lines ls b e
      ≡ take b.line ls ++ joined (take b.column (line_at ls b.line)) (drop e.line ls) e.column
  erase_lines-joined = elim (IsAt-cases ls e.line e.column ve) [
    | inl (end, z) ↦ erase_to_end end
    | inr (lt, col) ↦ erase_to_line lt col
  ]

  kept_front : Bytes
  kept_front = take b.column (line_at ls b.line)

  column_inside : b.column < length (line_at ls b.line)
  column_inside = omega (arith, IsAt-cases ls b.line b.column vb, in_lines)

  length-kept_front : b.column ≡ length kept_front
  unfolding kept_front
  length-kept_front = omega (arith, length-take b.column (line_at ls b.line), column_inside)

  kept_front_nil : drop e.line ls ≡ [] → kept_front ≡ []
  unfolding kept_front
  kept_front_nil d =
      ap (λ n. take n (line_at ls b.line))
        (r.1 (omega (arith, ap length d, length-drop e.line ls, IsAt-cases ls e.line e.column ve)))

  -- The bytes before `begin` and those from `end` on remain.
  pub text-erase_lines : text (erase_lines ls b e) ≡ text_before ls b ++ text_after ls e
  unfolding kept_front
  text-erase_lines =
      rw
        (
          erase_lines-joined,
          text-append,
          before-take ls b.line b.column,
          after-drop ls e.line e.column,
          append_assoc,
        )
        (ap (text (take b.line ls) ++◌)
          (text-joined kept_front (drop e.line ls) e.column kept_front_nil))

  pub erase_lines-WellFormed : WellFormed (erase_lines ls b e)
  unfolding kept_front
  erase_lines-WellFormed = rw erase_lines-joined (
      All-append IsLine (take b.line ls) (joined kept_front (drop e.line ls) e.column)
        (All-take IsLine b.line ls w)
        (joined-WellFormed kept_front (drop e.line ls) e.column (All-drop IsLine e.line ls w)
          (IsAt-drop ls e.line e.column ve)
          (NoNewline-take b.column (line_at ls b.line) column_inside
            (line_at-IsLine ls b.line in_lines w))))

  pub text_before-erase_lines : text_before (erase_lines ls b e) b ≡ text_before ls b
  unfolding kept_front
  text_before-erase_lines = rw erase_lines-joined (
      before-append (take b.line ls) (joined kept_front (drop e.line ls) e.column) b.line b.column
        length-take_line
      ∙ ap (text (take b.line ls) ++◌) (
          before-joined kept_front (drop e.line ls) e.column b.column kept_front_nil
            length-kept_front)
      ∙ sym (before-take ls b.line b.column))

  pub text_after-erase_lines : text_after (erase_lines ls b e) b ≡ text_after ls e
  text_after-erase_lines = append_cancel (text_before ls b) (
      ap (λ t. t ++ text_after (erase_lines ls b e) b) (sym text_before-erase_lines)
      ∙ before-append-after (erase_lines ls b e) b.line b.column
      ∙ text-erase_lines)

  pub erase_lines-Valid : Valid (erase_lines ls b e) b
  unfolding kept_front
  erase_lines-Valid = rw erase_lines-joined (
      IsAt-append (take b.line ls) (joined kept_front (drop e.line ls) e.column) b.line b.column
        length-take_line
        (joined-IsAt kept_front (drop e.line ls) e.column b.column (IsAt-drop ls e.line e.column ve)
          kept_front_nil length-kept_front))
