-- ===== src/Lines/Navigate/Slice.antt =====
-- Buffer::string (src/buffer.cc): the bytes between two coordinates.
use kakoune.Prelude.{
  ℕ, zero, suc, ◌+◌, ◌-◌, ◌≤◌, ◌<◌, ◌≡◌, refl, sym, ap, ◌∙◌, inl, inr, false, [], ◌∷◌, ◌++◌,
  append-nil, append_assoc, arith, length, take, drop, Bool-cases, ltb, take-append-drop,
  drop_of_le, take-nil,
}
use kakoune.Coord.{BufferCoord, coord_lt}
use kakoune.Lines.{Bytes, BufferLines, line_at, string, string_loop}
use kakoune.Lines.View.{text, before, Valid, text_before, IsAt-cases, before-take, drop_cons}

module _ (b e : BufferCoord) where
  -- Behind the last line of the range the loop has ended.
  string_loop_end : (line : ℕ) (xs : BufferLines) → e.line < line → string_loop b e line xs ≡ []
  unfolding string_loop
  string_loop_end line [] h = refl
  string_loop_end line (x ∷ xs) h = ground arith

  -- In the lines below the first, everything up to `end` is taken.
  string_loop_below :
      (xs : BufferLines) (line j : ℕ)
      → b.line < line
      → e.line ≡ line + j
      → string_loop b e line xs ≡ before xs j e.column
  unfolding string_loop
  string_loop_below [] line j h q = refl
  string_loop_below (x ∷ xs) line zero h q =
      ground (arith, string_loop_end (suc line) xs, append-nil (take e.column x))
  string_loop_below (x ∷ xs) line (suc j) h q = ground (arith, string_loop_below xs (suc line) j)

  string_loop_one :
      (x : Bytes) (xs : BufferLines)
      → b.line ≡ e.line
      → b.column ≤ e.column
      → string_loop b e b.line (x ∷ xs) ≡ take (e.column - b.column) (drop b.column x)
  unfolding string_loop
  string_loop_one x xs h q = ground (
    arith,
    string_loop_end (suc b.line) xs,
    append-nil (take (e.column - b.column) (drop b.column x)),
  )

  string_loop_more :
      (x : Bytes) (xs : BufferLines)
      → b.line < e.line
      → string_loop b e b.line (x ∷ xs)
        ≡ drop b.column x ++ before xs (e.line - suc b.line) e.column
  unfolding string_loop
  string_loop_more x xs h = ground (arith, string_loop_below xs (suc b.line) (e.line - suc b.line))

take_split : (i j : ℕ) (x : Bytes) → i ≤ j → take i x ++ take (j - i) (drop i x) ≡ take j x
take_split zero j x h = ap (λ k. take k x) (let q : j - 0 ≡ j = omega arith in q)
take_split (suc i) zero x h = absurd (omega arith)
take_split (suc i) (suc j) [] h = take-nil (suc j - suc i)
take_split (suc i) (suc j) (c ∷ r) h = ap (c ∷◌) (
    ap (λ k. take i r ++ take k (drop i r)) (let q : suc j - suc i ≡ j - i = omega arith in q)
    ∙ take_split i j r (omega arith))

text-take-suc :
    (ls : BufferLines) (l : ℕ) → text (take (suc l) ls) ≡ text (take l ls) ++ line_at ls l
text-take-suc [] zero = refl
text-take-suc [] (suc l) = refl
text-take-suc (x ∷ xs) zero = append-nil x
text-take-suc (x ∷ xs) (suc l) =
    ap (x ++◌) (text-take-suc xs l) ∙ sym (append_assoc x (text (take l xs)) (line_at xs l))

before_below :
    (ls : BufferLines) (l d j col : ℕ)
    → l ≤ length ls
    → j ≡ l + d
    → before ls j col ≡ text (take l ls) ++ before (drop l ls) d col
before_below ls zero d j col h e = let q : j ≡ d = omega arith in rw q
before_below [] (suc l) d j col h e = absurd (omega arith)
before_below (x ∷ xs) (suc l) d zero col h e = absurd (omega arith)
before_below (x ∷ xs) (suc l) d (suc j) col h e =
    ap (x ++◌) (before_below xs l d j col (omega arith) (omega arith))
    ∙ sym (append_assoc x (text (take l xs)) (before (drop l xs) d col))

module _ (ls : BufferLines) (b e : BufferCoord) (vb : Valid ls b) (ve : Valid ls e) where
  string_same_line :
      b.line ≡ e.line → b.column ≤ e.column → text_before ls b ++ string ls b e ≡ text_before ls e
  unfolding string
  string_same_line h q = elim (IsAt-cases ls b.line b.column vb) [
    | inl (end, z) ↦
        let nothing : drop b.line ls ≡ [] = drop_of_le b.line ls (omega arith) in
        let z' : e.column ≡ b.column = omega (arith, IsAt-cases ls e.line e.column ve) in
        rw (nothing, string_loop, ← h, z') (append-nil (before ls b.line b.column))
    | inr (lt, col) ↦
        rw
          (
            drop_cons ls b.line lt,
            string_loop_one b e (line_at ls b.line) (drop (suc b.line) ls) h q,
            before-take ls b.line b.column,
            before-take ls e.line e.column,
            ← h,
          )
          (append_assoc (text (take b.line ls)) (take b.column (line_at ls b.line)) _
            ∙ ap (text (take b.line ls) ++◌) (take_split b.column e.column (line_at ls b.line) q))
  ]

  string_more_lines : b.line < e.line → text_before ls b ++ string ls b e ≡ text_before ls e
  unfolding string
  string_more_lines h =
      rw
        (
          drop_cons ls b.line in_lines,
          string_loop_more b e (line_at ls b.line) (drop (suc b.line) ls) h,
          before_below ls (suc b.line) (e.line - suc b.line) e.line e.column in_lines (omega arith),
          text-take-suc,
          before-take ls b.line b.column,
        )
        (simp append_assoc (
          ap (text (take b.line ls) ++◌) (
            sym (append_assoc (take b.column line) (drop b.column line) below)
            ∙ ap (λ t. t ++ below) (take-append-drop b.column line))))
    where
      line : Bytes
      line = line_at ls b.line

      below : Bytes
      below = before (drop (suc b.line) ls) (e.line - suc b.line) e.column

      in_lines : b.line < length ls
      in_lines = omega (arith, IsAt-cases ls e.line e.column ve)

  -- Between valid coordinates in order, `string` gives exactly the bytes between them: appended to
  -- what stands before the first it is what stands before the second.
  pub before-append-string :
      coord_lt e b ≡ false → text_before ls b ++ string ls b e ≡ text_before ls e
  unfolding coord_lt
  before-append-string h = elim (Bool-cases (ltb b.line e.line)) [
    | inl t ↦ string_more_lines (ground arith)
    | inr t ↦ string_same_line (ground arith) (ground arith)
  ]
