-- ===== src/Lines/Insert/Laws.antt =====
-- Buffer::do_insert (src/buffer.cc) on well-formed lines: what it does to the text, and that the
-- lines stay well-formed.
use kakoune.Prelude.{
  ℕ, zero, suc, ◌+◌, ◌-◌, ◌<◌, ◌≡◌, ◌≢◌, refl, sym, ap, subst, ◌∙◌, inl, inr, true, false, [], ◌∷◌,
  ◌++◌, append-nil, append_assoc, arith, ◌==◌, length, is_empty, take, drop, ==_iff, get_or,
  take-length, drop-length, append_cancel, length-take, length-drop,
}
use kakoune.Coord.{BufferCoord, coord_lt, coord_eq}
use kakoune.Lines.{
  Bytes, BufferLines, newline, back, line_at, cut_lines, is_end, byte_at, back_coord, appends_lines,
  insert_prefix, insert_suffix, new_lines, insert_lines,
}
use kakoune.Lines.View.{
  text, text-append, before, after, IsAt, Valid, text_before, text_after, IsAt-cases, before-end,
  after-end, before-append-after,
}
use kakoune.Lines.WellFormed.{
  IsLine, WellFormed, All-append, NoNewline-take, IsLine-drop, line_at-IsLine, length-line-pos,
}
use kakoune.Lines.Insert.Cut.{
  text-cut_lines, cut_lines-WellFormed, cut_lines-WellFormed_nil, before-cut_lines, cut_lines-IsAt,
  cut_lines-nonempty, cut_lines-EndsAt, EndsAt,
}

pub is_end-Valid :
    (ls : BufferLines) (c : BufferCoord) → Valid ls c → is_end ls c ≡ (c.line == length ls)
unfolding is_end coord_lt coord_eq
is_end-Valid ls c h = ground (arith, IsAt-cases ls c.line c.column h)

get_or-line : (x : Bytes) (k : ℕ) → IsLine x → suc k ≡ length x → get_or x k 0 ≡ newline
get_or-line [] k h e = absurd h
get_or-line (c ∷ []) zero h e = h
get_or-line (c ∷ []) (suc k) h e = absurd (omega arith)
get_or-line (c ∷ d ∷ r) zero h e = absurd (omega arith)
get_or-line (c ∷ d ∷ r) (suc k) h e = get_or-line (d ∷ r) k h.1 (omega arith)

back_byte :
    (ls : BufferLines) → WellFormed ls → is_empty ls ≡ false → byte_at ls (back_coord ls) ≡ newline
unfolding byte_at back_coord
back_byte [] w h = cc
back_byte (x ∷ xs) w h =
    let last : ℕ = length (x ∷ xs) - 1 in
    let is_line = line_at-IsLine (x ∷ xs) last (omega arith) w in
    get_or-line (line_at (x ∷ xs) last) (length (line_at (x ∷ xs) last) - 1) is_line
      (omega (arith, length-line-pos (line_at (x ∷ xs) last) is_line))

pub appends_lines-Valid :
    (ls : BufferLines) (c : BufferCoord)
    → WellFormed ls
    → Valid ls c
    → appends_lines ls c ≡ (c.line == length ls)
unfolding appends_lines
appends_lines-Valid ls c w h = ground (arith, is_end-Valid ls c h, back_byte ls w)

-- Inside a line the line is cut in two, and the content comes between.
pub insert_lines_mid :
    (ls : BufferLines) (c : BufferCoord) (content : Bytes)
    → WellFormed ls
    → Valid ls c
    → c.line < length ls
    → content ≢ []
    → insert_lines ls c content
      ≡ take c.line ls
        ++ (cut_lines true
              (take c.column (line_at ls c.line))
              (drop c.column (line_at ls c.line))
              []
              content
            ++ drop (suc c.line) ls)
unfolding insert_lines new_lines insert_prefix insert_suffix
insert_lines_mid ls c [] w h lt ne = absurd (ne refl)
insert_lines_mid ls c (b ∷ content) w h lt ne =
    let n : (c.line == length ls) ≡ false = ground arith in
    rw (appends_lines-Valid ls c w h, is_end-Valid ls c h, n)

-- At the end new lines are appended.
pub insert_lines_end :
    (ls : BufferLines) (c : BufferCoord) (content : Bytes)
    → WellFormed ls
    → Valid ls c
    → c.line ≡ length ls
    → content ≢ []
    → insert_lines ls c content ≡ ls ++ cut_lines true [] [] [] content
unfolding insert_lines new_lines insert_prefix insert_suffix
insert_lines_end ls c [] w h e ne = absurd (ne refl)
insert_lines_end ls c (b ∷ content) w h e ne =
    let n : (c.line == length ls) ≡ true = (==_iff c.line (length ls)).1 e in
    rw (appends_lines-Valid ls c w h, is_end-Valid ls c h, n)
      (rw (e, take-length ls, drop-length ls) (simp append-nil))

-- The same on the list of lines alone, for the induction over the lines before the position.
abbrev pub put_mid : BufferLines → ℕ → ℕ → Bytes → BufferLines
put_mid ls l col content =
    take l ls
    ++ (cut_lines true (take col (line_at ls l)) (drop col (line_at ls l)) [] content
        ++ drop (suc l) ls)

pub IsAt-column :
    (ls : BufferLines) (l col : ℕ) → l < length ls → IsAt ls l col → col < length (line_at ls l)
IsAt-column ls l col h v = omega (arith, IsAt-cases ls l col v)

length-take_of_le : (n : ℕ) (x : Bytes) → n < length x → length (take n x) ≡ n
length-take_of_le n x h = omega (arith, length-take n x)

pub length-drop_pos : (n : ℕ) (x : Bytes) → n < length x → 0 < length (drop n x)
length-drop_pos n x h = omega (arith, length-drop n x)

module _ (content : Bytes) where
  text-put_mid :
      (ls : BufferLines) (l col : ℕ)
      → l < length ls
      → text (put_mid ls l col content) ≡ before ls l col ++ (content ++ after ls l col)
  text-put_mid [] l col h = absurd (omega arith)
  text-put_mid (x ∷ xs) zero col h =
      text-append (cut_lines true (take col x) (drop col x) [] content) xs
      ∙ simp (text-cut_lines (take col x) (drop col x) true [] content, append_assoc)
  text-put_mid (x ∷ xs) (suc l) col h =
      ap (x ++◌) (text-put_mid xs l col (omega arith)) ∙ simp append_assoc

  put_mid-WellFormed :
      (ls : BufferLines) (l col : ℕ)
      → WellFormed ls
      → l < length ls
      → IsAt ls l col
      → WellFormed (put_mid ls l col content)
  put_mid-WellFormed [] l col w h v = absurd (omega arith)
  put_mid-WellFormed (x ∷ xs) zero col w h v =
      All-append IsLine (cut_lines true (take col x) (drop col x) [] content) xs
        (cut_lines-WellFormed (take col x) (drop col x) true [] content (NoNewline-take col x v w.0)
          tt (IsLine-drop col x v w.0))
        w.1
  put_mid-WellFormed (x ∷ xs) (suc l) col w h v =
      (w.0, put_mid-WellFormed xs l col w.1 (omega arith) v)

  before-put_mid :
      (ls : BufferLines) (l col : ℕ)
      → l < length ls
      → IsAt ls l col
      → before (put_mid ls l col content) l col ≡ before ls l col
  before-put_mid [] l col h v = absurd (omega arith)
  before-put_mid (x ∷ xs) zero col h v =
      subst
        (λ k. before (cut_lines true (take col x) (drop col x) [] content ++ xs) 0 k ≡ take col x)
        (length-take_of_le col x v) (before-cut_lines (take col x) (drop col x) [] content xs)
  before-put_mid (x ∷ xs) (suc l) col h v = ap (x ++◌) (before-put_mid xs l col (omega arith) v)

  put_mid-IsAt :
      (ls : BufferLines) (l col : ℕ)
      → l < length ls
      → IsAt ls l col
      → IsAt (put_mid ls l col content) l col
  put_mid-IsAt [] l col h v = absurd (omega arith)
  put_mid-IsAt (x ∷ xs) zero col h v =
      subst (λ k. IsAt (cut_lines true (take col x) (drop col x) [] content ++ xs) 0 k)
        (length-take_of_le col x v)
        (cut_lines-IsAt (take col x) (drop col x) [] content xs (length-drop_pos col x v))
  put_mid-IsAt (x ∷ xs) (suc l) col h v = put_mid-IsAt xs l col (omega arith) v

  pub put_mid-EndsAt :
      (ls : BufferLines) (l col j : ℕ)
      → l < length ls
      → IsAt ls l col
      → suc j
        ≡ l + length (cut_lines true (take col (line_at ls l)) (drop col (line_at ls l)) [] content)
      → EndsAt (drop col (line_at ls l)) (put_mid ls l col content) j (before ls l col ++ content)
  put_mid-EndsAt [] l col j h v e = absurd (omega arith)
  put_mid-EndsAt (x ∷ xs) zero col j h v e =
      cut_lines-EndsAt (take col x) (drop col x) true [] content xs j (length-drop_pos col x v)
        (omega arith)
  put_mid-EndsAt (x ∷ xs) (suc l) col zero h v e =
      let line = line_at xs l in
      absurd (
        omega (
          arith,
          cut_lines-nonempty (take col line) (drop col line) true [] content
              (length-drop_pos col line (IsAt-column xs l col (omega arith) v)),
        ))
  put_mid-EndsAt (x ∷ xs) (suc l) col (suc j) h v e =
      let ih = put_mid-EndsAt xs l col j (omega arith) v (omega arith) in
      (ap (x ++◌) ih.0 ∙ sym (append_assoc x (before xs l col) content), ih.1)

-- At the end.
pub before-append : (xs ys : BufferLines) → before (xs ++ ys) (length xs) 0 ≡ text xs
before-append [] [] = refl
before-append [] (y ∷ ys) = refl
before-append (x ∷ xs) ys = ap (x ++◌) (before-append xs ys)

IsAt-append : (xs ys : BufferLines) → WellFormed ys → IsAt (xs ++ ys) (length xs) 0
IsAt-append [] [] w = (refl, refl)
IsAt-append [] (y ∷ ys) w = length-line-pos y w.0
IsAt-append (x ∷ xs) ys w = IsAt-append xs ys w

module _ (ls : BufferLines) (c : BufferCoord) (content : Bytes) (w : WellFormed ls) (v : Valid ls c)
    (ne : content ≢ []) where
  -- The content comes in at the position, and all other bytes stay.
  pub text-insert_lines :
      text (insert_lines ls c content) ≡ text_before ls c ++ (content ++ text_after ls c)
  text-insert_lines = elim (IsAt-cases ls c.line c.column v) [
    | inl (e, z) ↦
        rw (insert_lines_end ls c content w v e ne, e, before-end, after-end, text-append)
          (simp (text-cut_lines [] [] true [] content))
    | inr (lt, _) ↦
        rw (insert_lines_mid ls c content w v lt ne) (text-put_mid content ls c.line c.column lt)
  ]

  pub text_before-insert_lines : text_before (insert_lines ls c content) c ≡ text_before ls c
  text_before-insert_lines = elim (IsAt-cases ls c.line c.column v) [
    | inl (e, z) ↦
        rw (insert_lines_end ls c content w v e ne, e, z, before-end)
          (before-append ls (cut_lines true [] [] [] content))
    | inr (lt, _) ↦
        rw (insert_lines_mid ls c content w v lt ne)
          (before-put_mid content ls c.line c.column lt v)
  ]

  pub text_after-insert_lines :
      text_after (insert_lines ls c content) c ≡ content ++ text_after ls c
  text_after-insert_lines = append_cancel (text_before ls c) (
      ap (λ t. t ++ text_after (insert_lines ls c content) c) (sym text_before-insert_lines)
      ∙ before-append-after (insert_lines ls c content) c.line c.column
      ∙ text-insert_lines)

  module _ (eol : c.line ≡ length ls → back content ≡ newline) where
    pub insert_lines-WellFormed : WellFormed (insert_lines ls c content)
    insert_lines-WellFormed = elim (IsAt-cases ls c.line c.column v) [
      | inl (e, z) ↦ rw (insert_lines_end ls c content w v e ne) (
          All-append IsLine ls (cut_lines true [] [] [] content) w
            (cut_lines-WellFormed_nil [] true [] content tt tt ne (eol e)))
      | inr (lt, _) ↦
          rw (insert_lines_mid ls c content w v lt ne)
            (put_mid-WellFormed content ls c.line c.column w lt v)
    ]

    pub insert_lines-Valid : Valid (insert_lines ls c content) c
    insert_lines-Valid = elim (IsAt-cases ls c.line c.column v) [
      | inl (e, z) ↦
          rw (insert_lines_end ls c content w v e ne, e, z)
            (IsAt-append ls (cut_lines true [] [] [] content)
              (cut_lines-WellFormed_nil [] true [] content tt tt ne (eol e)))
      | inr (lt, _) ↦
          rw (insert_lines_mid ls c content w v lt ne)
            (put_mid-IsAt content ls c.line c.column lt v)
    ]
