-- ===== src/Lines/Insert/Range.antt =====
-- The range that Buffer::do_insert (src/buffer.cc) returns: it spans the inserted content.
use kakoune.Prelude.{
  ◌+◌, ◌-◌, ◌<◌, ◌≡◌, ◌≢◌, refl, ap, ◌∙◌, inl, inr, true, false, [], ◌∷◌, ◌++◌, append-nil, arith,
  ◌==◌, length, take, drop, ==_iff,
}
use kakoune.Coord.{BufferCoord, coord}
use kakoune.Lines.{
  Bytes, BufferLines, line_at, cut_lines, insert_prefix, insert_suffix, new_lines, insert_lines,
  insert_end,
}
use kakoune.Lines.View.{after, Valid, text_before, IsAt-cases, IsAt-end, before-end, after-end}
use kakoune.Lines.WellFormed.{WellFormed}
use kakoune.Lines.Insert.Cut.{cut_lines-nonempty}
use kakoune.Lines.Insert.Laws.{
  is_end-Valid, insert_lines_mid, put_mid, put_mid-EndsAt, text-insert_lines, length-drop_pos,
}

insert_end_end :
    (ls : BufferLines) (c : BufferCoord) (content : Bytes)
    → Valid ls c
    → c.line ≡ length ls
    → content ≢ []
    → insert_end ls c content ≡ coord (length (insert_lines ls c content)) 0
unfolding insert_end
insert_end_end ls c [] v e ne = absurd (ne refl)
insert_end_end ls c (b ∷ r) v e ne = rw (is_end-Valid ls c v, (==_iff c.line (length ls)).1 e)

insert_end_mid :
    (ls : BufferLines) (c : BufferCoord) (content : Bytes)
    → WellFormed ls
    → Valid ls c
    → c.line < length ls
    → content ≢ []
    → let line = line_at ls c.line in
      let cut = cut_lines true (take c.column line) (drop c.column line) [] content in
      let ls' = put_mid ls c.line c.column content in
      let last_line = c.line + length cut - 1 in
      insert_end ls c content
      ≡ coord last_line (length (line_at ls' last_line) - length (drop c.column line))
unfolding insert_end insert_suffix insert_prefix new_lines
insert_end_mid ls c [] w v lt ne = absurd (ne refl)
insert_end_mid ls c (b ∷ r) w v lt ne =
    let n : (c.line == length ls) ≡ false = ground arith in
    rw (insert_lines_mid ls c (b ∷ r) w v lt ne, is_end-Valid ls c v, n)

-- In well-formed lines, for a valid position and content that is not empty, the end that do_insert
-- returns is valid in the new lines, and what stands before it is what stood before the position,
-- and the content.
pub insert_end_lem :
    (ls : BufferLines) (c : BufferCoord) (content : Bytes)
    → WellFormed ls
    → Valid ls c
    → content ≢ []
    → (text_before (insert_lines ls c content) (insert_end ls c content)
        ≡ text_before ls c ++ content)
      × Valid (insert_lines ls c content) (insert_end ls c content)
insert_end_lem ls c content w v ne = elim (IsAt-cases ls c.line c.column v) [
  | inl (e, z) ↦ rw (insert_end_end ls c content v e ne) (
    before-end (insert_lines ls c content) 0
        ∙ text-insert_lines ls c content w v ne
        ∙ ap (λ t. text_before ls c ++ (content ++ t))
            (ap (λ l. after ls l c.column) e ∙ after-end ls c.column)
        ∙ ap (text_before ls c ++◌) (append-nil content),
    IsAt-end (insert_lines ls c content),
  )
  | inr (lt, in_line) ↦
      let line = line_at ls c.line in
      let cut = cut_lines true (take c.column line) (drop c.column line) [] content in
      rw (insert_end_mid ls c content w v lt ne, insert_lines_mid ls c content w v lt ne)
        (put_mid-EndsAt content ls c.line c.column (c.line + length cut - 1) lt v (
          omega (
            arith,
            cut_lines-nonempty (take c.column line) (drop c.column line) true [] content
                (length-drop_pos c.column line in_line),
          )))
]
