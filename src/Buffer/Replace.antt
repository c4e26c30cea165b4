-- ===== src/Buffer/Replace.antt =====
-- Buffer::replace (src/buffer.cc) puts the content in place of the range.
use kakoune.Prelude.{
  suc, ◌-◌, ◌<◌, ◌≡◌, ◌≢◌, refl, sym, ap, subst, ◌∙◌, inl, inr, true, false, not, ◌&&◌, [], ◌∷◌,
  ◌++◌, arith, Bool-cases, length, take, is_empty, ◌==◌, append-nil, ==_iff, append_assoc,
}
use kakoune.Prelude.Bytes.{bytes_equal, bytes_equal_lem}
use kakoune.Coord.{BufferCoord, coord_lt}
use kakoune.Lines.{
  Bytes, BufferLines, newline, back, line_at, back_coord, end_coord, is_end, string,
}
use kakoune.Lines.View.{
  text, after, Valid, text_before, text_after, before-append-after, after-end, IsAt-cases,
}
use kakoune.Lines.WellFormed.{WellFormed, length-line-pos, line_at-IsLine}
use kakoune.Lines.Navigate.Advance.{IsAt-line}
use kakoune.Lines.Navigate.Slice.{before-append-string}
use kakoune.Lines.Insert.Laws.{is_end-Valid}
use kakoune.Buffer.{
  Buffer, Result, ok, err, ◌>>=◌, insert, erase, erase_end, replace, replace_to_end,
}
use kakoune.Buffer.Fields.{throw_if_writable}
use kakoune.Buffer.Text.{later_of}
use kakoune.Buffer.Around.{
  erase-Erased, last_after, without_last, insert_inside, later_end, stands_inside,
}

module _ (b : Buffer) (begin end : BufferCoord) (content : Bytes) (w : WellFormed b.lines)
    (ne : 0 < length b.lines) (vb : Valid b.lines begin) (ve : Valid b.lines end)
    (h : b.is_read_only ≡ false) (order : coord_lt end begin ≡ false) where
  abbrev replaced : Bytes
  replaced = text_before b.lines begin ++ (content ++ text_after b.lines end)

  -- The bytes that stand there already are not replaced.
  replace-same : bytes_equal (string b.lines begin end) content ≡ true → text b.lines ≡ replaced
  replace-same e =
      sym (before-append-after b.lines end.line end.column)
      ∙ ap (λ t. t ++ text_after b.lines end)
          (sym (before-append-string b.lines begin end vb ve order))
      ∙ append_assoc (text_before b.lines begin) (string b.lines begin end) (text_after b.lines end)
      ∙ ap (λ s. text_before b.lines begin ++ (s ++ text_after b.lines end))
          (bytes_equal_lem (string b.lines begin end) content e)

  -- Erasing and then inserting, where the range does not reach the end of the buffer.
  erase-insert_inside :
      is_end b.lines end ≡ false
      → (b' : Buffer) × (range : BufferCoord × BufferCoord) × ((erase b begin end >>= λ r.
            insert r.0 r.1 content)
          ≡ ok (b', range))
        × (text b'.lines ≡ replaced)
  unfolding erase_end
  erase-insert_inside inside =
      let (b1, q, r) = erase-Erased b begin end w ne vb ve h in
      let rest : text_after b1.lines begin ≡ text_after b.lines end =
        r.rest_after
        ∙ ap (λ e. text_after b.lines (later_of begin e)) (rw inside)
        ∙ ap (text_after b.lines) (later_end begin end order) in
      let (b2, range, q', t) =
        insert_inside b1 begin content r.well_formed r.valid r.writable
          (λ q. stands_inside b.lines end w ve inside (sym rest ∙ q)) in
      (
        b2,
        range,
        ap (λ x. x >>= λ r. insert r.0 r.1 content) q ∙ q',
        t
            ∙ ap (λ u. u ++ (content ++ text_after b1.lines begin)) r.same_before
            ∙ ap (λ u. text_before b.lines begin ++ (content ++ u)) rest,
      )

-- The last position of lines that are not empty.
module _ (ls : BufferLines) (w : WellFormed ls) (ne : 0 < length ls) where
  back_coord_line : suc (length ls - 1) ≡ length ls
  back_coord_line = omega arith

  back_coord_column :
      suc (length (line_at ls (length ls - 1)) - 1) ≡ length (line_at ls (length ls - 1))
  back_coord_column =
      omega (arith, length-line-pos _ (line_at-IsLine ls (length ls - 1) (omega arith) w))

  back_coord-Valid : Valid ls (back_coord ls)
  unfolding back_coord
  back_coord-Valid = IsAt-line ls _ _ (omega (arith, back_coord_column))

  back_coord_inside : is_end ls (back_coord ls) ≡ false
  unfolding back_coord
  back_coord_inside = is_end-Valid ls (back_coord ls) back_coord-Valid ∙ ground arith

  back_coord_after : text_after ls (back_coord ls) ≡ newline ∷ []
  unfolding back_coord
  back_coord_after = last_after ls _ _ w back_coord_line back_coord_column

  not_behind_back :
      (c : BufferCoord) → Valid ls c → c.line < length ls → coord_lt (back_coord ls) c ≡ false
  unfolding back_coord coord_lt
  not_behind_back c v lt = elim (IsAt-cases ls c.line c.column v) [
    | inl (e, _) ↦ absurd (omega arith)
    | inr (_, in_line) ↦ elim (Bool-cases (c.line == length ls - 1)) [
      | inl e ↦
          let at : c.line ≡ length ls - 1 = ground arith in
          let bound : c.column < length (line_at ls (length ls - 1)) =
            subst (λ l. c.column < length (line_at ls l)) at in_line in
          ground arith
      | inr e ↦ ground arith
    ]
  ]

eol_test :
    (content : Bytes)
    → content ≢ []
    → back content ≡ newline
    → (not (is_empty content) && back content == newline) ≡ true
eol_test [] ne e = absurd (ne refl)
eol_test (x ∷ r) ne e = (==_iff (back (x ∷ r)) newline).1 e

bind_assoc {ℓ} :
    {A B C : Type ℓ} (m : Result A) (f : A → Result B) (g : B → Result C)
    → (m >>= λ x. (f x >>= g)) ≡ ((m >>= f) >>= g)
bind_assoc (ok a) f g = refl
bind_assoc (err e) f g = refl

after_at_end :
    (ls : BufferLines) (c : BufferCoord) → Valid ls c → is_end ls c ≡ true → text_after ls c ≡ []
after_at_end ls c v e =
    let at : c.line ≡ length ls = (==_iff c.line (length ls)).0 (sym (is_end-Valid ls c v) ∙ e) in
    ap (λ l. after ls l c.column) at ∙ after-end ls c.column

-- On a writable buffer with well-formed lines, not empty, for valid coordinates in order, where the
-- range does not reach the end of the buffer, or begins in a line and the content ends in a newline,
-- `replace` succeeds, and the text becomes what stood before the range, the content, and what stood
-- after the range.
pub replace_lem :
    (b : Buffer) (begin end : BufferCoord) (content : Bytes)
    → WellFormed b.lines
    → 0 < length b.lines
    → Valid b.lines begin
    → Valid b.lines end
    → b.is_read_only ≡ false
    → coord_lt end begin ≡ false
    → (is_end b.lines end ≡ true
        → (content ≢ []) × (back content ≡ newline) × (begin.line < length b.lines))
    → (b' : Buffer) × (range : BufferCoord × BufferCoord) × (replace b begin end content
        ≡ ok (b', range))
      × (text b'.lines ≡ text_before b.lines begin ++ (content ++ text_after b.lines end))
unfolding replace replace_to_end
replace_lem b begin end content w ne vb ve h order whole =
    elim (Bool-cases (bytes_equal (string b.lines begin end) content)) [
      | inl e ↦ (
        b,
        (begin, end),
        throw_if_writable b _ h ∙ rw e,
        replace-same b begin end content w ne vb ve h order e,
      )
      | inr e ↦ elim (Bool-cases (is_end b.lines end)) [
        | inr inside ↦
            let (b', range, q, t) =
              erase-insert_inside b begin end content w ne vb ve h order inside in
            (b', range, throw_if_writable b _ h ∙ rw (e, inside) q, t)
        | inl at_end ↦
            let (cne, eol, lt) = whole at_end in
            let cut = take (length content - 1) content in
            let last = back_coord b.lines in
            let f : Buffer × BufferCoord → Result (Buffer × (BufferCoord × BufferCoord)) =
              λ x. insert x.0 x.1 cut in
            let g : Buffer × (BufferCoord × BufferCoord)
                → Result (Buffer × (BufferCoord × BufferCoord)) =
              λ x. ok (x.0, (x.1.0, end_coord x.0.lines)) in
            let (b', range, q, t) =
              erase-insert_inside b begin last cut w ne vb (back_coord-Valid b.lines w ne) h
                (not_behind_back b.lines w ne begin vb lt) (back_coord_inside b.lines w ne) in
            (
              b',
              (range.0, end_coord b'.lines),
              throw_if_writable b _ h
                  ∙ rw (e, at_end, eol_test content cne eol)
                      (bind_assoc (erase b begin last) f g ∙ ap (λ x. x >>= g) q),
              t
                  ∙ ap (λ u. text_before b.lines begin ++ (cut ++ u))
                      (back_coord_after b.lines w ne)
                  ∙ ap (text_before b.lines begin ++◌) (
                      without_last content cne eol
                      ∙ sym (append-nil content)
                      ∙ ap (content ++◌) (sym (after_at_end b.lines end ve at_end))),
            )
      ]
    ]
