-- ===== src/Buffer/Text.antt =====
-- Buffer::insert, erase and replace (src/buffer.cc) as operations on the text.
use kakoune.Prelude.{
  ◌<◌, ◌≡◌, ◌≢◌, refl, sym, ap, ◌∙◌, inl, inr, true, false, [], ◌∷◌, ◌++◌, arith, Bool-cases,
  length, if◌then◌else◌, length-append,
}
use kakoune.Coord.{BufferCoord, coord_le, coord_le_differ}
use kakoune.Lines.{Bytes, BufferLines, insert_lines, insert_end, erase_lines, string}
use kakoune.Lines.View.{text, Valid, text_before, text_after, before-append-after}
use kakoune.Lines.WellFormed.{WellFormed}
use kakoune.Lines.Insert.Laws.{text-insert_lines, insert_lines-WellFormed}
use kakoune.Lines.Insert.Range.{insert_end_lem}
use kakoune.Lines.Erase.{text-erase_lines, erase_lines-WellFormed}
use kakoune.Modification.{inserts, erases}
use kakoune.Buffer.{
  Buffer, ok, record_modification, real_content, insert, erase, erase_end, push_change,
}
use kakoune.Buffer.Fields.{do_insert_some, do_erase_some, with_lines, throw_if_writable}
use kakoune.Buffer.Edit.{
  real_content-ne-nil, real_content_eol, erase_end_lem, removal-IsRange, erase_leaves_text,
}

-- The buffer after an insertion, and after an erasure.
abbrev pub inserted_buffer : Buffer → BufferCoord → Bytes → Buffer
inserted_buffer b c content =
    let real = real_content b.lines c content in
    with_lines (record_modification inserts c real b) (insert_lines b.lines c real)
      (push_change inserts c (insert_end b.lines c real) b.changes)

pub insert_result :
    (b : Buffer) (c : BufferCoord) (content : Bytes)
    → b.is_read_only ≡ false
    → content ≢ []
    → insert b c content
      ≡ ok (inserted_buffer b c content, (c, insert_end b.lines c (real_content b.lines c content)))
unfolding insert
insert_result b c [] h ne = absurd (ne refl)
insert_result b c (x ∷ r) h ne =
    throw_if_writable b _ h
    ∙ ap ok (
        do_insert_some (record_modification inserts c (real_content b.lines c (x ∷ r)) b) c
          (real_content b.lines c (x ∷ r)) (real_content-ne-nil b.lines c (x ∷ r) ne))

abbrev pub erased_buffer : Buffer → BufferCoord → BufferCoord → Buffer
erased_buffer b begin end =
    with_lines (record_modification erases begin (string b.lines begin end) b)
      (erase_lines b.lines begin end) (push_change erases begin end b.changes)

pub erase_result :
    (b : Buffer) (begin end : BufferCoord)
    → b.is_read_only ≡ false
    → let e = erase_end b.lines begin end in
      coord_le e begin ≡ false → erase b begin end ≡ ok (erased_buffer b begin e, begin)
unfolding erase
erase_result b begin end h t =
    let e = erase_end b.lines begin end in
    throw_if_writable b _ h
    ∙ rw t (
        ap ok (
          do_erase_some (record_modification erases begin (string b.lines begin e) b) begin e
            (coord_le_differ e begin t)))

pub erase_nothing :
    (b : Buffer) (begin end : BufferCoord)
    → b.is_read_only ≡ false
    → coord_le (erase_end b.lines begin end) begin ≡ true
    → erase b begin end ≡ ok (b, begin)
unfolding erase
erase_nothing b begin end h t = throw_if_writable b _ h ∙ rw t

pub some_line : (ls : BufferLines) → 0 < length (text ls) → 0 < length ls
some_line [] h = h
some_line (x ∷ xs) h = omega arith

-- What stands behind the erased range: nothing is erased where the range is empty.
abbrev pub later_of : BufferCoord → BufferCoord → BufferCoord
later_of begin end = if coord_le end begin then begin else end

-- On a buffer with well-formed lines that may be written, at a valid position, `insert` of
-- content that is not empty succeeds and returns the position with the end of the inserted bytes:
-- the text becomes what stood before the position, the content (with a newline added at the end
-- of the buffer where it has none) and what stood after it; the returned end is valid and stands
-- right behind the content, and the lines stay well-formed.
pub insert-text :
    (b : Buffer) (c : BufferCoord) (content : Bytes)
    → WellFormed b.lines
    → Valid b.lines c
    → b.is_read_only ≡ false
    → content ≢ []
    → let real = real_content b.lines c content in
      (b' : Buffer) × (e : BufferCoord) × (insert b c content ≡ ok (b', (c, e)))
      × (text b'.lines ≡ text_before b.lines c ++ (real ++ text_after b.lines c))
      × (text_before b'.lines e ≡ text_before b.lines c ++ real)
      × Valid b'.lines e
      × WellFormed b'.lines
insert-text b c content w v h ne =
    let real = real_content b.lines c content in
    let some_real = real_content-ne-nil b.lines c content ne in
    let (before_end, end_valid) = insert_end_lem b.lines c real w v some_real in
    (
      inserted_buffer b c content,
      insert_end b.lines c real,
      insert_result b c content h ne,
      text-insert_lines b.lines c real w v some_real,
      before_end,
      end_valid,
      insert_lines-WellFormed b.lines c real w v some_real (real_content_eol b.lines c content v),
    )

-- On a buffer with well-formed lines, at least one, that may be written, for valid coordinates,
-- `erase` succeeds and returns `begin`: the text becomes what stood before `begin` and what
-- stands from the adjusted end on (or stays, where that end is not behind `begin`); the lines
-- stay well-formed, and some remain.
pub erase-text :
    (b : Buffer) (begin end : BufferCoord)
    → WellFormed b.lines
    → 0 < length b.lines
    → Valid b.lines begin
    → Valid b.lines end
    → b.is_read_only ≡ false
    → let e = later_of begin (erase_end b.lines begin end) in
      (b' : Buffer) × (erase b begin end ≡ ok (b', begin))
      × (text b'.lines ≡ text_before b.lines begin ++ text_after b.lines e)
      × WellFormed b'.lines
      × (0 < length b'.lines)
erase-text b begin end w ne vb ve h =
    elim (Bool-cases (coord_le (erase_end b.lines begin end) begin)) [
      | inl t ↦ (
        b,
        erase_nothing b begin end h t,
        rw t (sym (before-append-after b.lines begin.line begin.column)),
        w,
        ne,
      )
      | inr t ↦
          let e = erase_end b.lines begin end in
          let (ve', _) = erase_end_lem b.lines begin end w vb ve ne in
          let range = removal-IsRange b.lines begin end w vb ve ne t in
          let remains = text-erase_lines b.lines begin e w vb ve' range in
          (
            erased_buffer b begin e,
            erase_result b begin end h t,
            rw t remains,
            erase_lines-WellFormed b.lines begin e w vb ve' range,
            some_line (erase_lines b.lines begin e) (
                omega (
                  arith,
                  ap length remains,
                  length-append (text_before b.lines begin) (text_after b.lines e),
                  erase_leaves_text b.lines begin end w vb ve ne t,
                )),
          )
    ]
