-- ===== src/Buffer/Edit.antt =====
-- Buffer::insert and Buffer::erase (src/buffer.cc): what they do to the text, and the modification
-- that they record.
use kakoune.Prelude.{
  ◌+◌, true, ◌<◌, ◌≡◌, ◌≢◌, refl, sym, ap, ◌∙◌, inl, inr, false, not, ◌||◌, [], ◌∷◌, ◌++◌, arith,
  Bool-cases, length, take, ◌==◌, append-nil, ==_iff, append_cancel, append_assoc, length-append,
  take-length_append,
}
use kakoune.Coord.{coord_lt, BufferCoord, coord, coord_eq, coord_le, coord_le-false}
use kakoune.Lines.{Bytes, BufferLines, newline, back, string, is_end, end_coord, prev}
use kakoune.Lines.View.{
  IsAt-cases, text, Valid, text_before, text_after, IsAt-end, before, before-end,
  before-append-after,
}
use kakoune.Lines.WellFormed.{after-ne-nil, WellFormed, length-line-pos, back-append}
use kakoune.Lines.Insert.Laws.{is_end-Valid}
use kakoune.Lines.Erase.{IsRange}
use kakoune.Lines.Navigate.Offset.{offset, offset_unique, offset_lt}
use kakoune.Lines.Navigate.Advance.{advance_pos, origin-Valid}
use kakoune.Lines.Navigate.Distance.{prev_lem}
use kakoune.Lines.Navigate.Slice.{before-append-string}
use kakoune.Modification.{Modification, inserts, erases, Fits, modification_end}
use kakoune.Modification.Laws.{range_of_offset, end_of_nil, length_pos}
use kakoune.Buffer.{real_content, erase_end}

-- The content that is inserted, with the newline that it may lack at the end of the buffer.
pub real_content-ne-nil :
    (ls : BufferLines) (c : BufferCoord) (content : Bytes)
    → content ≢ []
    → real_content ls c content ≢ []
real_content-ne-nil ls c [] ne = absurd (ne refl)
real_content-ne-nil ls c (x ∷ r) ne = ground arith

pub real_content_eol :
    (ls : BufferLines) (c : BufferCoord) (content : Bytes)
    → Valid ls c
    → c.line ≡ length ls
    → back (real_content ls c content) ≡ newline
real_content_eol ls c content v e =
    ground (arith, is_end-Valid ls c v, (back-append content (newline ∷ []) (λ q. cc)))

abbrev pub insertion : BufferLines → BufferCoord → Bytes → Modification
insertion ls c content = record { type = inserts; coord = c; content = real_content ls c content }

pub insertion-Fits :
    (ls : BufferLines) (c : BufferCoord) (content : Bytes)
    → Valid ls c
    → content ≢ []
    → Fits (insertion ls c content) ls
insertion-Fits ls c content v ne = record {
  valid = v;
  some_content = real_content-ne-nil ls c content ne;
  typed = real_content_eol ls c content v;
}

some_text : (ls : BufferLines) → WellFormed ls → 0 < length ls → 0 < length (text ls)
some_text [] w h = absurd (omega arith)
some_text (x ∷ xs) w h = omega (arith, length-append x (text xs), length-line-pos x w.0)

offset_at_end :
    (ls : BufferLines) (c : BufferCoord) → c.line ≡ length ls → offset ls c ≡ length (text ls)
offset_at_end ls c e = ap length (ap (λ l. before ls l c.column) e ∙ before-end ls c.column)

below_origin : (b : BufferCoord) → 0 < b.line → coord_lt (coord 0 0) b ≡ true
unfolding coord_lt
below_origin b h = ground arith

module _ (ls : BufferLines) (b e : BufferCoord) (w : WellFormed ls) (vb : Valid ls b)
    (ve : Valid ls e) (ne : 0 < length ls) where
  -- The end that `erase` works with is valid, and is the end of the buffer only for whole lines
  -- below the first.
  pub erase_end_lem :
      Valid ls (erase_end ls b e)
      × ((erase_end ls b e).line ≡ length ls → (b.column ≡ 0) × (0 < b.line))
  unfolding erase_end end_coord coord_eq
  erase_end_lem = elim (Bool-cases (is_end ls e)) [
    | inl t ↦ elim (Bool-cases (not (b.column == 0) || coord_eq b (coord 0 0))) [
      | inl u ↦
          let at_end : e.line ≡ length ls = ground (arith, is_end-Valid ls e ve) in
          let (p, q) =
            prev_lem ls e w ve (omega (arith, offset_at_end ls e at_end, some_text ls w ne)) in
          rw (t, u)
            (
              p,
              λ h.
                  absurd
                    (omega (arith, q, offset_at_end ls e at_end, offset_at_end ls (prev ls e) h)),
            )
      | inr u ↦ rw (t, u) (IsAt-end ls, λ _. (ground arith, ground arith))
    ]
    | inr t ↦ rw t (ve, λ q. cc (is_end-Valid ls e ve ∙ (==_iff e.line (length ls)).1 q))
  ]

  -- The modification that `erase` records, when its range is not empty.
  abbrev pub removal : Modification
  removal = record { type = erases; coord = b; content = string ls b (erase_end ls b e) }

  module _ (t : coord_le (erase_end ls b e) b ≡ false) where
    abbrev e' : BufferCoord
    e' = erase_end ls b e

    proper : offset ls b < offset ls e'
    proper = offset_lt ls b e' vb erase_end_lem.0 (coord_le-false e' b t).0

    erased_text : text_before ls b ++ string ls b e' ≡ text_before ls e'
    erased_text = before-append-string ls b e' vb erase_end_lem.0 (coord_le-false e' b t).1

    erased_stands : text_after ls b ≡ string ls b e' ++ text_after ls e'
    erased_stands = append_cancel (text_before ls b) (
        before-append-after ls b.line b.column
        ∙ sym (before-append-after ls e'.line e'.column)
        ∙ ap (λ s. s ++ text_after ls e') (sym erased_text)
        ∙ append_assoc (text_before ls b) (string ls b e') (text_after ls e'))

    pub removal-Fits : Fits removal ls
    removal-Fits = record {
      valid = vb;
      some_content = λ q. absurd (
          omega (
            arith,
            proper,
            ap length erased_text,
            length-append (text_before ls b) (string ls b e'),
            ap length q,
          ));
      typed = (
        ap (take (length (string ls b e'))) erased_stands
            ∙ take-length_append (string ls b e') (text_after ls e'),
        λ q.
            (erase_end_lem.1
              (end_of_nil ls e' w erase_end_lem.0 (
                append_cancel (string ls b e')
                  (sym erased_stands ∙ q ∙ sym (append-nil (string ls b e'))))).0).0,
      );
    }

    pub removal_end : modification_end ls b (string ls b e') ≡ e'
    unfolding modification_end
    removal_end =
        let (v, q) = advance_pos ls b (length (string ls b e')) vb in
        offset_unique ls _ e' v erase_end_lem.0
          (ap length (q ∙ ap (λ s. text_before ls b ++ s) removal-Fits.typed.0 ∙ erased_text))

    pub removal-IsRange : IsRange ls b e'
    removal-IsRange =
        (range_of_offset ls b e' vb erase_end_lem.0 proper, λ h. (erase_end_lem.1 h).0)

    -- Some text is always left.
    pub erase_leaves_text : 0 < offset ls b + length (text_after ls e')
    erase_leaves_text = elim (IsAt-cases ls e'.line e'.column erase_end_lem.0) [
      | inl (end, _) ↦
          let (_, below) = erase_end_lem.1 end in
          omega (arith, offset_lt ls (coord 0 0) b (origin-Valid ls w) vb (below_origin b below))
      | inr (lt, _) ↦ omega (
        arith,
        length_pos (text_after ls e') (after-ne-nil ls e'.line e'.column w lt erase_end_lem.0),
      )
    ]
