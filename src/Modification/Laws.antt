-- ===== src/Modification/Laws.antt =====
-- A modification and its inverse (src/buffer.cc): on well-formed lines, applying a modification that
-- fits and then its inverse gives the lines back.
use kakoune.Prelude.{
  ◌<◌, ◌≡◌, ◌≢◌, refl, sym, ap, ◌∙◌, ◌⊎◌, inl, inr, [], ◌∷◌, ◌++◌, append-nil, append_assoc, arith,
  length, take, Bool-cases, length-append, append_cancel, take-length_append,
}
use kakoune.Prelude.Int.{pos}
use kakoune.Coord.{BufferCoord, coord_lt}
use kakoune.Lines.{Bytes, BufferLines, newline, back, advance, insert_lines, erase_lines}
use kakoune.Lines.View.{
  after, Valid, text_before, text_after, IsAt-cases, before-append-after, after-end,
}
use kakoune.Lines.WellFormed.{WellFormed, text_injective, after-ne-nil, back-after}
use kakoune.Lines.Insert.Laws.{
  text-insert_lines, text_before-insert_lines, text_after-insert_lines, insert_lines-WellFormed,
  insert_lines-Valid,
}
use kakoune.Lines.Erase.{
  IsRange, text-erase_lines, erase_lines-WellFormed, text_before-erase_lines,
  text_after-erase_lines, erase_lines-Valid,
}
use kakoune.Lines.Navigate.Offset.{offset, not_offset_lt}
use kakoune.Lines.Navigate.Advance.{advance_pos}

-- A valid coordinate with nothing behind it is the end.
pub end_of_nil :
    (ls : BufferLines) (c : BufferCoord)
    → WellFormed ls
    → Valid ls c
    → text_after ls c ≡ []
    → (c.line ≡ length ls) × (c.column ≡ 0)
end_of_nil ls c w v e = elim (IsAt-cases ls c.line c.column v) [
  | inl h ↦ h
  | inr (lt, _) ↦ absurd (after-ne-nil ls c.line c.column w lt v e)
]

-- A coordinate with more bytes before it stands further on.
pub range_of_offset :
    (ls : BufferLines) (b e : BufferCoord)
    → Valid ls b
    → Valid ls e
    → offset ls b < offset ls e
    → (b.line < e.line) ⊎ ((b.line ≡ e.line) × (b.column < e.column))
unfolding coord_lt
range_of_offset ls b e vb ve h = elim (Bool-cases (coord_lt b e)) [
  | inl t ↦ ground arith
  | inr f ↦ absurd (omega (arith, not_offset_lt ls b e vb ve f))
]

pub length_pos : (xs : Bytes) → xs ≢ [] → 0 < length xs
length_pos [] h = absurd (h refl)
length_pos (x ∷ xs) h = omega arith

-- The end of the bytes that stand behind a coordinate.
pub record Covers (ls : BufferLines) (c e : BufferCoord) (content rest : Bytes) : Type 0 where
  pub end_valid : Valid ls e
  pub before_end : text_before ls e ≡ text_before ls c ++ content
  pub after_end : text_after ls e ≡ rest
  pub is_range : IsRange ls c e

module _ (ls : BufferLines) (c e : BufferCoord) (content rest : Bytes) (w : WellFormed ls)
    (v : Valid ls c) (ne : content ≢ []) (stands : text_after ls c ≡ content ++ rest)
    (whole : rest ≡ [] → c.column ≡ 0) (ve : Valid ls e)
    (eq : text_before ls e ≡ text_before ls c ++ content) where
  covers_after : text_after ls e ≡ rest
  covers_after = append_cancel content (
      append_cancel (text_before ls c) (
        sym (append_assoc (text_before ls c) content (text_after ls e))
        ∙ ap (λ t. t ++ text_after ls e) (sym eq)
        ∙ before-append-after ls e.line e.column
        ∙ sym (before-append-after ls c.line c.column)
        ∙ ap (text_before ls c ++◌) stands))

  pub covers : Covers ls c e content rest
  covers = record {
    end_valid = ve;
    before_end = eq;
    after_end = covers_after;
    is_range = (
      range_of_offset ls c e v ve (
          omega
            (arith, ap length eq, length-append (text_before ls c) content, length_pos content ne)),
      λ at_end.
          whole (sym covers_after ∙ ap (λ l. after ls l e.column) at_end ∙ after-end ls e.column),
    );
  }

pub advance-Covers :
    (ls : BufferLines) (c : BufferCoord) (content rest : Bytes)
    → WellFormed ls
    → Valid ls c
    → content ≢ []
    → text_after ls c ≡ content ++ rest
    → (rest ≡ [] → c.column ≡ 0)
    → Covers ls c (advance ls c (pos (length content))) content rest
advance-Covers ls c content rest w v ne stands whole =
    let (ve, eq) = advance_pos ls c (length content) v in
    covers ls c _ content rest w v ne stands whole ve (
      eq
      ∙ ap (λ t. text_before ls c ++ t)
          (ap (take (length content)) stands ∙ take-length_append content rest))

-- Erasing what was inserted gives the lines back.
module _ (ls : BufferLines) (c : BufferCoord) (content : Bytes) (w : WellFormed ls) (v : Valid ls c)
    (ne : content ≢ []) (eol : c.line ≡ length ls → back content ≡ newline) where
  abbrev pub inserted : BufferLines
  inserted = insert_lines ls c content

  pub inserted-Covers :
      Covers inserted c (advance inserted c (pos (length content))) content (text_after ls c)
  inserted-Covers =
      advance-Covers inserted c content (text_after ls c)
        (insert_lines-WellFormed ls c content w v ne eol)
        (insert_lines-Valid ls c content w v ne eol) ne
        (text_after-insert_lines ls c content w v ne) (λ e. (end_of_nil ls c w v e).1)

  pub erase-insert : erase_lines inserted c (advance inserted c (pos (length content))) ≡ ls
  erase-insert =
      text_injective _ ls (erase_lines-WellFormed inserted c e w' v' k.end_valid k.is_range) w (
        text-erase_lines inserted c e w' v' k.end_valid k.is_range
        ∙ ap (λ t. t ++ text_after inserted e) (text_before-insert_lines ls c content w v ne)
        ∙ ap (text_before ls c ++◌) k.after_end
        ∙ before-append-after ls c.line c.column)
    where
      e : BufferCoord
      e = advance inserted c (pos (length content))

      k : Covers inserted c e content (text_after ls c)
      k = inserted-Covers

      w' : WellFormed inserted
      w' = insert_lines-WellFormed ls c content w v ne eol

      v' : Valid inserted c
      v' = insert_lines-Valid ls c content w v ne eol

-- Inserting what was erased gives the lines back.
module _ (ls : BufferLines) (c e : BufferCoord) (content rest : Bytes) (w : WellFormed ls)
    (v : Valid ls c) (ne : content ≢ []) (stands : text_after ls c ≡ content ++ rest)
    (k : Covers ls c e content rest) where
  abbrev pub erased : BufferLines
  erased = erase_lines ls c e

  pub erased-WellFormed : WellFormed erased
  erased-WellFormed = erase_lines-WellFormed ls c e w v k.end_valid k.is_range

  pub erased-Valid : Valid erased c
  erased-Valid = erase_lines-Valid ls c e w v k.end_valid k.is_range

  text_after-erased : text_after erased c ≡ rest
  text_after-erased = text_after-erase_lines ls c e w v k.end_valid k.is_range ∙ k.after_end

  -- What was erased up to the end ends in a newline.
  pub erased_eol : c.line ≡ length erased → back content ≡ newline
  erased_eol at_end =
      let nothing : rest ≡ [] =
        sym text_after-erased
        ∙ ap (λ l. after erased l c.column) at_end
        ∙ after-end erased c.column in
      let whole : text_after ls c ≡ content =
        stands ∙ ap (content ++◌) nothing ∙ append-nil content in
      ap back (sym whole) ∙ back-after ls c.line c.column w v (λ q. ne (sym whole ∙ q))

  pub insert-erase : insert_lines erased c content ≡ ls
  insert-erase =
      text_injective _ ls
        (insert_lines-WellFormed erased c content erased-WellFormed erased-Valid ne erased_eol) w
        (text-insert_lines erased c content erased-WellFormed erased-Valid ne
          ∙ ap (λ t. t ++ (content ++ text_after erased c))
              (text_before-erase_lines ls c e w v k.end_valid k.is_range)
          ∙ ap (λ t. text_before ls c ++ (content ++ t)) text_after-erased
          ∙ ap (text_before ls c ++◌) (sym stands)
          ∙ before-append-after ls c.line c.column)
