-- ===== src/Tests/Edits.antt =====
-- Modifications, insertions and removals on the sample (src/buffer.cc).
use kakoune.Prelude.{◌<◌, ◌≡◌, refl, [], ◌∷◌, ◌++◌, arith, length}
use kakoune.Coord.{coord_lt, BufferCoord, coord}
use kakoune.Lines.View.{text, Valid, text_before, text_after}
use kakoune.Lines.WellFormed.{WellFormed}
use kakoune.Modification.{Modification, erases, Fits, Leads, inverse}
use kakoune.Buffer.{replace, Buffer, ok, new_buffer, insert, erase, erase_end, real_content}
use kakoune.Buffer.Text.{insert-text, erase-text, later_of}
use kakoune.Buffer.Replace.{replace_lem}
use kakoune.Modification.Inverse.{apply-inverse}
use kakoune.Tests.Sample.{
  two_lines, two_lines-WellFormed, two_pieces, two_pieces-ne-nil, middle, middle-Valid, start,
}

-- "i\nyo", a removal over a line's end.
abbrev cut : Modification
cut = record { type = erases; coord = middle; content = 105 ∷ 10 ∷ 121 ∷ [] }

cut-Fits : Fits cut two_lines
cut-Fits = record { valid = middle-Valid; some_content = λ q. cc; typed = (refl, λ q. cc) }

cut_twice : Leads two_lines (cut ∷ inverse cut ∷ []) two_lines
cut_twice =
    let (_, f, e) = apply-inverse cut two_lines two_lines-WellFormed cut-Fits in (cut-Fits, (f, e))

insert-text_example :
    (b' : Buffer) × (e : BufferCoord) × (insert start middle two_pieces ≡ ok (b', (middle, e)))
    × (text b'.lines
        ≡ text_before two_lines middle
          ++ (real_content two_lines middle two_pieces ++ text_after two_lines middle))
    × (text_before b'.lines e
        ≡ text_before two_lines middle ++ real_content two_lines middle two_pieces)
    × Valid b'.lines e
    × WellFormed b'.lines
unfolding new_buffer
insert-text_example =
    insert-text start middle two_pieces two_lines-WellFormed middle-Valid refl two_pieces-ne-nil

erase-text_example :
    (b' : Buffer) × (erase start middle (coord 2 0) ≡ ok (b', middle))
    × (text b'.lines
        ≡ text_before two_lines middle
          ++ text_after two_lines (later_of middle (erase_end two_lines middle (coord 2 0))))
    × WellFormed b'.lines
    × (0 < length b'.lines)
unfolding new_buffer
erase-text_example =
    erase-text start middle (coord 2 0) two_lines-WellFormed (omega arith) middle-Valid (refl, refl)
      refl

-- The last line replaced by another, up to the end of the buffer.
replace_lem_example :
    (b' : Buffer) × (range : BufferCoord × BufferCoord) × (replace start
        (coord 1 0)
        (coord 2 0)
        (122 ∷ 10 ∷ [])
      ≡ ok (b', range))
    × (text b'.lines
        ≡ text_before two_lines (coord 1 0) ++ (122 ∷ 10 ∷ [] ++ text_after two_lines (coord 2 0)))
unfolding new_buffer coord_lt
replace_lem_example =
    replace_lem start (coord 1 0) (coord 2 0) (122 ∷ 10 ∷ []) two_lines-WellFormed (omega arith)
      (omega arith) (refl, refl) refl refl (λ e. ((λ q. cc), refl, omega arith))
