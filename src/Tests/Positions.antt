-- ===== src/Tests/Positions.antt =====
-- Positions and lines on the sample (src/buffer.cc, buffer.inl.hh).
use kakoune.Prelude.{◌≡◌, refl, [], ◌∷◌, arith}
use kakoune.Coord.{coord}
use kakoune.Lines.{advance, distance, insert_lines, erase_lines}
use kakoune.Lines.Navigate.Distance.{advance-distance}
use kakoune.Tests.Sample.{two_lines, two_lines-WellFormed, two_pieces, middle, middle-Valid}

cut_in_two :
    insert_lines two_lines middle two_pieces
    ≡ (104 ∷ 97 ∷ 10 ∷ []) ∷ (98 ∷ 105 ∷ 10 ∷ []) ∷ (121 ∷ 111 ∷ 10 ∷ []) ∷ []
unfolding insert_lines
cut_in_two = refl

erased_join : erase_lines two_lines middle (coord 1 1) ≡ (104 ∷ 111 ∷ 10 ∷ []) ∷ []
unfolding erase_lines
erased_join = refl

advance-distance_example :
    advance two_lines (coord 1 2) (distance two_lines (coord 1 2) middle) ≡ middle
advance-distance_example =
    advance-distance two_lines (coord 1 2) middle two_lines-WellFormed (omega arith) middle-Valid
