-- ===== src/Tests/Ranges.antt =====
-- The cases of test_line_range_set (src/line_modification.cc).
use kakoune.Prelude.{◌≡◌, refl, List, [], ◌∷◌, arith}
use kakoune.LineRangeSet.{
  LineRange, line_range, split_before, merge_loop, add_range, remove_loop, remove_range,
}
use kakoune.LineRangeSet.Add.{SortedFrom}
use kakoune.LineRangeSet.Union.{Adds, add_range-Adds}
use kakoune.LineRangeSet.Remove.{Removes, remove_range-Removes}

abbrev apart : List LineRange
apart = line_range 0 7 ∷ line_range 11 15 ∷ []

apart-SortedFrom : SortedFrom 0 apart
apart-SortedFrom = (omega arith, omega arith, (omega arith, omega arith, tt))

two_added :
    add_range (line_range 0 5 ∷ []) (line_range 10 15)
    ≡ (line_range 0 5 ∷ line_range 10 15 ∷ [], line_range 10 15 ∷ [])
unfolding add_range split_before
two_added = refl

gap_filled :
    add_range (line_range 0 5 ∷ line_range 10 15 ∷ []) (line_range 5 10)
    ≡ (line_range 0 15 ∷ [], line_range 5 10 ∷ [])
unfolding add_range split_before merge_loop
gap_filled = refl

nothing_new : add_range (line_range 0 15 ∷ []) (line_range 5 10) ≡ (line_range 0 15 ∷ [], [])
unfolding add_range split_before merge_loop
nothing_new = refl

cut_in_two :
    remove_range (line_range 0 15 ∷ []) (line_range 3 8) ≡ line_range 0 3 ∷ line_range 8 15 ∷ []
unfolding remove_range split_before remove_loop
cut_in_two = refl

overlap_added :
    add_range apart (line_range 5 10)
    ≡ (line_range 0 10 ∷ line_range 11 15 ∷ [], line_range 7 10 ∷ [])
unfolding add_range split_before merge_loop
overlap_added = refl

over_two :
    remove_range (line_range 0 10 ∷ line_range 11 15 ∷ []) (line_range 8 13)
    ≡ line_range 0 8 ∷ line_range 13 15 ∷ []
unfolding remove_range split_before remove_loop
over_two = refl

add_range-Adds_example : Adds 0 apart (line_range 5 10) (add_range apart (line_range 5 10))
add_range-Adds_example =
    add_range-Adds 0 apart (line_range 5 10) apart-SortedFrom (omega arith) (omega arith)

remove_range-Removes_example :
    Removes 0 apart (line_range 5 13) (remove_range apart (line_range 5 13))
remove_range-Removes_example =
    remove_range-Removes 0 apart (line_range 5 13) apart-SortedFrom (omega arith)
