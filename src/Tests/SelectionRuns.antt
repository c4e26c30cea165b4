-- ===== src/Tests/SelectionRuns.antt =====
-- Runs on selections (src/selection.cc), and the theorems applied to them.
use kakoune.Prelude.{All, true, ℕ, ◌≡◌, ◌≢◌, ◌<◌, refl, List, [], ◌∷◌, length, arith}
use kakoune.Coord.{coord, coord_le, coord_lt}
use kakoune.Modification.{inserts}
use kakoune.Buffer.{Change, Buffer}
use kakoune.Changes.{
  changes_since, forward_sorted_until, forward_run, backward_sorted_until, backward_run,
  get_new_coord_tolerant, get_new_coord, get_old_coord, update, relevant,
}
use kakoune.Selections.{
  Selection, selection, min, max, overlaps, merged, set_min, set_max, min_coord, max_coord,
  merge_loop, merge_overlapping, merge_overlapping_selections, sort_selections, SelectionList,
  remove, clamp_selections,
}
use kakoune.Selections.Merge.{IsSorted}
use kakoune.Selections.Main.{Merges, merge_overlapping_selections-Merges}
use kakoune.Selections.SortMain.{Sorts, sort_selections-Sorts}
use kakoune.Selections.Lists.{main_of, remove_lem}
use kakoune.Selections.Update.{
  advance_forward, update_range, update_loop, is_below, lower_bound_loop, lower_bound, update_from,
  update_forward, update_run, merged_if, update_selections,
}
use kakoune.Selections.Update.Alone.{AreApart}
use kakoune.Selections.Update.Order.{IsForward}
use kakoune.Tests.Sample.{two_lines, start}
use kakoune.Selections.Update.Whole.{Updated, update_selections_lem}

-- The first two overlap; the third is main.
abbrev three : List Selection
three =
    selection (coord 0 0) (coord 0 4)
    ∷ selection (coord 0 6) (coord 0 3)
    ∷ selection (coord 1 0) (coord 1 2)
    ∷ []

two_left :
    merge_overlapping_selections three 2
    ≡ (selection (coord 0 0) (coord 0 6) ∷ selection (coord 1 0) (coord 1 2) ∷ [], 1)
unfolding merge_overlapping_selections merge_overlapping merge_loop overlaps merged min max set_min
    set_max min_coord max_coord coord_le
two_left = refl

three-IsSorted : IsSorted three
unfolding min coord_le
three-IsSorted = (refl, (refl, tt))

merge_overlapping_selections-Merges_example : Merges three 2 (merge_overlapping_selections three 2)
merge_overlapping_selections-Merges_example =
    merge_overlapping_selections-Merges three 2 three-IsSorted (omega arith)

sort_selections-Sorts_example : Sorts three 1 (sort_selections three 1)
sort_selections-Sorts_example = sort_selections-Sorts three 1 (omega arith)

abbrev list_of_three : SelectionList
list_of_three = record { selections = three; main_index = 2; list_timestamp = 0 }

zero-ne-two : ◌≢◌ {A = ℕ} 0 2
zero-ne-two h = omega arith

remove_lem_example :
    ((remove list_of_three 0).main_index < length (remove list_of_three 0).selections)
    × (◌≢◌ {A = ℕ} 0 2 → main_of (remove list_of_three 0) ≡ main_of list_of_three)
remove_lem_example = remove_lem list_of_three 0 (omega arith) (omega arith) (omega arith)

-- Text was inserted within the first line and in front of the second.
abbrev first_change : Change
first_change = record { type = inserts; begin = coord 0 5; end = coord 0 7 }

abbrev later_changes : List Change
later_changes = record { type = inserts; begin = coord 1 0; end = coord 1 1 } ∷ []

abbrev two_apart : List Selection
two_apart = selection (coord 0 0) (coord 0 4) ∷ selection (coord 1 2) (coord 0 6) ∷ []

two_apart-AreApart : AreApart (coord 0 0) two_apart
unfolding min max coord_le coord_lt
two_apart-AreApart = (refl, (refl, tt))

two_moved :
    update_run (first_change ∷ later_changes) two_apart
    ≡ (2, selection (coord 0 0) (coord 0 4) ∷ selection (coord 1 3) (coord 0 8) ∷ [])
unfolding update_run update_forward update_from lower_bound lower_bound_loop is_below update_loop
    update_range advance_forward min max coord_le coord_lt forward_sorted_until forward_run
    backward_sorted_until backward_run get_new_coord_tolerant get_new_coord get_old_coord update
    relevant
two_moved = refl

-- A buffer with two lines that has seen these changes.
abbrev changed : Buffer
changed = record start { lines = two_lines; changes = first_change ∷ later_changes }

changed-IsForward : All IsForward (changes_since changed 0)
unfolding changes_since coord_lt
changed-IsForward = (refl, (refl, tt))

update_selections_lem_example :
    (r : List Selection × ℕ) × Updated true (changes_since changed 0) two_apart 1 r
    × AreApart (coord 0 0) r.0
    × (update_selections two_apart 1 changed 0 true
        ≡ merged_if true (clamp_selections changed.lines r.0) r.1)
update_selections_lem_example =
    update_selections_lem two_apart 1 changed 0 true refl two_apart-AreApart changed-IsForward
