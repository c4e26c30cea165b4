-- ===== src/Selections.antt =====
-- Selections (src/selection.hh, src/selection.cc) and the walk of ranges through changes
-- (src/changes.hh). The target column of a cursor and the captures of a selection are left out.
--
-- `min()` and `max()` of the source are references: assigning through them is a function of its
-- own here. std::stable_sort is a stable insertion sort.
pub mod Order
pub mod Merge
pub mod Main
pub mod Sort
pub mod SortMain
pub mod Update
pub mod Lists
use kakoune.Prelude.{
  ℕ, zero, suc, ◌+◌, ◌-◌, Bool, true, false, not, ◌&&◌, ◌||◌, List, [], ◌∷◌, ◌++◌, ltb, leb, ◌==◌,
  if◌then◌else◌, length, get_or, take, drop,
}
use kakoune.Coord.{BufferCoord, coord, coord_lt, coord_le, coord_eq}
use kakoune.Lines.{BufferLines, clamp, back_coord}
use kakoune.Modification.{ChangeType}
use kakoune.Buffer.{Change, Buffer}
use kakoune.Changes.{
  timestamp, changes_since, ForwardChangesTracker, new_tracker, get_new_coord,
  get_new_coord_tolerant, update, relevant, forward_sorted_until, backward_sorted_until,
}

-- BasicSelection
pub record Selection : Type 0 where
  pub anchor : BufferCoord
  pub cursor : BufferCoord

abbrev pub selection : BufferCoord → BufferCoord → Selection
selection a c = record { anchor = a; cursor = c }

unfoldable pub min : Selection → BufferCoord
min s = if coord_le s.anchor s.cursor then s.anchor else s.cursor

unfoldable pub max : Selection → BufferCoord
max s = if coord_le s.anchor s.cursor then s.cursor else s.anchor

-- sel.min() = c and sel.max() = c
unfoldable pub set_min : Selection → BufferCoord → Selection
set_min s c = if coord_le s.anchor s.cursor then selection c s.cursor else selection s.anchor c

unfoldable pub set_max : Selection → BufferCoord → Selection
set_max s c = if coord_le s.anchor s.cursor then selection s.anchor c else selection c s.cursor

-- std::min and std::max on coordinates.
unfoldable pub min_coord : BufferCoord → BufferCoord → BufferCoord
min_coord a b = if coord_lt b a then b else a

unfoldable pub max_coord : BufferCoord → BufferCoord → BufferCoord
max_coord a b = if coord_lt a b then b else a

unfoldable pub overlaps : Selection → Selection → Bool
overlaps l r =
    if coord_le (min l) (min r) then coord_le (min r) (max l) else coord_le (min l) (max r)

unfoldable pub compare_selections : Selection → Selection → Bool
compare_selections l r =
    if coord_eq (min l) (min r) then coord_lt (max l) (max r) else coord_lt (min l) (min r)

-- begin[i] takes begin[j] in.
unfoldable pub merged : Selection → Selection → Selection
merged s t =
    let s' = set_min s (min_coord (min s) (min t)) in set_max s' (max_coord (max s') (max t))

-- The loop of merge_overlapping: `current` is begin[i], and the list holds those from j on. The
-- result is what the loop keeps from i on, with the main index.
unfoldable pub merge_loop :
    (Selection → Selection → Bool) → Selection → ℕ → ℕ → List Selection → List Selection × ℕ
merge_loop overlap current i main [] = (current ∷ [], main)
merge_loop overlap current i main (next ∷ rest) = elim (overlap current next) [
  | true ↦ merge_loop overlap (merged current next) i (if ltb i main then main - 1 else main) rest
  | false ↦ let (kept, main') = merge_loop overlap next (suc i) main rest in (current ∷ kept, main')
]

unfoldable pub merge_overlapping :
    (Selection → Selection → Bool) → List Selection → ℕ → List Selection × ℕ
merge_overlapping overlap [] main = ([], main)
merge_overlapping overlap (s ∷ rest) main = merge_loop overlap s 0 main rest

unfoldable pub merge_overlapping_selections : List Selection → ℕ → List Selection × ℕ
merge_overlapping_selections sels main =
    if length sels == 1 then (sels, main) else merge_overlapping overlaps sels main

unfoldable pub any_overlaps : List Selection → Bool
any_overlaps [] = false
any_overlaps (s ∷ []) = false
any_overlaps (s ∷ t ∷ sels) = overlaps s t || any_overlaps (t ∷ sels)

-- std::count_if with the position of each selection, for the new main index.
unfoldable pub count_before : BufferCoord → ℕ → ℕ → List Selection → ℕ
count_before main_begin main i [] = 0
count_before main_begin main i (s ∷ sels) =
    (if (if coord_eq (min s) main_begin then ltb i main else coord_lt (min s) main_begin)
      then 1
      else 0)
    + count_before main_begin main (suc i) sels

-- A stable insertion: before the first selection that is greater.
unfoldable pub insert_sorted : Selection → List Selection → List Selection
insert_sorted s [] = s ∷ []
insert_sorted s (t ∷ sels) =
    let rest = insert_sorted s sels in if compare_selections t s then t ∷ rest else s ∷ t ∷ sels

unfoldable pub stable_sort : List Selection → List Selection
stable_sort [] = []
stable_sort (s ∷ sels) = insert_sorted s (stable_sort sels)

abbrev pub no_selection : Selection
no_selection = selection (coord 0 0) (coord 0 0)

unfoldable pub sort_selections : List Selection → ℕ → List Selection × ℕ
sort_selections sels main =
    if length sels == 1
    then (sels, main)
    else (stable_sort sels, count_before (min (get_or sels main no_selection)) main 0 sels)

unfoldable pub clamp_selection : BufferLines → Selection → Selection
clamp_selection ls s = selection (clamp ls s.anchor) (clamp ls s.cursor)

unfoldable pub clamp_selections : BufferLines → List Selection → List Selection
clamp_selections ls [] = []
clamp_selections ls (s ∷ sels) = clamp_selection ls s ∷ clamp_selections ls sels

unfoldable pub fix_overflowing_selections : BufferLines → List Selection → List Selection
fix_overflowing_selections ls [] = []
fix_overflowing_selections ls (s ∷ sels) =
    selection (min_coord (clamp ls s.anchor) (back_coord ls))
      (min_coord (clamp ls s.cursor) (back_coord ls))
    ∷ fix_overflowing_selections ls sels

-- SelectionList, on the buffer whose lines and changes are given to its operations.
pub record SelectionList : Type 0 where
  pub selections : List Selection
  pub main_index : ℕ
  pub list_timestamp : ℕ

unfoldable pub remove : SelectionList → ℕ → SelectionList
remove l index =
    let sels = take index l.selections ++ drop (suc index) l.selections in
    record l {
      selections = sels;
      main_index =
          if ltb index l.main_index || l.main_index == length sels
          then l.main_index - 1
          else l.main_index;
    }

unfoldable pub remove_from : SelectionList → ℕ → SelectionList
remove_from l index =
    let sels = take index l.selections in
    record l {
      selections = sels;
      main_index = if leb index l.main_index then length sels - 1 else l.main_index;
    }
