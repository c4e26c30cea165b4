-- ===== src/Selections/Update.antt =====
-- Ranges and selections through the changes of a buffer (src/changes.hh: update_range,
-- update_forward, update_backward; src/selection.cc: update_selections). Positions are not negative,
-- so the early return of update_range is never taken.
pub mod Bounds
pub mod Alone
pub mod Run
pub mod Order
pub mod OrderBack
pub mod Merging
pub mod Whole
pub mod LowerBound
use kakoune.Prelude.{
  ℕ, zero, suc, ◌+◌, ◌-◌, ◌/◌, Bool, true, false, List, [], ◌∷◌, ◌++◌, reverse, leb, if◌then◌else◌,
  length, take, drop, ◌==◌,
}
use kakoune.Coord.{BufferCoord, coord, coord_lt, coord_le}
use kakoune.Lines.{BufferLines}
use kakoune.Buffer.{Change, Buffer}
use kakoune.Changes.{
  timestamp, changes_since, ForwardChangesTracker, new_tracker, get_new_coord,
  get_new_coord_tolerant, update, relevant, forward_sorted_until, backward_sorted_until,
}
use kakoune.Selections.{
  Selection, selection, min, max, overlaps, merge_overlapping, clamp_selections, SelectionList,
}

-- The tracker and the changes that it has not passed.
pub record Walk : Type 0 where
  pub tracker : ForwardChangesTracker
  pub left : List Change

abbrev pub walk : ForwardChangesTracker → List Change → Walk
walk t cs = record { tracker = t; left = cs }

-- advance_while_relevant of update_forward.
unfoldable pub advance_forward : BufferCoord → ForwardChangesTracker → List Change → Walk
advance_forward pos t [] = walk t []
advance_forward pos t (c ∷ cs) =
    let passed = advance_forward pos (update t c) cs in
    if relevant t c pos then passed else walk t (c ∷ cs)

abbrev pub moved_change : ForwardChangesTracker → Change → Change
moved_change t c = record c { begin = get_new_coord t c.begin; end = get_new_coord t c.end }

-- advance_while_relevant of update_backward, on the changes from the last to the first.
unfoldable pub advance_backward : BufferCoord → ForwardChangesTracker → List Change → Walk
advance_backward pos t [] = walk t []
advance_backward pos t (c ∷ cs) =
    let change = moved_change t c in
    let passed = advance_backward pos (update t change) cs in
    if relevant t change pos then passed else walk t (c ∷ cs)

abbrev pub Advance : Type 0
Advance = BufferCoord → ForwardChangesTracker → List Change → Walk

-- update_range: the two ends in place, the lesser first.
unfoldable pub update_range : Advance → Walk → Selection → Selection × Walk
update_range advance w s =
    let w1 = advance (min s) w.tracker w.left in
    let first = get_new_coord_tolerant w1.tracker (min s) in
    let w2 = advance (max s) w1.tracker w1.left in
    let last = get_new_coord_tolerant w2.tracker (max s) in
    (if coord_le s.anchor s.cursor then selection first last else selection last first, w2)

unfoldable pub update_loop : Advance → Walk → List Selection → List Selection
update_loop advance w [] = []
update_loop advance w (s ∷ sels) =
    let (s', w') = update_range advance w s in s' ∷ update_loop advance w' sels

-- The test of the lower_bound of update_forward, on the range at an index.
unfoldable pub is_below : BufferCoord → List Selection → ℕ → Bool
is_below begin [] i = false
is_below begin (s ∷ sels) zero = coord_lt (max s) begin
is_below begin (s ∷ sels) (suc i) = is_below begin sels i

-- std::lower_bound by halving: `len` ranges from `first` on are left. It halves ranges that are not
-- in order as well, as the implementations of the standard library do. Each round leaves fewer
-- ranges, so their number is enough fuel.
unfoldable pub lower_bound_loop : ℕ → BufferCoord → List Selection → ℕ → ℕ → ℕ
lower_bound_loop zero begin sels first len = first
lower_bound_loop (suc fuel) begin sels first zero = first
lower_bound_loop (suc fuel) begin sels first (suc len) =
    let half = suc len / 2 in
    elim (is_below begin sels (first + half)) [
      | true ↦ lower_bound_loop fuel begin sels (suc (first + half)) (len - half)
      | false ↦ lower_bound_loop fuel begin sels first half
    ]

unfoldable pub lower_bound : BufferCoord → List Selection → ℕ
lower_bound begin sels = lower_bound_loop (length sels) begin sels 0 (length sels)

-- The ranges before the one that lower_bound finds stay as they are.
unfoldable pub update_from : BufferCoord → List Change → List Selection → List Selection
update_from begin changes sels =
    let n = lower_bound begin sels in
    take n sels ++ update_loop advance_forward (walk new_tracker changes) (drop n sels)

unfoldable pub update_forward : List Change → List Selection → List Selection
update_forward [] sels = sels
update_forward (c ∷ cs) sels = update_from c.begin (c ∷ cs) sels

unfoldable pub update_backward : List Change → List Selection → List Selection
update_backward changes sels =
    update_loop advance_backward (walk new_tracker (reverse changes)) sels

-- The run of changes that is handled at once: how many they are, and what becomes of the selections.
unfoldable pub update_run : List Change → List Selection → ℕ × List Selection
update_run changes sels =
    let forward_end = forward_sorted_until changes in
    let backward_end = backward_sorted_until changes in
    if leb backward_end forward_end
    then (forward_end, update_forward (take forward_end changes) sels)
    else (backward_end, update_backward (take backward_end changes) sels)

abbrev pub merged_if : Bool → List Selection → ℕ → List Selection × ℕ
merged_if true sels main = merge_overlapping overlaps sels main
merged_if false sels main = (sels, main)

-- The loop over the runs; a run is never empty, so there are no more of them than changes.
unfoldable pub runs_loop : ℕ → Bool → List Change → List Selection → ℕ → List Selection × ℕ
runs_loop zero merge changes sels main = (sels, main)
runs_loop (suc fuel) merge [] sels main = (sels, main)
runs_loop (suc fuel) merge (c ∷ cs) sels main =
    let (n, sels') = update_run (c ∷ cs) sels in
    let (kept, main') = merged_if merge sels' main in
    runs_loop fuel merge (drop n (c ∷ cs)) kept main'

unfoldable pub update_selections : List Selection → ℕ → Buffer → ℕ → Bool → List Selection × ℕ
update_selections sels main b time merge =
    if time == timestamp b
    then (sels, main)
    else (let changes = changes_since b time in
        let (sels', main') = runs_loop (length changes) merge changes sels main in
        merged_if merge (clamp_selections b.lines sels') main')

-- SelectionList::update
unfoldable pub update_list : SelectionList → Buffer → Bool → SelectionList
update_list l b merge =
    let (sels, main) = update_selections l.selections l.main_index b l.list_timestamp merge in
    record { selections = sels; main_index = main; list_timestamp = timestamp b }
