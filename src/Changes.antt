-- ===== src/Changes.antt =====
-- Tracking of positions through the changes of a buffer (src/changes.hh, changes.cc, and
-- Buffer::changes_since of buffer.inl.hh).
--
-- The source subtracts signed coordinates; its assertions say that the results are not negative,
-- and there the subtraction of natural numbers agrees.
pub mod Shift
pub mod Track
pub mod Runs
pub mod Order
pub mod Log
pub mod Groups
pub mod Moves
pub mod Sessions
use kakoune.Prelude.{
  ℕ, zero, suc, ◌+◌, ◌-◌, ◌≡◌, Bool, true, false, not, List, [], ◌∷◌, ltb, leb, ◌==◌, if◌then◌else◌,
  length, take, drop,
}
use kakoune.Coord.{BufferCoord, coord, coord_lt, coord_le}
use kakoune.Modification.{ChangeType, inserts, erases}
use kakoune.Buffer.{Change, Buffer}

-- Buffer::timestamp, Buffer::changes_since
abbrev pub timestamp : Buffer → ℕ
timestamp b = length b.changes

unfoldable pub changes_since : Buffer → ℕ → List Change
changes_since b time = if ltb time (length b.changes) then drop time b.changes else []

pub record ForwardChangesTracker : Type 0 where
  pub cur_pos : BufferCoord
  pub old_pos : BufferCoord

-- A tracker that has seen no change.
abbrev pub new_tracker : ForwardChangesTracker
new_tracker = record { cur_pos = coord 0 0; old_pos = coord 0 0 }

unfoldable pub get_old_coord : ForwardChangesTracker → BufferCoord → BufferCoord
get_old_coord t c =
    coord (c.line + t.old_pos.line - t.cur_pos.line) (
      if t.cur_pos.line == c.line then c.column + t.old_pos.column - t.cur_pos.column else c.column)

unfoldable pub get_new_coord : ForwardChangesTracker → BufferCoord → BufferCoord
get_new_coord t c =
    coord (c.line + t.cur_pos.line - t.old_pos.line) (
      if t.old_pos.line == c.line then c.column + t.cur_pos.column - t.old_pos.column else c.column)

unfoldable pub get_new_coord_tolerant : ForwardChangesTracker → BufferCoord → BufferCoord
get_new_coord_tolerant t c = if coord_lt c t.old_pos then t.cur_pos else get_new_coord t c

abbrev pub update_typed :
    ChangeType → ForwardChangesTracker → BufferCoord → BufferCoord → ForwardChangesTracker
update_typed inserts t begin end = record { cur_pos = end; old_pos = get_old_coord t begin }
update_typed erases t begin end = record { cur_pos = begin; old_pos = get_old_coord t end }

unfoldable pub update : ForwardChangesTracker → Change → ForwardChangesTracker
update t change = update_typed change.type t change.begin change.end

-- The loop of update(buffer, timestamp).
unfoldable pub update_all : ForwardChangesTracker → List Change → ForwardChangesTracker
update_all t [] = t
update_all t (c ∷ cs) = update_all (update t c) cs

-- update(buffer, timestamp), with the timestamp it leaves
unfoldable pub update_since : ForwardChangesTracker → Buffer → ℕ → ForwardChangesTracker × ℕ
update_since t b time = (update_all t (changes_since b time), timestamp b)

abbrev pub relevant_typed : ChangeType → BufferCoord → BufferCoord → Bool
relevant_typed inserts begin c = coord_le begin c
relevant_typed erases begin c = coord_lt begin c

unfoldable pub relevant : ForwardChangesTracker → Change → BufferCoord → Bool
relevant t change c = relevant_typed change.type change.begin (get_new_coord_tolerant t c)

-- The position that the next change of a forward run stands behind.
abbrev pub run_end : ChangeType → BufferCoord → BufferCoord → BufferCoord
run_end inserts begin end = end
run_end erases begin end = begin

-- The loop of forward_sorted_until: how many of the changes behind `first` belong to its run.
unfoldable pub forward_run : Change → List Change → ℕ
forward_run first [] = 0
forward_run first (next ∷ rest) =
    let more = forward_run next rest in
    if coord_le next.begin (run_end first.type first.begin first.end) then 0 else suc more

-- forward_sorted_until, as the number of changes before the pointer that it returns
unfoldable pub forward_sorted_until : List Change → ℕ
forward_sorted_until [] = 0
forward_sorted_until (first ∷ rest) = suc (forward_run first rest)

unfoldable pub backward_run : Change → List Change → ℕ
backward_run first [] = 0
backward_run first (next ∷ rest) =
    let more = backward_run next rest in if coord_lt first.begin next.end then 0 else suc more

unfoldable pub backward_sorted_until : List Change → ℕ
backward_sorted_until [] = 0
backward_sorted_until (first ∷ rest) = suc (backward_run first rest)
