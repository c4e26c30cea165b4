-- ===== src/Tests/Undo.antt =====
-- The history of the sample (src/buffer.cc).
use kakoune.Prelude.{
  ℕ, zero, suc, ◌<◌, ◌≤◌, ◌≡◌, refl, Bool, true, false, List, [], ◌∷◌, some, none, arith, length,
}
use kakoune.Lines.{insert_lines}
use kakoune.Modification.{apply_lines}
use kakoune.Lines.WellFormed.{WellFormed}
use kakoune.Buffer.{Buffer, HistoryNode, ok, new_buffer, history_node, root_node}
use kakoune.Buffer.Edit.{insertion-Fits}
use kakoune.Buffer.Text.{insert_result}
use kakoune.History.{
  commit_undo_group, undo_loop, undo, redo, move_to, is_modified, notify_saved,
  find_lowest_common_parent, meet, climb, depth_of,
}
use kakoune.History.Invariant.{Snapshots, TreeOk, ParentOk, ChildOk, IsConsistent}
use kakoune.History.Commit.{extended}
use kakoune.History.Walk.{Rests, ancestor, descendant, undo_loop-Rests}
use kakoune.History.Undo.{committed-Rests, undo_restores, redo_restores}
use kakoune.History.Travel.{move_to_restores}
use kakoune.History.Session.{
  inserting, committing, Reach, here, next, SessionOk, new_buffer-SessionOk,
}
use kakoune.History.Restore.{
  session_restores, new_buffer_session, undo_loop-writable, undo-redo, notify_saved-is_modified,
}
use kakoune.Tests.Sample.{
  two_lines, two_lines-WellFormed, two_pieces, two_pieces-ne-nil, middle, middle-Valid, flags,
  start, edited,
}

abbrev snap : Snapshots
snap i = two_lines

start-SessionOk : SessionOk start snap
start-SessionOk = new_buffer-SessionOk flags two_lines refl two_lines-WellFormed (omega arith)

start-IsConsistent : IsConsistent start snap
start-IsConsistent = start-SessionOk.consistent

edited-IsConsistent : IsConsistent edited snap
unfolding new_buffer insert_lines apply_lines
edited-IsConsistent = record {
  recording = start-IsConsistent.recording;
  tree = start-IsConsistent.tree;
  current = start-IsConsistent.current;
  pending = (insertion-Fits two_lines middle two_pieces middle-Valid two_pieces-ne-nil, refl);
}

-- The edit, and then a commit.
session : Reach start (commit_undo_group edited)
unfolding new_buffer
session =
    next
      (next here (
        inserting middle two_pieces _ middle-Valid
          (insert_result start middle two_pieces refl two_pieces-ne-nil)))
      (committing refl)

abbrev undone : Buffer
undone = undo_loop 1 (commit_undo_group edited)

abbrev committed_snap : Snapshots
committed_snap = extended 1 edited.lines snap

undone-Rests : Rests undone committed_snap
unfolding new_buffer
undone-Rests =
    (undo_loop-Rests 1 (commit_undo_group edited) committed_snap
      (committed-Rests edited snap edited-IsConsistent)).0

undo_restores_example :
    let b1 = commit_undo_group edited in
    let snap' = extended (length edited.history) edited.lines snap in
    (b' : Buffer) × (moved : Bool) × (undo edited 1 ≡ ok (b', moved))
    × (b'.history_id ≡ ancestor b1.history 1 b1.history_id)
    × (b'.lines ≡ snap' (ancestor b1.history 1 b1.history_id))
    × Rests b' snap'
    × (length edited.history ≤ length b'.history)
unfolding new_buffer
undo_restores_example = undo_restores edited snap 1 edited-IsConsistent refl

undone_writable : undone.is_read_only ≡ false
unfolding new_buffer commit_undo_group
undone_writable = undo_loop-writable (commit_undo_group edited) 0 refl

redo_restores_example :
    (b' : Buffer) × (moved : Bool) × (redo undone 1 ≡ ok (b', moved))
    × (b'.history_id ≡ descendant undone.history 1 undone.history_id)
    × (b'.lines ≡ committed_snap (descendant undone.history 1 undone.history_id))
    × Rests b' committed_snap
    × (length undone.history ≤ length b'.history)
redo_restores_example = redo_restores undone committed_snap 1 undone-Rests undone_writable

undo-redo_example :
    (b1 b2 : Buffer) × (moved : Bool) × (undo edited 1 ≡ ok (b1, true))
    × (b1.lines ≡ snap edited.history_id)
    × (redo b1 1 ≡ ok (b2, moved))
    × (b2.lines ≡ edited.lines)
unfolding new_buffer
undo-redo_example = undo-redo edited snap edited-IsConsistent refl (λ q. cc)

move_to_restores_example :
    (b' : Buffer) × (move_to edited 0 ≡ ok (b', true))
    × (b'.history_id ≡ 0)
    × (b'.lines ≡ snap 0)
    × Rests b' (extended (length edited.history) edited.lines snap)
    × (length edited.history ≤ length b'.history)
unfolding new_buffer
move_to_restores_example = move_to_restores edited snap 0 edited-IsConsistent refl (omega arith)

session_restores_example :
    (b'' : Buffer) × (move_to (commit_undo_group edited) 0 ≡ ok (b'', true)) × (b''.lines ≡ snap 0)
unfolding new_buffer commit_undo_group
session_restores_example =
    session_restores start (commit_undo_group edited) snap 0 start-SessionOk session refl
      (omega arith)

new_buffer_session_example :
    WellFormed (commit_undo_group edited).lines
    × (0 < length (commit_undo_group edited).lines)
    × ((b' : Buffer) × (move_to (commit_undo_group edited) 0 ≡ ok (b', true))
        × (b'.lines ≡ two_lines))
unfolding new_buffer commit_undo_group
new_buffer_session_example =
    new_buffer_session flags two_lines (commit_undo_group edited) refl two_lines-WellFormed
      (omega arith) session refl

notify_saved-is_modified_example :
    (is_modified edited ≡ false → edited.lines ≡ snap edited.last_save_history_id)
    × (is_modified (notify_saved edited) ≡ false)
    × ((notify_saved edited).lines ≡ edited.lines)
unfolding new_buffer
notify_saved-is_modified_example = notify_saved-is_modified edited snap edited-IsConsistent refl

-- A root with two children, and a child of the first.
abbrev child_of : ℕ → HistoryNode
child_of p = record { parent = some p; redo_child = none; undo_group = [] }

abbrev forked : List HistoryNode
forked = root_node ∷ child_of 0 ∷ child_of 0 ∷ child_of 1 ∷ []

forked-ParentOk :
    (i : ℕ)
    → i < 4
    → ParentOk (history_node forked i).parent (history_node forked i).undo_group snap i
forked-ParentOk zero h = refl
forked-ParentOk (suc zero) h = (omega arith, refl)
forked-ParentOk (suc (suc zero)) h = (omega arith, refl)
forked-ParentOk (suc (suc (suc zero))) h = (omega arith, refl)
forked-ParentOk (suc (suc (suc (suc i)))) h = absurd (omega arith)

forked-ChildOk : (i : ℕ) → i < 4 → ChildOk forked (history_node forked i).redo_child i
forked-ChildOk zero h = tt
forked-ChildOk (suc zero) h = tt
forked-ChildOk (suc (suc zero)) h = tt
forked-ChildOk (suc (suc (suc zero))) h = tt
forked-ChildOk (suc (suc (suc (suc i)))) h = absurd (omega arith)

forked-TreeOk : TreeOk forked snap
forked-TreeOk = record {
  nodes = forked-ParentOk;
  children = forked-ChildOk;
  well_formed = λ i h. two_lines-WellFormed;
}

common_root : find_lowest_common_parent forked 3 2 ≡ 0
unfolding find_lowest_common_parent meet climb depth_of
common_root = refl
