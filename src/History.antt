-- ===== src/History.antt =====
-- The undo tree of class Buffer (src/buffer.cc): commit_undo_group, undo, redo, move_to,
-- notify_saved and is_modified.
--
-- A node's parent has a smaller id, so the number of nodes is fuel enough for each loop that climbs
-- towards the root.
pub mod Invariant
pub mod Commit
pub mod Ancestor
pub mod Lowest
pub mod Walk
pub mod Edits
pub mod Undo
pub mod Travel
pub mod Session
pub mod Steps
pub mod Restore
use kakoune.Prelude.{
  ℕ, zero, suc, ◌+◌, ◌-◌, ◌≡◌, Bool, true, false, not, ◌&&◌, ◌||◌, List, [], ◌∷◌, ◌++◌, Option,
  none, some, ltb, leb, ◌==◌, if◌then◌else◌, length, is_empty, get_or, set, take,
}
use kakoune.Modification.{Modification, inverses}
use kakoune.Buffer.{
  Buffer, HistoryNode, Result, ok, err, root_node, history_node, next_history_id,
  throw_if_read_only, apply_modifications,
}

unfoldable pub commit_undo_group : Buffer → Buffer
commit_undo_group b =
    let node : HistoryNode = record {
      parent = some b.history_id;
      redo_child = none;
      undo_group = b.current_undo_group;
    } in
    let pushed = b.history ++ node ∷ [] in
    let current = history_node pushed b.history_id in
    if b.no_undo || is_empty b.current_undo_group then b else record b {
      history = set pushed b.history_id (record current { redo_child = some (next_history_id b) });
      history_id = next_history_id b;
      current_undo_group = [];
    }

-- One node's group undone: the loop body of Buffer::undo.
unfoldable pub revert_node : Buffer → ℕ → Buffer
revert_node b id = apply_modifications b (inverses (history_node b.history id).undo_group)

unfoldable pub undo_loop : ℕ → Buffer → Buffer
undo_loop zero b = b
undo_loop (suc count) b = elim (history_node b.history b.history_id).parent [
  | none ↦ b
  | some p ↦ undo_loop count (record (revert_node b b.history_id) { history_id = p })
]

unfoldable pub undo : Buffer → ℕ → Result (Buffer × Bool)
undo b count = throw_if_read_only b (
    let b' = commit_undo_group b in
    elim (history_node b'.history b'.history_id).parent [
      | none ↦ ok (b', false)
      | some p ↦ ok (undo_loop count b', true)
    ])

unfoldable pub redo_loop : ℕ → Buffer → Buffer
redo_loop zero b = b
redo_loop (suc count) b = elim (history_node b.history b.history_id).redo_child [
  | none ↦ b
  | some c ↦
      redo_loop count
        (apply_modifications (record b { history_id = c }) (history_node b.history c).undo_group)
]

unfoldable pub redo : Buffer → ℕ → Result (Buffer × Bool)
redo b count = throw_if_read_only b (elim (history_node b.history b.history_id).redo_child [
  | none ↦ ok (b, false)
  | some c ↦ if is_empty b.current_undo_group then ok (redo_loop count b, true) else ok (b, false)
])

-- depth_of: the number of ancestors.
unfoldable pub depth_of : List HistoryNode → ℕ → ℕ → ℕ
depth_of hs zero id = 0
depth_of hs (suc fuel) id = elim (history_node hs id).parent [
  | none ↦ 0
  | some p ↦ suc (depth_of hs fuel p)
]

-- The parent; the loops never ask for the root's.
abbrev pub parent_of : List HistoryNode → ℕ → ℕ
parent_of hs id = elim (history_node hs id).parent [ none ↦ 0 | some p ↦ p ]

-- `for (; depthA > depthB; --depthA) a = history_node(a).parent;`
unfoldable pub climb : List HistoryNode → ℕ → ℕ → ℕ
climb hs zero a = a
climb hs (suc n) a = climb hs n (parent_of hs a)

-- `while (a != b)`, both one step up.
unfoldable pub meet : List HistoryNode → ℕ → ℕ → ℕ → ℕ
meet hs zero a b = a
meet hs (suc fuel) a b = elim (a == b) [
  | true ↦ a
  | false ↦ meet hs fuel (parent_of hs a) (parent_of hs b)
]

unfoldable pub find_lowest_common_parent : List HistoryNode → ℕ → ℕ → ℕ
find_lowest_common_parent hs a b =
    let fuel = length hs in
    let depth_a = depth_of hs fuel a in
    let depth_b = depth_of hs fuel b in
    meet hs fuel (climb hs (depth_a - depth_b) a) (climb hs (depth_b - depth_a) b)

-- Undo from `id` up to the common parent.
unfoldable pub undo_up_to : ℕ → Buffer → ℕ → ℕ → Buffer
undo_up_to zero b parent id = b
undo_up_to (suc fuel) b parent id = elim (id == parent) [
  | true ↦ b
  | false ↦ undo_up_to fuel (revert_node b id) parent (parent_of b.history id)
]

-- buffer.history_node(node.parent).redo_child = id
abbrev pub set_redo_child : List HistoryNode → ℕ → ℕ → List HistoryNode
set_redo_child hs p id = set hs p (record (history_node hs p) { redo_child = some id })

-- apply_from_parent, recursing towards the common parent first.
unfoldable pub apply_from_parent : ℕ → Buffer → ℕ → ℕ → Buffer
apply_from_parent zero b parent id = b
apply_from_parent (suc fuel) b parent id = elim (id == parent) [
  | true ↦ b
  | false ↦
      let p = parent_of b.history id in
      let b' = apply_from_parent fuel b parent p in
      apply_modifications (record b' { history = set_redo_child b'.history p id })
        (history_node b'.history id).undo_group
]

unfoldable pub move_to : Buffer → ℕ → Result (Buffer × Bool)
move_to b id =
    if leb (next_history_id b) id
    then ok (b, false)
    else throw_if_read_only b (
        let b' = commit_undo_group b in
        let fuel = length b'.history in
        let parent = find_lowest_common_parent b'.history b'.history_id id in
        let undone = undo_up_to fuel b' parent b'.history_id in
        ok (record (apply_from_parent fuel undone parent id) { history_id = id }, true))

unfoldable pub is_modified : Buffer → Bool
is_modified b =
    b.file && (not (b.history_id == b.last_save_history_id) || not (is_empty b.current_undo_group))

unfoldable pub notify_saved : Buffer → Buffer
notify_saved b =
    let b' = if is_empty b.current_undo_group then b else commit_undo_group b in
    record b' { new_file = false; last_save_history_id = b'.history_id }
