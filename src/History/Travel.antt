-- ===== src/History/Travel.antt =====
-- Buffer::move_to (src/buffer.cc): from the current node up to a common parent, and down to any
-- other node.
use kakoune.Prelude.{
  ℕ, zero, suc, ◌≤◌, ◌<◌, ◌≡◌, refl, ap, ◌∙◌, true, false, List, some, arith, length, ◌==◌, ==_iff,
  leb,
}
use kakoune.Modification.{apply_group, inverses}
use kakoune.Buffer.{Buffer, Change, ok, history_node, apply_modifications}
use kakoune.Buffer.Fields.{apply_modifications_lem, with_lines, throw_if_writable}
use kakoune.History.{
  revert_node, parent_of, find_lowest_common_parent, undo_up_to, apply_from_parent, set_redo_child,
  move_to, commit_undo_group,
}
use kakoune.History.Invariant.{
  Snapshots, TreeOk, IsConsistent, TreeOk-set_redo, length-set_node, parent-set_redo,
}
use kakoune.History.Commit.{extended, commit-Commits}
use kakoune.History.Walk.{Rests, group_back, group_forth, parent_lt}
use kakoune.History.Ancestor.{
  IsAbove, self, up, above_lt, parent_of-some, find_lowest_common_parent-IsAbove,
}
use kakoune.History.Undo.{committed-Rests}

pub ne_test : (a b : ℕ) → a < b → (b == a) ≡ false
ne_test a b h = ground arith

pub revert_node_lem :
    (b : Buffer) (snap : Snapshots) (id p : ℕ)
    → TreeOk b.history snap
    → id < length b.history
    → (history_node b.history id).parent ≡ some p
    → b.lines ≡ snap id
    → (ch : List Change) × (revert_node b id ≡ with_lines b (snap p) ch)
unfolding revert_node
revert_node_lem b snap id p t lt q e =
    let group = inverses (history_node b.history id).undo_group in
    let (ch, r) = apply_modifications_lem b group in
    (
      ch,
      r
          ∙ ap (λ ls. with_lines b ls ch)
              (ap (λ ls. apply_group ls group) e ∙ group_back b.history snap t id p lt q),
    )

-- Undoing up to a node above gives that node's lines, and changes no other field but the log.
pub undo_up_to_lem :
    (fuel : ℕ) (b : Buffer) (snap : Snapshots) (top id : ℕ)
    → TreeOk b.history snap
    → IsAbove b.history top id
    → id < length b.history
    → id < fuel
    → b.lines ≡ snap id
    → (changes : List Change) × (undo_up_to fuel b top id ≡ with_lines b (snap top) changes)
unfolding undo_up_to
undo_up_to_lem zero b snap top id t k lt h e = absurd (omega arith)
undo_up_to_lem (suc fuel) b snap top id t self lt h e =
    (b.changes, rw ((==_iff top top).1 refl, undo_up_to) (ap (λ ls. with_lines b ls b.changes) e))
undo_up_to_lem (suc fuel) b snap top id t (up _ p q k) lt h e =
    let smaller = parent_lt b.history snap t id p lt q in
    let further = above_lt b.history snap t top p k (omega arith) in
    let (ch, r) = revert_node_lem b snap id p t lt q e in
    let (ch', s) =
      undo_up_to_lem fuel (with_lines b (snap p) ch) snap top p t k (omega arith) (omega arith)
        refl in
    (
      ch',
      rw (ne_test top id (omega arith), undo_up_to)
          (ap (λ x. undo_up_to fuel x top (parent_of b.history id)) r
            ∙ ap (undo_up_to fuel (with_lines b (snap p) ch) top)
                (parent_of-some b.history snap t id p q)
            ∙ s),
    )

-- A buffer that has come to a node from another: the tree is the same but for redo children.
pub record Arrives (b b' : Buffer) (snap : Snapshots) (id : ℕ) : Type 0 where
  pub tree : TreeOk b'.history snap
  pub here : b'.lines ≡ snap id
  pub same_length : length b'.history ≡ length b.history
  pub same_parents :
      (i : ℕ) → (history_node b'.history i).parent ≡ (history_node b.history i).parent
  pub recording : b'.no_undo ≡ b.no_undo
  pub pending : b'.current_undo_group ≡ b.current_undo_group

step_down :
    (b b' : Buffer) (snap : Snapshots) (id p : ℕ)
    → Arrives b b' snap p
    → id < length b.history
    → (history_node b.history id).parent ≡ some p
    → Arrives b
        (apply_modifications
          (record b' { history = set_redo_child b'.history p id })
          (history_node b'.history id).undo_group)
        snap
        id
step_down b b' snap id p a lt q =
    let lt' : id < length b'.history = omega (arith, a.same_length) in
    let q' = a.same_parents id ∙ q in
    let group = (history_node b'.history id).undo_group in
    let hs = set_redo_child b'.history p id in
    let (ch, r) = apply_modifications_lem (record b' { history = hs }) group in
    rw r (record {
      tree = TreeOk-set_redo b'.history snap p id a.tree lt' q';
      here =
          ap (λ ls. apply_group ls group) a.here ∙ group_forth b'.history snap a.tree id p lt' q';
      same_length = length-set_node b'.history p _ ∙ a.same_length;
      same_parents = λ i. parent-set_redo b'.history p id i ∙ a.same_parents i;
      recording = a.recording;
      pending = a.pending;
    })

pub apply_from_parent-Arrives :
    (fuel : ℕ) (b : Buffer) (snap : Snapshots) (top id : ℕ)
    → TreeOk b.history snap
    → IsAbove b.history top id
    → id < length b.history
    → id < fuel
    → b.lines ≡ snap top
    → Arrives b (apply_from_parent fuel b top id) snap id
unfolding apply_from_parent
apply_from_parent-Arrives zero b snap top id t k lt h e = absurd (omega arith)
apply_from_parent-Arrives (suc fuel) b snap top id t self lt h e =
    rw ((==_iff top top).1 refl, apply_from_parent)
      (record {
        tree = t;
        here = e;
        same_length = refl;
        same_parents = λ i. refl;
        recording = refl;
        pending = refl;
      })
apply_from_parent-Arrives (suc fuel) b snap top id t (up _ p q k) lt h e =
    let smaller = parent_lt b.history snap t id p lt q in
    let further = above_lt b.history snap t top p k (omega arith) in
    let a = apply_from_parent-Arrives fuel b snap top p t k (omega arith) (omega arith) e in
    rw (ne_test top id (omega arith), apply_from_parent)
      (rw (parent_of-some b.history snap t id p q)
        (step_down b (apply_from_parent fuel b top p) snap id p a lt q))

-- On a buffer that is consistent with the lines at its nodes and may be written, `move_to id` for
-- any node `id` succeeds: what is pending becomes a node, and the buffer then rests at `id`, with
-- the lines of that node; every node keeps its lines, and none is lost.
pub move_to_restores :
    (b : Buffer) (snap : Snapshots) (id : ℕ)
    → IsConsistent b snap
    → b.is_read_only ≡ false
    → id < length b.history
    → (b' : Buffer) × (move_to b id ≡ ok (b', true))
      × (b'.history_id ≡ id)
      × (b'.lines ≡ snap id)
      × Rests b' (extended (length b.history) b.lines snap)
      × (length b.history ≤ length b'.history)
unfolding move_to
move_to_restores b snap id c h lt =
    let snap' = extended (length b.history) b.lines snap in
    let b1 = commit_undo_group b in
    let hs = b1.history in
    let commits = commit-Commits b snap c in
    let r = committed-Rests b snap c in
    let lt' : id < length hs = omega (arith, commits.grows) in
    let top = find_lowest_common_parent hs b1.history_id id in
    let (u, v) = find_lowest_common_parent-IsAbove hs snap' r.tree b1.history_id id r.current lt' in
    let (ch, e) =
      undo_up_to_lem (length hs) b1 snap' top b1.history_id r.tree u r.current r.current r.here in
    let b2 = with_lines b1 (snap' top) ch in
    let a = apply_from_parent-Arrives (length hs) b2 snap' top id r.tree v lt' lt' refl in
    let b3 = record (apply_from_parent (length hs) b2 top id) { history_id = id } in
    let known : leb (length b.history) id ≡ false = ground arith in
    (
      b3,
      rw known (
          throw_if_writable b _ h
          ∙ ap (λ x. ok (record (apply_from_parent (length hs) x top id) { history_id = id }, true))
              e),
      refl,
      a.here ∙ commits.old_nodes id lt,
      record {
        recording = a.recording ∙ r.recording;
        tree = a.tree;
        current = omega (arith, lt', a.same_length);
        none_pending = a.pending ∙ r.none_pending;
        here = a.here;
      },
      omega (arith, commits.grows, a.same_length),
    )

-- Other ids are refused, and change nothing.
pub move_to_unknown : (b : Buffer) (id : ℕ) → length b.history ≤ id → move_to b id ≡ ok (b, false)
unfolding move_to
move_to_unknown b id h = let unknown : leb (length b.history) id ≡ true = ground arith in rw unknown
