-- ===== src/Changes/Moves.antt =====
-- Buffer::move_to (src/buffer.cc) keeps the log of changes true.
use kakoune.Prelude.{
  ℕ, zero, suc, ◌<◌, ◌≡◌, refl, sym, subst, ◌∙◌, Bool, true, false, arith, length, some, ==_iff,
  leb,
}
use kakoune.Lines.WellFormed.{WellFormed}
use kakoune.Modification.{Leads}
use kakoune.Buffer.{Buffer, ok, history_node, apply_modifications}
use kakoune.Buffer.Fields.{throw_if_writable, with_lines}
use kakoune.History.{
  commit_undo_group, undo_up_to, move_to, apply_from_parent, set_redo_child, parent_of,
  find_lowest_common_parent,
}
use kakoune.History.Invariant.{Snapshots, TreeOk, IsConsistent}
use kakoune.History.Commit.{extended, commit-Commits}
use kakoune.History.Walk.{parent_lt, group-Leads}
use kakoune.History.Ancestor.{
  IsAbove, self, up, above_lt, parent_of-some, find_lowest_common_parent-IsAbove,
}
use kakoune.History.Undo.{committed-Rests}
use kakoune.History.Travel.{
  revert_node_lem, undo_up_to_lem, Arrives, apply_from_parent-Arrives, ne_test,
}
use kakoune.History.Session.{same_buffer}
use kakoune.Changes.Log.{Extends, Extends-same, Extends-trans}
use kakoune.Changes.Groups.{
  Extends-moved, apply_modifications-Extends, commit-Extends, revert_node-Extends,
}

undo_up_to-Extends :
    (fuel : ℕ) (b : Buffer) (snap : Snapshots) (top id : ℕ)
    → TreeOk b.history snap
    → IsAbove b.history top id
    → id < length b.history
    → b.lines ≡ snap id
    → Extends b (undo_up_to fuel b top id)
unfolding undo_up_to
undo_up_to-Extends zero b snap top id t k lt e = Extends-same b b refl refl
undo_up_to-Extends (suc fuel) b snap top id t self lt e =
    rw ((==_iff top top).1 refl, undo_up_to) (Extends-same b b refl refl)
undo_up_to-Extends (suc fuel) b snap top id t (up _ p q k) lt e =
    let smaller = parent_lt b.history snap t id p lt q in
    let further = above_lt b.history snap t top p k (omega arith) in
    let (ch, r) = revert_node_lem b snap id p t lt q e in
    let b1 = with_lines b (snap p) ch in
    let first = subst (Extends b) r (revert_node-Extends b snap id p t lt q e) in
    rw (ne_test top id (omega arith), undo_up_to)
      (subst (λ x. Extends b (undo_up_to fuel x top (parent_of b.history id))) (sym r)
        (subst (λ i. Extends b (undo_up_to fuel b1 top i))
          (sym (parent_of-some b.history snap t id p q))
          (Extends-trans b b1 _ first
            (undo_up_to-Extends fuel b1 snap top p t k (omega arith) refl))))

step_down-Extends :
    (b b' : Buffer) (snap : Snapshots) (id p : ℕ)
    → Arrives b b' snap p
    → id < length b.history
    → (history_node b.history id).parent ≡ some p
    → Extends b b'
    → Extends b (
        apply_modifications
          (record b' { history = set_redo_child b'.history p id })
          (history_node b'.history id).undo_group)
step_down-Extends b b' snap id p a lt q e =
    let lt' : id < length b'.history = omega (arith, a.same_length) in
    let q' = a.same_parents id ∙ q in
    let group = (history_node b'.history id).undo_group in
    let moved = record b' { history = set_redo_child b'.history p id } in
    let smaller = parent_lt b'.history snap a.tree id p lt' q' in
    Extends-trans b b' _ e (
      Extends-trans b' moved _ (Extends-same b' moved refl refl) (
        apply_modifications-Extends moved group (snap id)
          (subst WellFormed (sym a.here) (a.tree.well_formed p (omega arith)))
          (subst (λ ls. Leads ls group (snap id)) (sym a.here)
            (group-Leads b'.history snap a.tree id p lt' q'))))

apply_from_parent-Extends :
    (fuel : ℕ) (b : Buffer) (snap : Snapshots) (top id : ℕ)
    → TreeOk b.history snap
    → IsAbove b.history top id
    → id < length b.history
    → id < fuel
    → b.lines ≡ snap top
    → Extends b (apply_from_parent fuel b top id)
unfolding apply_from_parent
apply_from_parent-Extends zero b snap top id t k lt h e = absurd (omega arith)
apply_from_parent-Extends (suc fuel) b snap top id t self lt h e =
    rw ((==_iff top top).1 refl, apply_from_parent) (Extends-same b b refl refl)
apply_from_parent-Extends (suc fuel) b snap top id t (up _ p q k) lt h e =
    let smaller = parent_lt b.history snap t id p lt q in
    let further = above_lt b.history snap t top p k (omega arith) in
    let a = apply_from_parent-Arrives fuel b snap top p t k (omega arith) (omega arith) e in
    rw (ne_test top id (omega arith), apply_from_parent)
      (rw (parent_of-some b.history snap t id p q) (
        step_down-Extends b (apply_from_parent fuel b top p) snap id p a lt q
          (apply_from_parent-Extends fuel b snap top p t k (omega arith) (omega arith) e)))

pub move_to-Extends :
    (b b' : Buffer) (snap : Snapshots) (id : ℕ) (moved : Bool)
    → IsConsistent b snap
    → b.is_read_only ≡ false
    → id < length b.history
    → move_to b id ≡ ok (b', moved)
    → Extends b b'
unfolding move_to
move_to-Extends b b' snap id moved c h lt e =
    let b1 = commit_undo_group b in
    let n = length b1.history in
    let snap' = extended (length b.history) b.lines snap in
    let r = committed-Rests b snap c in
    let grows = (commit-Commits b snap c).grows in
    let lt' : id < n = omega (arith, lt, grows) in
    let top = find_lowest_common_parent b1.history b1.history_id id in
    let (u, v) =
      find_lowest_common_parent-IsAbove b1.history snap' r.tree b1.history_id id r.current lt' in
    let undone = undo_up_to n b1 top b1.history_id in
    let (ch, q) = undo_up_to_lem n b1 snap' top b1.history_id r.tree u r.current r.current r.here in
    let b2 = with_lines b1 (snap' top) ch in
    let arrived = record (apply_from_parent n undone top id) { history_id = id } in
    let known : leb (length b.history) id ≡ false = ground arith in
    let result : move_to b id ≡ ok (arrived, true) = rw known (throw_if_writable b _ h) in
    let down =
      subst (λ x. Extends x (apply_from_parent n x top id)) (sym q)
        (apply_from_parent-Extends n b2 snap' top id r.tree v lt' lt' refl) in
    subst (Extends b) (same_buffer result e) (
      Extends-trans b b1 arrived (commit-Extends b) (
        Extends-trans b1 undone arrived
          (undo_up_to-Extends n b1 snap' top b1.history_id r.tree u r.current r.here)
          (Extends-moved undone (apply_from_parent n undone top id) arrived down refl refl)))
