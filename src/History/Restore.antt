-- ===== src/History/Restore.antt =====
-- What undo, redo and move_to (src/buffer.cc) give back after a session.
use kakoune.Prelude.{
  ℕ, zero, suc, ◌<◌, ◌≡◌, ◌≢◌, refl, sym, ap, subst, ◌∙◌, inl, inr, Bool, true, false, List, [],
  ◌∷◌, ◌++◌, none, some, arith, length, set, length-append, Bool-cases, ==_iff, not, ◌&&◌, ◌||◌,
  is_empty, ◌==◌,
}
use kakoune.Lines.{BufferLines}
use kakoune.Lines.WellFormed.{WellFormed}
use kakoune.Buffer.{Buffer, Flags, HistoryNode, Result, ok, new_buffer, history_node}
use kakoune.Buffer.Fields.{throw_if_writable, apply_modifications_lem}
use kakoune.Modification.{Modification, Leads, inverses}
use kakoune.History.{
  commit_undo_group, revert_node, undo_loop, undo, redo, move_to, notify_saved, is_modified,
}
use kakoune.History.Invariant.{Snapshots, IsConsistent, node-append_last, parent-set_redo}
use kakoune.History.Commit.{
  extended, extended_old, extended_new, commit_cases, commit_node, committed_buffer, commit-Commits,
}
use kakoune.History.Walk.{Rests, ancestor, descendant, undo_loop-Rests}
use kakoune.History.Edits.{IsConsistent-WellFormed}
use kakoune.History.Undo.{committed-Rests, redo_restores}
use kakoune.History.Travel.{move_to_restores}
use kakoune.History.Session.{Reach, SessionOk, new_buffer-SessionOk}
use kakoune.History.Steps.{Reach-Goes}

-- From a buffer that is consistent with its tree, where neither it nor a node is empty, any
-- sequence of calls of insert and erase at valid coordinates, commit_undo_group, undo, redo and
-- move_to that return leaves each node there was within reach: `move_to` it succeeds on the
-- buffer reached, where that may be written, and gives back exactly the lines that the node had.
pub session_restores :
    (b b' : Buffer) (snap : Snapshots) (id : ℕ)
    → SessionOk b snap
    → Reach b b'
    → b'.is_read_only ≡ false
    → id < length b.history
    → (b'' : Buffer) × (move_to b' id ≡ ok (b'', true)) × (b''.lines ≡ snap id)
session_restores b b' snap id s reach h lt =
    let g = Reach-Goes b b' snap s reach in
    let (b'', q, _, lines, _, _) =
      move_to_restores b' g.snap' id g.session.consistent h (omega (arith, lt, g.grows)) in
    (b'', q, lines ∙ g.kept id lt)

-- A session of such calls that starts from a new buffer that records undo data, with well-formed
-- lines, at least one, has at each point well-formed lines, at least one, and `move_to 0` gives
-- back the lines it started with; the buffer reached is one that may be written.
pub new_buffer_session :
    (flags : Flags) (lines : BufferLines) (b : Buffer)
    → flags.no_undo ≡ false
    → WellFormed lines
    → 0 < length lines
    → Reach (new_buffer flags lines) b
    → b.is_read_only ≡ false
    → WellFormed b.lines
      × (0 < length b.lines)
      × ((b' : Buffer) × (move_to b 0 ≡ ok (b', true)) × (b'.lines ≡ lines))
unfolding new_buffer
new_buffer_session flags lines b undo w ne reach h =
    let s = new_buffer-SessionOk flags lines undo w ne in
    let g = Reach-Goes (new_buffer flags lines) b (λ i. lines) s reach in
    (
      IsConsistent-WellFormed b g.snap' g.session.consistent,
      g.session.some_lines,
      session_restores (new_buffer flags lines) b (λ i. lines) 0 s reach h (omega arith),
    )

node-set :
    (hs : List HistoryNode) (p : ℕ) (n : HistoryNode)
    → p < length hs
    → history_node (set hs p n) p ≡ n
node-set [] p n h = absurd (omega arith)
node-set (x ∷ hs) zero n h = refl
node-set (x ∷ hs) (suc p) n h = node-set hs p n (omega arith)

-- The new node of a commit, and the redo child that leads to it.
module _ (b : Buffer) (lt : b.history_id < length b.history) where
  abbrev pushed : List HistoryNode
  pushed = b.history ++ commit_node b.history_id b.current_undo_group ∷ []

  committed_parent :
      (history_node (committed_buffer b).history (length b.history)).parent ≡ some b.history_id
  committed_parent =
      parent-set_redo pushed b.history_id (length b.history) (length b.history)
      ∙ ap (λ n. n.parent) (node-append_last b.history _ (length b.history) refl)

  committed_child :
      (history_node (committed_buffer b).history b.history_id).redo_child ≡ some (length b.history)
  committed_child =
      ap (λ n. n.redo_child)
        (node-set pushed b.history_id _ (
          omega (
            arith,
            lt,
            length-append b.history (commit_node b.history_id b.current_undo_group ∷ []),
          )))

-- One step of the undo loop.
pub undo_loop-writable :
    (b : Buffer) (p : ℕ)
    → (history_node b.history b.history_id).parent ≡ some p
    → (undo_loop 1 b).is_read_only ≡ b.is_read_only
unfolding undo_loop revert_node
undo_loop-writable b p e =
    let (ch, q) =
      apply_modifications_lem b (inverses (history_node b.history b.history_id).undo_group) in
    rw (e, undo_loop) (ap (λ (x : Buffer). x.is_read_only) q)

ancestor-one :
    (hs : List HistoryNode) (i p : ℕ) → (history_node hs i).parent ≡ some p → ancestor hs 1 i ≡ p
unfolding ancestor
ancestor-one hs i p e = rw (e, ancestor)

descendant-one :
    (hs : List HistoryNode) (i c : ℕ)
    → (history_node hs i).redo_child ≡ some c
    → descendant hs 1 i ≡ c
unfolding descendant
descendant-one hs i c e = rw (e, descendant)

abbrev undone : Buffer → Result (Buffer × Bool)
undone b = elim (history_node b.history b.history_id).parent [
  | none ↦ ok (b, false)
  | some p ↦ ok (undo_loop 1 b, true)
]

-- On a consistent buffer that may be written, with modifications pending, `undo 1` succeeds and
-- takes the lines back to those of the current node, and `redo 1` then succeeds and brings the
-- lines back that were there before.
pub undo-redo :
    (b : Buffer) (snap : Snapshots)
    → IsConsistent b snap
    → b.is_read_only ≡ false
    → b.current_undo_group ≢ []
    → (b1 b2 : Buffer) × (moved : Bool) × (undo b 1 ≡ ok (b1, true))
      × (b1.lines ≡ snap b.history_id)
      × (redo b1 1 ≡ ok (b2, moved))
      × (b2.lines ≡ b.lines)
unfolding undo
undo-redo b snap c h pending = elim (commit_cases b c.recording) [
  | inl (nothing, _) ↦ absurd (pending nothing)
  | inr e ↦
      let n = length b.history in
      let bc = committed_buffer b in
      let snap' = extended n b.lines snap in
      let r = subst (λ x. Rests x snap') e (committed-Rests b snap c) in
      let parent = committed_parent b c.current in
      let child = committed_child b c.current in
      let (r1, same, id) = undo_loop-Rests 1 bc snap' r in
      let at = id ∙ ancestor-one bc.history n b.history_id parent in
      let b1 = undo_loop 1 bc in
      let (b2, moved, q, _, lines, _, _) =
        redo_restores b1 snap' 1 r1 (undo_loop-writable bc b.history_id parent ∙ h) in
      let down =
        ap (λ hs. descendant hs 1 b1.history_id) same
        ∙ ap (descendant bc.history 1) at
        ∙ descendant-one bc.history b.history_id n child in
      (
        b1,
        b2,
        moved,
        throw_if_writable b _ h ∙ ap undone e ∙ rw (parent, undone) refl,
        r1.here ∙ ap snap' at ∙ extended_old n b.lines snap b.history_id c.current,
        q,
        lines ∙ ap snap' down ∙ extended_new n b.lines snap,
      )
]

saved-cases : (i j : ℕ) (y : Bool) → (not (i == j) || not y) ≡ false → (i ≡ j) × (y ≡ true)
saved-cases i j y h = (ground arith, ground arith)

is_empty-nil : (ms : List Modification) → is_empty ms ≡ true → ms ≡ []
is_empty-nil [] h = refl
is_empty-nil (m ∷ ms) h = cc

is_modified-lines :
    (b : Buffer) (snap : Snapshots)
    → IsConsistent b snap
    → b.file ≡ true
    → is_modified b ≡ false
    → b.lines ≡ snap b.last_save_history_id
unfolding is_modified
is_modified-lines b snap c file h =
    let test =
      ap
        (λ x.
          x
          && (not (b.history_id == b.last_save_history_id) || not (is_empty b.current_undo_group)))
        (sym file)
      ∙ h in
    let (at, nothing) =
      saved-cases b.history_id b.last_save_history_id (is_empty b.current_undo_group) test in
    let group = is_empty-nil b.current_undo_group nothing in
    sym (subst (λ g. Leads (snap b.history_id) g b.lines) group c.pending) ∙ ap snap at

unmodified :
    (b : Buffer)
    → b.current_undo_group ≡ []
    → is_modified (record b { new_file = false; last_save_history_id = b.history_id }) ≡ false
unfolding is_modified
unmodified b h = rw (h, (==_iff b.history_id b.history_id).1 refl) ground arith

-- On a consistent buffer of a file: where is_modified is false, the lines are those of the node
-- that was saved last; and after notify_saved it is false, and the lines are what they were.
pub notify_saved-is_modified :
    (b : Buffer) (snap : Snapshots)
    → IsConsistent b snap
    → b.file ≡ true
    → (is_modified b ≡ false → b.lines ≡ snap b.last_save_history_id)
      × (is_modified (notify_saved b) ≡ false)
      × ((notify_saved b).lines ≡ b.lines)
unfolding notify_saved
notify_saved-is_modified b snap c file = elim (Bool-cases (is_empty b.current_undo_group)) [
  | inl e ↦ (
    is_modified-lines b snap c file,
    rw e (unmodified b (is_empty-nil b.current_undo_group e)),
    rw e,
  )
  | inr e ↦
      let k = commit-Commits b snap c in
      (
        is_modified-lines b snap c file,
        rw e (unmodified (commit_undo_group b) k.none_pending),
        rw e k.same_lines,
      )
]
