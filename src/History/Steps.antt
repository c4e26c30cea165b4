-- ===== src/History/Steps.antt =====
-- Each public method of class Buffer (src/buffer.cc) that returns keeps a session going.
use kakoune.Prelude.{
  ℕ, leb, ◌≤◌, ◌<◌, ◌≡◌, ◌≢◌, refl, sym, ap, subst, ◌∙◌, ◌⊎◌, inl, inr, Bool, false, List, [], ◌∷◌,
  arith, length, Bool-cases,
}
use kakoune.Coord.{BufferCoord}
use kakoune.Lines.{Bytes}
use kakoune.Lines.View.{Valid}
use kakoune.Modification.{Modification}
use kakoune.Buffer.{Buffer, ok, insert, erase}
use kakoune.Buffer.Text.{erase-text}
use kakoune.Buffer.Fields.{writable_of_ok}
use kakoune.History.{commit_undo_group, undo, redo, move_to}
use kakoune.History.Invariant.{Snapshots, IsConsistent}
use kakoune.History.Commit.{extended, commit-Commits}
use kakoune.History.Walk.{Rests, Rests-IsConsistent, IsConsistent-Rests}
use kakoune.History.Edits.{insert-IsConsistent, erase-IsConsistent, IsConsistent-WellFormed}
use kakoune.History.Undo.{committed-Rests, undo_restores, redo_restores, redo_pending}
use kakoune.History.Travel.{move_to_restores, move_to_unknown}
use kakoune.History.Session.{
  Step, inserting, erasing, committing, undoing, redoing, moving, Reach, here, next, SessionOk,
  Goes, same_buffer, rest-Goes, stay-Goes, inserted_some, edit-Goes,
}

insert-Goes :
    (b b' : Buffer) (snap : Snapshots) (c : BufferCoord) (content : Bytes)
    (r : BufferCoord × BufferCoord)
    → SessionOk b snap
    → Valid b.lines c
    → insert b c content ≡ ok (b', r)
    → b.is_read_only ≡ false
    → Goes b b' snap
insert-Goes b b' snap c content r s v e h =
    let (b1, range, q, k, hist) = insert-IsConsistent b snap c content s.consistent v h in
    let same = same_buffer q e in
    edit-Goes b b' snap s (subst (λ x. IsConsistent x snap) same k)
      (inserted_some b b' c content r (IsConsistent-WellFormed b snap s.consistent) v h s.some_lines
        e)
      (ap (λ (x : Buffer). x.history) (sym same) ∙ hist)

erase-Goes :
    (b b' : Buffer) (snap : Snapshots) (begin end r : BufferCoord)
    → SessionOk b snap
    → Valid b.lines begin
    → Valid b.lines end
    → erase b begin end ≡ ok (b', r)
    → b.is_read_only ≡ false
    → Goes b b' snap
erase-Goes b b' snap begin end r s vb ve e h =
    let (b1, q, k, hist) = erase-IsConsistent b snap begin end s.consistent s.some_lines vb ve h in
    let (b2, q', _, _, left) =
      erase-text b begin end (IsConsistent-WellFormed b snap s.consistent) s.some_lines vb ve h in
    let same = same_buffer q e in
    edit-Goes b b' snap s (subst (λ x. IsConsistent x snap) same k)
      (subst (λ x. 0 < length x.lines) (same_buffer q' e) left)
      (ap (λ (x : Buffer). x.history) (sym same) ∙ hist)

rest_result-Goes :
    (b b1 b' : Buffer) (snap : Snapshots)
    → b1 ≡ b'
    → SessionOk b snap
    → Rests b1 (extended (length b.history) b.lines snap)
    → length b.history ≤ length b1.history
    → Goes b b' snap
rest_result-Goes b b1 b' snap same s r grows =
    subst (λ x. Goes b x snap) same (rest-Goes b b1 snap s r grows)

redo-Goes :
    (b b' : Buffer) (snap : Snapshots) (count : ℕ) (moved : Bool)
    → SessionOk b snap
    → redo b count ≡ ok (b', moved)
    → b.is_read_only ≡ false
    → Goes b b' snap
redo-Goes b b' snap count moved s e h = elim (pending-cases b.current_undo_group) [
  | inl nothing ↦
      let (b1, _, q, _, _, r, grows) =
        redo_restores b snap count (IsConsistent-Rests b snap s.consistent nothing) h in
      subst (λ x. Goes b x snap) (same_buffer q e)
        (record {
          snap' = snap;
          session = record {
            consistent = Rests-IsConsistent b1 snap r;
            some_lines = subst (λ ls. 0 < length ls) (sym r.here) (s.some_snap b1.history_id);
            some_snap = s.some_snap;
          };
          kept = λ i lt. refl;
          grows = grows;
        })
  | inr ne ↦
      subst (λ x. Goes b x snap) (same_buffer (redo_pending b count h ne) e) (stay-Goes b snap s)
]
  where
    pending-cases : (g : List Modification) → (g ≡ []) ⊎ (g ≢ [])
    pending-cases [] = inl refl
    pending-cases (m ∷ ms) = inr (λ q. cc)

move_to-Goes :
    (b b' : Buffer) (snap : Snapshots) (id : ℕ) (moved : Bool)
    → SessionOk b snap
    → move_to b id ≡ ok (b', moved)
    → Goes b b' snap
unfolding move_to
move_to-Goes b b' snap id moved s e = elim (Bool-cases (leb (length b.history) id)) [
  | inl unknown ↦
      subst (λ x. Goes b x snap) (same_buffer (move_to_unknown b id (ground arith)) e)
        (stay-Goes b snap s)
  | inr known ↦
      let h = writable_of_ok b _ (b', moved) (rw known at e) in
      let (b1, q, _, _, r, grows) = move_to_restores b snap id s.consistent h (ground arith) in
      rest_result-Goes b b1 b' snap (same_buffer q e) s r grows
]

Step-Goes : (b b' : Buffer) (snap : Snapshots) → SessionOk b snap → Step b b' → Goes b b' snap
unfolding insert erase undo redo
Step-Goes b b' snap s (inserting c content r v e) =
    insert-Goes b b' snap c content r s v e (writable_of_ok b _ (b', r) e)
Step-Goes b b' snap s (erasing begin end r vb ve e) =
    erase-Goes b b' snap begin end r s vb ve e (writable_of_ok b _ (b', r) e)
Step-Goes b b' snap s (committing e) =
    rest_result-Goes b (commit_undo_group b) b' snap (sym e) s (committed-Rests b snap s.consistent)
      (commit-Commits b snap s.consistent).grows
Step-Goes b b' snap s (undoing count moved e) =
    let (b1, _, q, _, _, r, grows) =
      undo_restores b snap count s.consistent (writable_of_ok b _ (b', moved) e) in
    rest_result-Goes b b1 b' snap (same_buffer q e) s r grows
Step-Goes b b' snap s (redoing count moved e) =
    redo-Goes b b' snap count moved s e (writable_of_ok b _ (b', moved) e)
Step-Goes b b' snap s (moving id moved e) = move_to-Goes b b' snap id moved s e

-- Any session keeps the nodes and their lines.
pub Reach-Goes : (b b' : Buffer) (snap : Snapshots) → SessionOk b snap → Reach b b' → Goes b b' snap
Reach-Goes b b' snap s here = stay-Goes b snap s
Reach-Goes b b' snap s (next {b' = b1} r st) =
    let g = Reach-Goes b b1 snap s r in
    let k = Step-Goes b1 b' g.snap' g.session st in
    record {
      snap' = k.snap';
      session = k.session;
      kept = λ i lt. k.kept i (omega (arith, lt, g.grows)) ∙ g.kept i lt;
      grows = omega (arith, g.grows, k.grows);
    }
