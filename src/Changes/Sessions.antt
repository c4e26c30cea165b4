-- ===== src/Changes/Sessions.antt =====
-- Each public method of class Buffer (src/buffer.cc) keeps the log of changes true, and so does any
-- sequence of calls.
use kakoune.Prelude.{
  ℕ, ◌<◌, ◌≡◌, ◌≢◌, refl, sym, ap, subst, ◌∙◌, ◌⊎◌, inl, inr, Bool, true, false, List, [], ◌∷◌,
  ◌++◌, arith, length, drop, drop-length_append, length-append, Option-cases, Bool-cases, is_empty,
  if◌then◌else◌, ltb, leb,
}
use kakoune.Coord.{BufferCoord, coord_le, coord_le_differ, coord_lt}
use kakoune.Lines.{Bytes, string}
use kakoune.Lines.View.{Valid, text_after}
use kakoune.Lines.WellFormed.{WellFormed}
use kakoune.Modification.{inserts, erases, Modification}
use kakoune.Buffer.{
  Buffer, Change, ok, history_node, insert, erase, erase_end, real_content, record_modification,
}
use kakoune.Buffer.Fields.{throw_if_writable, writable_of_ok, do_erase_some}
use kakoune.Buffer.Edit.{real_content-ne-nil, real_content_eol, removal-IsRange, erase_end_lem}
use kakoune.Buffer.Text.{erased_buffer, erase_result, erase_nothing}
use kakoune.History.{commit_undo_group, undo_loop, redo_loop, undo, redo, move_to}
use kakoune.History.Invariant.{Snapshots, IsConsistent}
use kakoune.History.Walk.{IsConsistent-Rests}
use kakoune.History.Edits.{IsConsistent-WellFormed}
use kakoune.History.Undo.{committed-Rests, redo_pending}
use kakoune.History.Travel.{move_to_unknown}
use kakoune.History.Session.{
  Step, inserting, erasing, committing, undoing, redoing, moving, Reach, here, next, SessionOk,
  same_buffer,
}
use kakoune.History.Steps.{Reach-Goes}
use kakoune.Changes.{timestamp, changes_since, new_tracker, update_since, get_new_coord}
use kakoune.Changes.Track.{Logged, Forward, update_all_lem}
use kakoune.Changes.Log.{Extends, Extends-same, Extends-trans, do_insert-Extends, do_erase-Extends}
use kakoune.Changes.Groups.{commit-Extends, undo_loop-Extends, redo_loop-Extends}
use kakoune.Changes.Moves.{move_to-Extends}

insert-Extends :
    (b b' : Buffer) (c : BufferCoord) (content : Bytes) (r : BufferCoord × BufferCoord)
    → WellFormed b.lines
    → Valid b.lines c
    → b.is_read_only ≡ false
    → insert b c content ≡ ok (b', r)
    → Extends b b'
unfolding insert
insert-Extends b b' c [] r w v h e =
    subst (Extends b) (same_buffer (throw_if_writable b _ h) e) (Extends-same b b refl refl)
insert-Extends b b' c (x ∷ xs) r w v h e =
    let nonempty : ◌≢◌ {A = Bytes} (x ∷ xs) [] = λ q. cc in
    let real = real_content b.lines c (x ∷ xs) in
    let noted = record_modification inserts c real b in
    subst (Extends b) (same_buffer (throw_if_writable b _ h) e) (
      Extends-trans b noted _ (Extends-same b noted refl refl) (
        do_insert-Extends noted c real w v (real_content-ne-nil b.lines c (x ∷ xs) nonempty)
          (real_content_eol b.lines c (x ∷ xs) v)))

erase-Extends :
    (b b' : Buffer) (begin end r : BufferCoord)
    → WellFormed b.lines
    → 0 < length b.lines
    → Valid b.lines begin
    → Valid b.lines end
    → b.is_read_only ≡ false
    → erase b begin end ≡ ok (b', r)
    → Extends b b'
erase-Extends b b' begin end r w ne vb ve h e =
    elim (Bool-cases (coord_le (erase_end b.lines begin end) begin)) [
      | inl t ↦
          subst (Extends b) (same_buffer (erase_nothing b begin end h t) e)
            (Extends-same b b refl refl)
      | inr t ↦
          let e' = erase_end b.lines begin end in
          let noted = record_modification erases begin (string b.lines begin e') b in
          let erased = erased_buffer b begin e' in
          subst (Extends b) (same_buffer (erase_result b begin end h t) e) (
            Extends-trans b noted erased (Extends-same b noted refl refl) (
              subst (Extends noted)
                (ap (λ x. x.0) (do_erase_some noted begin e' (coord_le_differ e' begin t)))
                (do_erase-Extends noted begin e' w vb (erase_end_lem b.lines begin end w vb ve ne).0
                  (removal-IsRange b.lines begin end w vb ve ne t))))
    ]

pending-cases : (g : List Modification) → (g ≡ []) ⊎ (g ≢ [])
pending-cases [] = inl refl
pending-cases (m ∷ ms) = inr (λ q. cc)

move_to_writable :
    (b b' : Buffer) (id : ℕ) (moved : Bool)
    → leb (length b.history) id ≡ false
    → move_to b id ≡ ok (b', moved)
    → b.is_read_only ≡ false
unfolding move_to
move_to_writable b b' id moved known e = writable_of_ok b _ (b', moved) (rw known at e)

undo-Extends :
    (b b' : Buffer) (snap : Snapshots) (count : ℕ) (moved : Bool)
    → IsConsistent b snap
    → b.is_read_only ≡ false
    → undo b count ≡ ok (b', moved)
    → Extends b b'
unfolding undo
undo-Extends b b' snap count moved c h e =
    let b1 = commit_undo_group b in
    elim (Option-cases (history_node b1.history b1.history_id).parent) [
      | inl q ↦
          let result : undo b count ≡ ok (b1, false) = throw_if_writable b _ h ∙ rw q in
          subst (Extends b) (same_buffer result e) (commit-Extends b)
      | inr (p, q) ↦
          let result : undo b count ≡ ok (undo_loop count b1, true) =
            throw_if_writable b _ h ∙ rw q in
          subst (Extends b) (same_buffer result e) (
            Extends-trans b b1 (undo_loop count b1) (commit-Extends b)
              (undo_loop-Extends count b1 _ (committed-Rests b snap c)))
    ]

redo-Extends :
    (b b' : Buffer) (snap : Snapshots) (count : ℕ) (moved : Bool)
    → IsConsistent b snap
    → b.is_read_only ≡ false
    → redo b count ≡ ok (b', moved)
    → Extends b b'
unfolding redo
redo-Extends b b' snap count moved c h e = elim (pending-cases b.current_undo_group) [
  | inr ne ↦
      subst (Extends b) (same_buffer (redo_pending b count h ne) e) (Extends-same b b refl refl)
  | inl nothing ↦ elim (Option-cases (history_node b.history b.history_id).redo_child) [
    | inl q ↦
        let result : redo b count ≡ ok (b, false) = throw_if_writable b _ h ∙ rw q in
        subst (Extends b) (same_buffer result e) (Extends-same b b refl refl)
    | inr (i, q) ↦
        let result : redo b count ≡ ok (redo_loop count b, true) =
          throw_if_writable b _ h
          ∙ rw q (
              ap (λ g. if is_empty g then ok (redo_loop count b, true) else ok (b, false))
                nothing) in
        subst (Extends b) (same_buffer result e)
          (redo_loop-Extends count b snap (IsConsistent-Rests b snap c nothing))
  ]
]

Step-Extends : (b b' : Buffer) (snap : Snapshots) → SessionOk b snap → Step b b' → Extends b b'
unfolding insert erase undo redo
Step-Extends b b' snap s (inserting c content r v e) =
    insert-Extends b b' c content r (IsConsistent-WellFormed b snap s.consistent) v
      (writable_of_ok b _ (b', r) e) e
Step-Extends b b' snap s (erasing begin end r vb ve e) =
    erase-Extends b b' begin end r (IsConsistent-WellFormed b snap s.consistent) s.some_lines vb ve
      (writable_of_ok b _ (b', r) e) e
Step-Extends b b' snap s (committing e) = subst (Extends b) (sym e) (commit-Extends b)
Step-Extends b b' snap s (undoing count moved e) =
    undo-Extends b b' snap count moved s.consistent (writable_of_ok b _ (b', moved) e) e
Step-Extends b b' snap s (redoing count moved e) =
    redo-Extends b b' snap count moved s.consistent (writable_of_ok b _ (b', moved) e) e
Step-Extends b b' snap s (moving id moved e) = moves
  where
    moves : Extends b b'
    moves = elim (Bool-cases (leb (length b.history) id)) [
      | inl unknown ↦
          subst (Extends b) (same_buffer (move_to_unknown b id (ground arith)) e)
            (Extends-same b b refl refl)
      | inr known ↦
          move_to-Extends b b' snap id moved s.consistent (move_to_writable b b' id moved known e)
            (ground arith) e
    ]

Reach-Extends : (b b' : Buffer) (snap : Snapshots) → SessionOk b snap → Reach b b' → Extends b b'
Reach-Extends b b' snap s here = Extends-same b b refl refl
Reach-Extends b b' snap s (next {b' = b1} r st) =
    let g = Reach-Goes b b1 snap s r in
    Extends-trans b b1 b' (Reach-Extends b b1 snap s r) (Step-Extends b1 b' g.snap' g.session st)

drop_grown :
    (b b' : Buffer) (more : List Change)
    → b'.changes ≡ b.changes ++ more
    → changes_since b' (timestamp b) ≡ more
unfolding changes_since
drop_grown b b' [] e =
    let none_more : ltb (length b.changes) (length b'.changes) ≡ false =
      ground (arith, ap length e, length-append b.changes []) in
    rw none_more
drop_grown b b' (c ∷ cs) e =
    let some_more : ltb (length b.changes) (length b'.changes) ≡ true =
      ground (arith, ap length e, length-append b.changes (c ∷ cs)) in
    rw some_more (ap (drop (length b.changes)) e ∙ drop-length_append b.changes (c ∷ cs))

-- From a buffer that is consistent with its tree, where neither it nor a node is empty, after any
-- sequence of calls of insert and erase at valid coordinates, commit_undo_group, undo, redo and
-- move_to that return, changes_since gives, for the timestamp before, changes that describe one
-- after the other how the lines became what they are.
pub changes_since-Logged :
    (b b' : Buffer) (snap : Snapshots)
    → SessionOk b snap
    → Reach b b'
    → Logged b.lines (changes_since b' (timestamp b)) b'.lines
changes_since-Logged b b' snap s r =
    let e = Reach-Extends b b' snap s r in
    subst (λ cs. Logged b.lines cs b'.lines) (sym (drop_grown b b' e.more e.appended)) e.logged

-- A tracker that is fed with the changes since a timestamp of such a session, if each is not before
-- the position of the one before it, takes any position that was valid then and is not before its
-- old position to a valid position with the same text behind it.
pub update_since_lem :
    (b b' : Buffer) (snap : Snapshots) (c : BufferCoord)
    → SessionOk b snap
    → Reach b b'
    → Forward new_tracker (changes_since b' (timestamp b))
    → Valid b.lines c
    → let t = (update_since new_tracker b' (timestamp b)).0 in
      coord_lt c t.old_pos ≡ false
      → Valid b'.lines (get_new_coord t c)
        × (text_after b'.lines (get_new_coord t c) ≡ text_after b.lines c)
unfolding update_since
update_since_lem b b' snap c s r f v h =
    let (p, q, _) =
      update_all_lem b.lines b'.lines (changes_since b' (timestamp b)) c
        (IsConsistent-WellFormed b snap s.consistent) (changes_since-Logged b b' snap s r) f v h in
    (p, q)
