-- ===== src/Changes/Groups.antt =====
-- Applying modifications, and undo and redo (src/buffer.cc), keep the log of changes true.
use kakoune.Prelude.{
  ℕ, zero, suc, ◌<◌, ◌≡◌, ◌≢◌, refl, sym, ap, subst, inl, inr, List, [], ◌∷◌, length, some,
  Option-cases, Bool-cases, is_empty, ◌||◌,
}
use kakoune.Prelude.Int.{pos}
use kakoune.Coord.{BufferCoord}
use kakoune.Lines.{Bytes, BufferLines, advance}
use kakoune.Lines.View.{Valid}
use kakoune.Lines.WellFormed.{WellFormed}
use kakoune.Modification.{
  ChangeType, inserts, erases, Modification, FitsTyped, Leads, apply_lines, inverses,
  modification_end,
}
use kakoune.Modification.Inverse.{erase-Covers, apply-inverse}
use kakoune.Buffer.{
  Buffer, history_node, apply_modification, apply_modifications, apply_typed_modification,
}
use kakoune.Buffer.Fields.{apply_typed_lem}
use kakoune.History.{commit_undo_group, revert_node, undo_loop, redo_loop}
use kakoune.History.Invariant.{Snapshots, TreeOk}
use kakoune.History.Walk.{
  Rests, inverses_lead, group-Leads, ChildOk-some, undo_step-Rests, redo_step-Rests,
}
use kakoune.Changes.Log.{Extends, Extends-same, Extends-trans, do_insert-Extends, do_erase-Extends}

-- Fields that the log does not read may be set.
pub Extends-moved :
    (b b' b'' : Buffer)
    → Extends b b'
    → b''.lines ≡ b'.lines
    → b''.changes ≡ b'.changes
    → Extends b b''
Extends-moved b b' b'' h e q = Extends-trans b b' b'' h (Extends-same b' b'' e q)

typed-Extends :
    (type : ChangeType) (b : Buffer) (c : BufferCoord) (content : Bytes)
    → WellFormed b.lines
    → Valid b.lines c
    → content ≢ []
    → FitsTyped type c content b.lines
    → Extends b (apply_typed_modification type b c content)
unfolding modification_end
typed-Extends inserts b c content w v ne f = do_insert-Extends b c content w v ne f
typed-Extends erases b c content w v ne f =
    let k = erase-Covers b.lines c content w v ne f in
    do_erase-Extends b c (advance b.lines c (pos (length content))) w v k.end_valid k.is_range

pub apply_modifications-Extends :
    (b : Buffer) (ms : List Modification) (ls : BufferLines)
    → WellFormed b.lines
    → Leads b.lines ms ls
    → Extends b (apply_modifications b ms)
unfolding apply_modifications apply_modification apply_lines
apply_modifications-Extends b [] ls w h = Extends-same b b refl refl
apply_modifications-Extends b (m ∷ ms) ls w h =
    let b' = apply_modification b m in
    let (changes, e) = apply_typed_lem m.type b m in
    let same : b'.lines ≡ apply_lines b.lines m = ap (λ (x : Buffer). x.lines) e in
    let w' = subst WellFormed (sym same) (apply-inverse m b.lines w h.0).0 in
    Extends-trans b b' _
      (typed-Extends m.type b m.coord m.content w h.0.valid h.0.some_content h.0.typed)
      (apply_modifications-Extends b' ms ls w' (subst (λ x. Leads x ms ls) (sym same) h.1))

pub commit-Extends : (b : Buffer) → Extends b (commit_undo_group b)
unfolding commit_undo_group
commit-Extends b = elim (Bool-cases (b.no_undo || is_empty b.current_undo_group)) [
  | inl e ↦ Extends-same b (commit_undo_group b) (rw e) (rw e)
  | inr e ↦ Extends-same b (commit_undo_group b) (rw e) (rw e)
]

-- A node's group, undone and applied.
module _ (b : Buffer) (snap : Snapshots) (id p : ℕ) (t : TreeOk b.history snap)
    (lt : id < length b.history) (q : (history_node b.history id).parent ≡ some p) where
  pub revert_node-Extends : b.lines ≡ snap id → Extends b (revert_node b id)
  unfolding revert_node
  revert_node-Extends e =
      apply_modifications-Extends b _ (snap p) (subst WellFormed (sym e) (t.well_formed id lt)) (
        subst (λ ls. Leads ls (inverses (history_node b.history id).undo_group) (snap p)) (sym e)
          (inverses_lead b.history snap t id p lt q))

pub undo_loop-Extends :
    (n : ℕ) (b : Buffer) (snap : Snapshots) → Rests b snap → Extends b (undo_loop n b)
unfolding undo_loop
undo_loop-Extends zero b snap r = Extends-same b b refl refl
undo_loop-Extends (suc n) b snap r =
    elim (Option-cases (history_node b.history b.history_id).parent) [
      | inl e ↦ rw (e, undo_loop) (Extends-same b b refl refl)
      | inr (p, e) ↦
          let b' = record (revert_node b b.history_id) { history_id = p } in
          rw (e, undo_loop)
            (Extends-trans b b' _
              (Extends-moved b (revert_node b b.history_id) b'
                (revert_node-Extends b snap b.history_id p r.tree r.current e r.here) refl refl)
              (undo_loop-Extends n b' snap (undo_step-Rests b snap r p e).0))
    ]

pub redo_loop-Extends :
    (n : ℕ) (b : Buffer) (snap : Snapshots) → Rests b snap → Extends b (redo_loop n b)
unfolding redo_loop
redo_loop-Extends zero b snap r = Extends-same b b refl refl
redo_loop-Extends (suc n) b snap r =
    elim (Option-cases (history_node b.history b.history_id).redo_child) [
      | inl e ↦ rw (e, redo_loop) (Extends-same b b refl refl)
      | inr (c, e) ↦
          let group = (history_node b.history c).undo_group in
          let moved = record b { history_id = c } in
          let (lt, up) =
            ChildOk-some b.history _ b.history_id c (r.tree.children b.history_id r.current) e in
          let leads =
            subst (λ ls. Leads ls group (snap c)) (sym r.here)
              (group-Leads b.history snap r.tree c b.history_id lt up) in
          let w = subst WellFormed (sym r.here) (r.tree.well_formed b.history_id r.current) in
          rw (e, redo_loop)
            (Extends-trans b moved _ (Extends-same b moved refl refl) (
              Extends-trans moved (apply_modifications moved group) _
                (apply_modifications-Extends moved group (snap c) w leads)
                (redo_loop-Extends n (apply_modifications moved group) snap
                  (redo_step-Rests b snap r c e).0)))
    ]
