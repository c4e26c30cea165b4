-- ===== src/History/Walk.antt =====
-- The loops of Buffer::undo and Buffer::redo (src/buffer.cc): one node up or down at a time.
use kakoune.Prelude.{
  ℕ, zero, suc, ◌<◌, ◌≡◌, refl, sym, ap, subst, ◌∙◌, inl, inr, false, List, [], Option, none, some,
  arith, length, Option-cases,
}
use kakoune.Modification.{Modification, Leads, apply_group, inverses}
use kakoune.Modification.Inverse.{Leads-inverses, Leads-apply_group}
use kakoune.Buffer.{Buffer, HistoryNode, history_node, apply_modifications}
use kakoune.Buffer.Fields.{apply_modifications_lem}
use kakoune.History.{revert_node, undo_loop, redo_loop}
use kakoune.History.Invariant.{Snapshots, ParentOk, ChildOk, TreeOk, IsConsistent}

-- A consistent buffer with nothing pending: the lines are those of the current node.
pub record Rests (b : Buffer) (snap : Snapshots) : Type 0 where
  pub recording : b.no_undo ≡ false
  pub tree : TreeOk b.history snap
  pub current : b.history_id < length b.history
  pub none_pending : b.current_undo_group ≡ []
  pub here : b.lines ≡ snap b.history_id

pub Rests-IsConsistent : (b : Buffer) (snap : Snapshots) → Rests b snap → IsConsistent b snap
Rests-IsConsistent b snap r = record {
  recording = r.recording;
  tree = r.tree;
  current = r.current;
  pending = subst (λ g. Leads (snap b.history_id) g b.lines) (sym r.none_pending) (sym r.here);
}

pub IsConsistent-Rests :
    (b : Buffer) (snap : Snapshots) → IsConsistent b snap → b.current_undo_group ≡ [] → Rests b snap
IsConsistent-Rests b snap c e = record {
  recording = c.recording;
  tree = c.tree;
  current = c.current;
  none_pending = e;
  here = sym (subst (λ g. Leads (snap b.history_id) g b.lines) e c.pending);
}

-- What a node's parent gives.
pub ParentOk-some :
    (q : Option ℕ) (group : List Modification) (snap : Snapshots) (i p : ℕ)
    → ParentOk q group snap i
    → q ≡ some p
    → (p < i) × Leads (snap p) group (snap i)
ParentOk-some q group snap i p h e = subst (λ x. ParentOk x group snap i) e h

pub ParentOk-none :
    (q : Option ℕ) (group : List Modification) (snap : Snapshots) (i : ℕ)
    → ParentOk q group snap i
    → q ≡ none
    → i ≡ 0
ParentOk-none q group snap i h e = subst (λ x. ParentOk x group snap i) e h

pub ChildOk-some :
    (hs : List HistoryNode) (q : Option ℕ) (i c : ℕ)
    → ChildOk hs q i
    → q ≡ some c
    → (c < length hs) × ((history_node hs c).parent ≡ some i)
ChildOk-some hs q i c h e = subst (λ x. ChildOk hs x i) e h

-- From a node's lines its group leads back to the parent's, and forth again.
module _ (hs : List HistoryNode) (snap : Snapshots) (t : TreeOk hs snap) (i p : ℕ)
    (lt : i < length hs) (e : (history_node hs i).parent ≡ some p) where
  pub parent_lt : p < i
  parent_lt = (ParentOk-some _ _ snap i p (t.nodes i lt) e).0

  pub group-Leads : Leads (snap p) (history_node hs i).undo_group (snap i)
  group-Leads = (ParentOk-some _ _ snap i p (t.nodes i lt) e).1

  pub inverses_lead : Leads (snap i) (inverses (history_node hs i).undo_group) (snap p)
  inverses_lead =
      Leads-inverses (snap p) (history_node hs i).undo_group (snap i)
        (t.well_formed p (omega (arith, parent_lt))) group-Leads

  pub group_back : apply_group (snap i) (inverses (history_node hs i).undo_group) ≡ snap p
  group_back = Leads-apply_group (snap i) _ (snap p) inverses_lead

  pub group_forth : apply_group (snap p) (history_node hs i).undo_group ≡ snap i
  group_forth = Leads-apply_group (snap p) _ (snap i) group-Leads

module _ (b : Buffer) (snap : Snapshots) (r : Rests b snap) where
  pub undo_step-Rests :
      (p : ℕ)
      → (history_node b.history b.history_id).parent ≡ some p
      → Rests (record (revert_node b b.history_id) { history_id = p }) snap
        × ((revert_node b b.history_id).history ≡ b.history)
  unfolding revert_node
  undo_step-Rests p e =
      let group = inverses (history_node b.history b.history_id).undo_group in
      let (changes, q) = apply_modifications_lem b group in
      rw q (
        record {
          recording = r.recording;
          tree = r.tree;
          current =
              omega (arith, r.current, parent_lt b.history snap r.tree b.history_id p r.current e);
          none_pending = r.none_pending;
          here =
              ap (λ ls. apply_group ls group) r.here
              ∙ group_back b.history snap r.tree b.history_id p r.current e;
        },
        refl,
      )

  pub redo_step-Rests :
      (c : ℕ)
      → (history_node b.history b.history_id).redo_child ≡ some c
      → let b' = record b { history_id = c } in
        let b'' = apply_modifications b' (history_node b.history c).undo_group in
        Rests b'' snap × (b''.history ≡ b.history) × (b''.history_id ≡ c)
  redo_step-Rests c e =
      let group = (history_node b.history c).undo_group in
      let (lt, up) =
        ChildOk-some b.history _ b.history_id c (r.tree.children b.history_id r.current) e in
      let (changes, q) = apply_modifications_lem (record b { history_id = c }) group in
      rw q (
        record {
          recording = r.recording;
          tree = r.tree;
          current = lt;
          none_pending = r.none_pending;
          here =
              ap (λ ls. apply_group ls group) r.here
              ∙ group_forth b.history snap r.tree c b.history_id lt up;
        },
        refl,
        refl,
      )

-- The node some steps up, and some steps down.
unfoldable pub ancestor : List HistoryNode → ℕ → ℕ → ℕ
ancestor hs zero i = i
ancestor hs (suc n) i = elim (history_node hs i).parent [ none ↦ i | some p ↦ ancestor hs n p ]

unfoldable pub descendant : List HistoryNode → ℕ → ℕ → ℕ
descendant hs zero i = i
descendant hs (suc n) i = elim (history_node hs i).redo_child [
  | none ↦ i
  | some c ↦ descendant hs n c
]

pub undo_loop-Rests :
    (n : ℕ) (b : Buffer) (snap : Snapshots)
    → Rests b snap
    → Rests (undo_loop n b) snap
      × ((undo_loop n b).history ≡ b.history)
      × ((undo_loop n b).history_id ≡ ancestor b.history n b.history_id)
unfolding undo_loop ancestor
undo_loop-Rests zero b snap r = (r, refl, refl)
undo_loop-Rests (suc n) b snap r =
    elim (Option-cases (history_node b.history b.history_id).parent) [
      | inl e ↦ rw (e, undo_loop, ancestor) (r, refl, refl)
      | inr (p, e) ↦
          let (r', same) = undo_step-Rests b snap r p e in
          let (a, h, i) =
            undo_loop-Rests n (record (revert_node b b.history_id) { history_id = p }) snap r' in
          rw (e, undo_loop, ancestor) (a, h ∙ same, i ∙ ap (λ hs. ancestor hs n p) same)
    ]

pub redo_loop-Rests :
    (n : ℕ) (b : Buffer) (snap : Snapshots)
    → Rests b snap
    → Rests (redo_loop n b) snap
      × ((redo_loop n b).history ≡ b.history)
      × ((redo_loop n b).history_id ≡ descendant b.history n b.history_id)
unfolding redo_loop descendant
redo_loop-Rests zero b snap r = (r, refl, refl)
redo_loop-Rests (suc n) b snap r =
    elim (Option-cases (history_node b.history b.history_id).redo_child) [
      | inl e ↦ rw (e, redo_loop, descendant) (r, refl, refl)
      | inr (c, e) ↦
          let b' =
            apply_modifications (record b { history_id = c })
              (history_node b.history c).undo_group in
          let (r', same, at) = redo_step-Rests b snap r c e in
          let (a, h, i) = redo_loop-Rests n b' snap r' in
          rw (e, redo_loop, descendant)
            (
              a,
              h ∙ same,
              i ∙ ap (λ hs. descendant hs n b'.history_id) same ∙ ap (descendant b.history n) at,
            )
    ]
