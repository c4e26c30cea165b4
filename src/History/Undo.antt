-- ===== src/History/Undo.antt =====
-- Buffer::undo and Buffer::redo (src/buffer.cc) on consistent buffers.
use kakoune.Prelude.{
  ℕ, zero, suc, ◌≤◌, ◌≡◌, ◌≢◌, refl, sym, ap, ◌∙◌, inl, inr, Bool, true, false, List, [], none,
  arith, length, Option-cases, is_empty, if◌then◌else◌,
}
use kakoune.Buffer.{Buffer, HistoryNode, ok, history_node}
use kakoune.Buffer.Fields.{throw_if_writable}
use kakoune.History.{commit_undo_group, undo_loop, redo_loop, undo, redo}
use kakoune.History.Invariant.{Snapshots, IsConsistent}
use kakoune.History.Commit.{extended, commit-Commits}
use kakoune.History.Walk.{
  Rests, IsConsistent-Rests, ancestor, descendant, undo_loop-Rests, redo_loop-Rests,
}

ancestor_root :
    (hs : List HistoryNode) (n i : ℕ) → (history_node hs i).parent ≡ none → ancestor hs n i ≡ i
unfolding ancestor
ancestor_root hs zero i e = refl
ancestor_root hs (suc n) i e = rw (e, ancestor)

descendant_leaf :
    (hs : List HistoryNode) (n i : ℕ)
    → (history_node hs i).redo_child ≡ none
    → descendant hs n i ≡ i
unfolding descendant
descendant_leaf hs zero i e = refl
descendant_leaf hs (suc n) i e = rw (e, descendant)

-- The state that `undo` starts from: what is pending is committed first.
pub committed-Rests :
    (b : Buffer) (snap : Snapshots)
    → IsConsistent b snap
    → Rests (commit_undo_group b) (extended (length b.history) b.lines snap)
committed-Rests b snap c =
    let k = commit-Commits b snap c in
    IsConsistent-Rests (commit_undo_group b) _ k.consistent k.none_pending

-- On a consistent buffer that may be written, `undo count` succeeds: what is pending becomes a
-- node, and the buffer then rests at the ancestor that is `count` nodes up (or at the root), with
-- the lines that were there, and no other node's lines are changed.
pub undo_restores :
    (b : Buffer) (snap : Snapshots) (count : ℕ)
    → IsConsistent b snap
    → b.is_read_only ≡ false
    → let b1 = commit_undo_group b in
      let snap' = extended (length b.history) b.lines snap in
      (b' : Buffer) × (moved : Bool) × (undo b count ≡ ok (b', moved))
      × (b'.history_id ≡ ancestor b1.history count b1.history_id)
      × (b'.lines ≡ snap' (ancestor b1.history count b1.history_id))
      × Rests b' snap'
      × (length b.history ≤ length b'.history)
unfolding undo
undo_restores b snap count c h =
    let b1 = commit_undo_group b in
    let snap' = extended (length b.history) b.lines snap in
    let r = committed-Rests b snap c in
    let grows = (commit-Commits b snap c).grows in
    elim (Option-cases (history_node b1.history b1.history_id).parent) [
      | inl e ↦
          let stays = ancestor_root b1.history count b1.history_id e in
          (
            b1,
            false,
            throw_if_writable b _ h ∙ rw e,
            sym stays,
            r.here ∙ ap snap' (sym stays),
            r,
            grows,
          )
      | inr (p, e) ↦
          let (r', same, i) = undo_loop-Rests count b1 snap' r in
          (
            undo_loop count b1,
            true,
            throw_if_writable b _ h ∙ rw e,
            i,
            r'.here ∙ ap snap' i,
            r',
            omega (arith, grows, ap length same),
          )
    ]

-- On a consistent buffer with nothing pending that may be written, `redo count` succeeds, and the
-- buffer then rests at the node that the redo children lead to in `count` steps (or as far as they
-- go), with the lines that were there. No node is lost.
pub redo_restores :
    (b : Buffer) (snap : Snapshots) (count : ℕ)
    → Rests b snap
    → b.is_read_only ≡ false
    → (b' : Buffer) × (moved : Bool) × (redo b count ≡ ok (b', moved))
      × (b'.history_id ≡ descendant b.history count b.history_id)
      × (b'.lines ≡ snap (descendant b.history count b.history_id))
      × Rests b' snap
      × (length b.history ≤ length b'.history)
unfolding redo
redo_restores b snap count r h =
    elim (Option-cases (history_node b.history b.history_id).redo_child) [
      | inl e ↦
          let stays = descendant_leaf b.history count b.history_id e in
          (
            b,
            false,
            throw_if_writable b _ h ∙ rw e,
            sym stays,
            r.here ∙ ap snap (sym stays),
            r,
            omega arith,
          )
      | inr (c, e) ↦
          let (r', same, i) = redo_loop-Rests count b snap r in
          (
            redo_loop count b,
            true,
            throw_if_writable b _ h
                ∙ rw e (
                    ap (λ g. if is_empty g then ok (redo_loop count b, true) else ok (b, false))
                      r.none_pending),
            i,
            r'.here ∙ ap snap i,
            r',
            omega (arith, ap length same),
          )
    ]

-- Modifications that are not yet committed stop `redo`.
pub redo_pending :
    (b : Buffer) (count : ℕ)
    → b.is_read_only ≡ false
    → b.current_undo_group ≢ []
    → redo b count ≡ ok (b, false)
unfolding redo
redo_pending b count h ne = throw_if_writable b _ h ∙ ground arith
