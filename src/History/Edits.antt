-- ===== src/History/Edits.antt =====
-- Buffer::insert and Buffer::erase (src/buffer.cc) keep a buffer consistent with its undo tree.
use kakoune.Prelude.{
  ◌<◌, ◌≡◌, ◌≢◌, refl, sym, ap, subst, inl, inr, false, [], ◌∷◌, ◌++◌, length, Bool-cases,
  if◌then◌else◌,
}
use kakoune.Coord.{BufferCoord, coord_le}
use kakoune.Lines.{Bytes, BufferLines, erase_lines}
use kakoune.Lines.View.{Valid}
use kakoune.Lines.WellFormed.{WellFormed}
use kakoune.Modification.{Modification, Fits, Leads, apply_lines}
use kakoune.Modification.Inverse.{Leads-append, Leads-WellFormed}
use kakoune.Buffer.{Buffer, ok, insert, erase, erase_end}
use kakoune.Buffer.Edit.{insertion, insertion-Fits, removal, removal-Fits, removal_end}
use kakoune.Buffer.Text.{inserted_buffer, insert_result, erased_buffer, erase_result, erase_nothing}
use kakoune.Buffer.Fields.{throw_if_writable}
use kakoune.History.Invariant.{Snapshots, IsConsistent}

-- The lines of a consistent buffer are well-formed.
pub IsConsistent-WellFormed :
    (b : Buffer) (snap : Snapshots) → IsConsistent b snap → WellFormed b.lines
IsConsistent-WellFormed b snap c =
    Leads-WellFormed (snap b.history_id) b.current_undo_group b.lines
      (c.tree.well_formed b.history_id c.current) c.pending

-- One more modification that fits is one more that is pending.
pending-snoc :
    (b : Buffer) (snap : Snapshots) (m : Modification) (ls : BufferLines)
    → IsConsistent b snap
    → Fits m b.lines
    → apply_lines b.lines m ≡ ls
    → Leads
        (snap b.history_id)
        (if b.no_undo then b.current_undo_group else b.current_undo_group ++ m ∷ [])
        ls
pending-snoc b snap m ls c f e =
    subst
      (λ q.
        Leads (snap b.history_id)
          (if q then b.current_undo_group else b.current_undo_group ++ m ∷ []) ls)
      (sym c.recording)
      (Leads-append (snap b.history_id) b.current_undo_group (m ∷ []) b.lines ls c.pending (f, e))

-- On a consistent buffer that may be written, `insert` at a valid position succeeds and gives a
-- buffer that is consistent with the same lines at the same nodes: what is pending then leads to
-- the new lines.
pub insert-IsConsistent :
    (b : Buffer) (snap : Snapshots) (c : BufferCoord) (content : Bytes)
    → IsConsistent b snap
    → Valid b.lines c
    → b.is_read_only ≡ false
    → (b' : Buffer) × (range : BufferCoord × BufferCoord) × (insert b c content ≡ ok (b', range))
      × IsConsistent b' snap
      × (b'.history ≡ b.history)
unfolding insert apply_lines
insert-IsConsistent b snap c [] k v h = (b, (c, c), throw_if_writable b _ h, k, refl)
insert-IsConsistent b snap c (x ∷ r) k v h =
    let ne : ◌≢◌ {A = Bytes} (x ∷ r) [] = λ q. cc in
    (
      inserted_buffer b c (x ∷ r),
      _,
      insert_result b c (x ∷ r) h ne,
      record {
        recording = k.recording;
        tree = k.tree;
        current = k.current;
        pending =
            pending-snoc b snap (insertion b.lines c (x ∷ r)) _ k
              (insertion-Fits b.lines c (x ∷ r) v ne) refl;
      },
      refl,
    )

-- On a consistent buffer that may be written and has lines, `erase` between valid coordinates
-- succeeds, returns `begin`, and gives a buffer that is consistent with the same lines at the same
-- nodes.
pub erase-IsConsistent :
    (b : Buffer) (snap : Snapshots) (begin end : BufferCoord)
    → IsConsistent b snap
    → 0 < length b.lines
    → Valid b.lines begin
    → Valid b.lines end
    → b.is_read_only ≡ false
    → (b' : Buffer) × (erase b begin end ≡ ok (b', begin))
      × IsConsistent b' snap
      × (b'.history ≡ b.history)
unfolding apply_lines
erase-IsConsistent b snap begin end k ne vb ve h =
    let w = IsConsistent-WellFormed b snap k in
    elim (Bool-cases (coord_le (erase_end b.lines begin end) begin)) [
      | inl t ↦ (b, erase_nothing b begin end h t, k, refl)
      | inr t ↦
          let e = erase_end b.lines begin end in
          (
            erased_buffer b begin e,
            erase_result b begin end h t,
            record {
              recording = k.recording;
              tree = k.tree;
              current = k.current;
              pending =
                  pending-snoc b snap (removal b.lines begin end w vb ve ne)
                    (erase_lines b.lines begin e) k (removal-Fits b.lines begin end w vb ve ne t)
                    (ap (erase_lines b.lines begin) (removal_end b.lines begin end w vb ve ne t));
            },
            refl,
          )
    ]
