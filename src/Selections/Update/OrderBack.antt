-- ===== src/Selections/Update/OrderBack.antt =====
-- Positions stay in order through a backward run of changes (src/changes.hh: update_backward), which
-- is walked from its last change, the first in the text, to its first.
use kakoune.Prelude.{◌≡◌, inl, inr, false, List, [], ◌∷◌, reverse, arith, Bool-cases, All}
use mathlib.Core.List.{reverse_aux}
use kakoune.Coord.{BufferCoord, coord, coord_lt}
use kakoune.Modification.{ChangeType, inserts, erases}
use kakoune.Buffer.{Change}
use kakoune.Changes.{
  ForwardChangesTracker, new_tracker, get_new_coord, get_new_coord_tolerant, get_old_coord, update,
  update_typed, relevant,
}
use kakoune.Changes.Order.{get_new_coord_tolerant-order}
use kakoune.Changes.Track.{coord_lt_trans}
use kakoune.Changes.Runs.{Backward}
use kakoune.Selections.Update.{advance_backward, moved_change}
use kakoune.Selections.Update.Alone.{moved, relevant_later}
use kakoune.Selections.Update.Order.{
  IsForward, not_lt_refl, irrelevant-not-behind, update-behind, landed, IsMonotone,
}

-- Each change begins at the end of the one before it or behind, the first at a position or behind.
abbrev pub Ahead : BufferCoord → List Change → Type 0
Ahead b [] = Unit
Ahead b (c ∷ cs) = (coord_lt c.begin b ≡ false) × Ahead c.end cs

Ahead-mono : (a b : BufferCoord) (cs : List Change) → coord_lt b a ≡ false → Ahead b cs → Ahead a cs
Ahead-mono a b [] h k = tt
Ahead-mono a b (c ∷ cs) h k = (coord_lt_trans a b c.begin h k.0, k.1)

pub not_before_start : (a : BufferCoord) → coord_lt a (coord 0 0) ≡ false
unfolding coord_lt
not_before_start a = ground arith

reverse_aux-Ahead :
    (first : Change) (rest behind : List Change)
    → Backward first rest
    → Ahead first.end behind
    → Ahead (coord 0 0) (reverse_aux rest (first ∷ behind))
reverse_aux-Ahead first [] behind b h = (not_before_start first.begin, h)
reverse_aux-Ahead first (next ∷ rest) behind b h =
    reverse_aux-Ahead next rest (first ∷ behind) b.1 (b.0, h)

pub reverse-Ahead :
    (first : Change) (rest : List Change)
    → Backward first rest
    → Ahead (coord 0 0) (reverse (first ∷ rest))
reverse-Ahead first rest b = reverse_aux-Ahead first rest [] b tt

-- Positions behind the tracker's old position.
get_new_coord-order :
    (t : ForwardChangesTracker) (a b : BufferCoord)
    → coord_lt a t.old_pos ≡ false
    → coord_lt b a ≡ false
    → coord_lt (get_new_coord t b) (get_new_coord t a) ≡ false
unfolding get_new_coord coord_lt
get_new_coord-order t a b h k = ground arith

get_new_coord-behind :
    (t : ForwardChangesTracker) (a : BufferCoord)
    → coord_lt a t.old_pos ≡ false
    → coord_lt (get_new_coord t a) t.cur_pos ≡ false
unfolding get_new_coord coord_lt
get_new_coord-behind t a h = ground arith

get_old_coord-get_new_coord :
    (t : ForwardChangesTracker) (a : BufferCoord)
    → coord_lt a t.old_pos ≡ false
    → coord_lt a (get_old_coord t (get_new_coord t a)) ≡ false
unfolding get_new_coord get_old_coord coord_lt
get_old_coord-get_new_coord t a h = ground arith

module _ (t : ForwardChangesTracker) (c : Change) (h : coord_lt c.begin t.old_pos ≡ false)
    (w : IsForward c) where
  moved_change-IsForward : IsForward (moved_change t c)
  moved_change-IsForward = get_new_coord-order t c.begin c.end h w

  end_behind : coord_lt c.end t.old_pos ≡ false
  end_behind = coord_lt_trans t.old_pos c.begin c.end h w

  -- The tracker's old position behind the change is not behind the end of the change.
  update-old_pos : coord_lt c.end (update t (moved_change t c)).old_pos ≡ false
  unfolding update
  update-old_pos = by_type c.type
    where
      by_type :
          (type : ChangeType)
          → coord_lt c.end
              (update_typed type t (get_new_coord t c.begin) (get_new_coord t c.end)).old_pos
            ≡ false
      by_type inserts =
          coord_lt_trans (get_old_coord t (get_new_coord t c.begin)) c.begin c.end
            (get_old_coord-get_new_coord t c.begin h) w
      by_type erases = get_old_coord-get_new_coord t c.end end_behind

  update-Ahead :
      (cs : List Change) → Ahead c.end cs → Ahead (update t (moved_change t c)).old_pos cs
  update-Ahead cs k = Ahead-mono (update t (moved_change t c)).old_pos c.end cs update-old_pos k

advance_backward-behind :
    (q : BufferCoord) (t : ForwardChangesTracker) (cs : List Change)
    → Ahead t.old_pos cs
    → All IsForward cs
    → coord_lt (advance_backward q t cs).tracker.cur_pos t.cur_pos ≡ false
unfolding advance_backward
advance_backward-behind q t [] f w = not_lt_refl t.cur_pos
advance_backward-behind q t (c ∷ cs) f w =
    let m = moved_change t c in
    elim (Bool-cases (relevant t m q)) [
      | inl r ↦ rw r (
          coord_lt_trans t.cur_pos m.begin _ (get_new_coord-behind t c.begin f.0) (
            coord_lt_trans m.begin (update t m).cur_pos _
              (update-behind t m (moved_change-IsForward t c f.0 w.0))
              (advance_backward-behind q (update t m) cs (update-Ahead t c f.0 w.0 cs f.1) w.1)))
      | inr r ↦ rw r (not_lt_refl t.cur_pos)
    ]

advance_backward-order :
    (p q : BufferCoord) (t : ForwardChangesTracker) (cs : List Change)
    → coord_lt q p ≡ false
    → Ahead t.old_pos cs
    → All IsForward cs
    → coord_lt (landed (advance_backward q t cs) q) (landed (advance_backward p t cs) p) ≡ false
unfolding advance_backward
advance_backward-order p q t [] h f w = (get_new_coord_tolerant-order t p q h).0
advance_backward-order p q t (c ∷ cs) h f w =
    let m = moved_change t c in
    let ahead = update-Ahead t c f.0 w.0 cs f.1 in
    elim (Bool-cases (relevant t m p)) [
      | inl r ↦
          rw (r, relevant_later t m p q h r)
            (advance_backward-order p q (update t m) cs h ahead w.1)
      | inr r ↦ elim (Bool-cases (relevant t m q)) [
        | inl k ↦
            let after = advance_backward q (update t m) cs in
            rw (r, k)
              (coord_lt_trans (get_new_coord_tolerant t p) m.begin _ (irrelevant-not-behind t m p r)
                (coord_lt_trans m.begin (update t m).cur_pos _
                  (update-behind t m (moved_change-IsForward t c f.0 w.0))
                  (coord_lt_trans (update t m).cur_pos after.tracker.cur_pos _
                    (advance_backward-behind q (update t m) cs ahead w.1)
                    (get_new_coord_tolerant-order after.tracker q q (not_lt_refl q)).1)))
        | inr k ↦ rw (r, k) (get_new_coord_tolerant-order t p q h).0
      ]
    ]

pub advance_backward-IsMonotone :
    (changes : List Change)
    → Ahead (coord 0 0) changes
    → All IsForward changes
    → IsMonotone advance_backward changes
unfolding moved
advance_backward-IsMonotone changes f w p q h = advance_backward-order p q new_tracker changes h f w
