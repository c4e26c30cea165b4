-- ===== src/Changes/Order.antt =====
-- ForwardChangesTracker::get_new_coord_tolerant (src/changes.cc) keeps positions in order.
use kakoune.Prelude.{◌≡◌, inl, inr, false, arith, Bool-cases}
use kakoune.Coord.{BufferCoord, coord_lt}
use kakoune.Changes.{ForwardChangesTracker, get_new_coord, get_new_coord_tolerant}
use kakoune.Changes.Shift.{shift, shift_not_before}
use kakoune.Changes.Track.{coord_lt_trans}

shift-order :
    (b e c d : BufferCoord)
    → coord_lt c b ≡ false
    → coord_lt d c ≡ false
    → coord_lt (shift b e d) (shift b e c) ≡ false
unfolding coord_lt
shift-order b e c d h k = ground arith

not_before_self : (a : BufferCoord) → coord_lt a a ≡ false
unfolding coord_lt
not_before_self a = ground arith

-- Positions in order, wherever they stand, go to positions in order, and none goes before the
-- current position of the tracker.
pub get_new_coord_tolerant-order :
    (t : ForwardChangesTracker) (a b : BufferCoord)
    → coord_lt b a ≡ false
    → (coord_lt (get_new_coord_tolerant t b) (get_new_coord_tolerant t a) ≡ false)
      × (coord_lt (get_new_coord_tolerant t a) t.cur_pos ≡ false)
unfolding get_new_coord_tolerant get_new_coord
get_new_coord_tolerant-order t a b h = elim (Bool-cases (coord_lt a t.old_pos)) [
  | inl ea ↦ elim (Bool-cases (coord_lt b t.old_pos)) [
    | inl eb ↦ rw (ea, eb) (not_before_self t.cur_pos, not_before_self t.cur_pos)
    | inr eb ↦ rw (ea, eb) (shift_not_before t.old_pos t.cur_pos b eb, not_before_self t.cur_pos)
  ]
  | inr ea ↦
      let eb = coord_lt_trans t.old_pos a b ea h in
      rw (ea, eb)
        (shift-order t.old_pos t.cur_pos a b ea h, shift_not_before t.old_pos t.cur_pos a ea)
]
