-- ===== src/Tests/Tracking.antt =====
-- The log of changes of the sample, and positions followed through it (src/changes.cc).
use kakoune.Prelude.{false, ◌≡◌, refl, [], ◌∷◌, arith}
use kakoune.Coord.{coord, coord_lt, coord_le}
use kakoune.Lines.View.{Valid, text_after}
use kakoune.Modification.{inserts, erases}
use kakoune.Buffer.{Change, new_buffer}
use kakoune.Buffer.Text.{insert_result}
use kakoune.History.Invariant.{Snapshots}
use kakoune.History.Session.{inserting, Reach, here, next, SessionOk, new_buffer-SessionOk}
use kakoune.Changes.Order.{get_new_coord_tolerant-order}
use kakoune.Changes.{
  get_new_coord_tolerant, new_tracker, timestamp, changes_since, get_new_coord, get_old_coord,
  update, update_all, update_since, forward_sorted_until, forward_run,
}
use kakoune.Changes.Track.{Logged, Forward}
use kakoune.Changes.Sessions.{changes_since-Logged, update_since_lem}
use kakoune.Tests.Sample.{
  two_lines, two_lines-WellFormed, two_pieces, two_pieces-ne-nil, middle, middle-Valid, flags,
  start, edited,
}

abbrev snap : Snapshots
snap i = two_lines

sample-SessionOk : SessionOk start snap
sample-SessionOk = new_buffer-SessionOk flags two_lines refl two_lines-WellFormed (omega arith)

one_edit : Reach start edited
unfolding new_buffer
one_edit = next here (
    inserting middle two_pieces _ middle-Valid
      (insert_result start middle two_pieces refl two_pieces-ne-nil))

changes_since-Logged_example :
    Logged start.lines (changes_since edited (timestamp start)) edited.lines
changes_since-Logged_example = changes_since-Logged start edited snap sample-SessionOk one_edit

one_edit-Forward : Forward new_tracker (changes_since edited (timestamp start))
unfolding new_buffer changes_since coord_lt
one_edit-Forward = (refl, tt)

update_since_lem_example :
    let t = (update_since new_tracker edited (timestamp start)).0 in
    Valid edited.lines (get_new_coord t (coord 0 2))
    × (text_after edited.lines (get_new_coord t (coord 0 2)) ≡ text_after start.lines (coord 0 2))
unfolding new_buffer changes_since update_since update_all update get_old_coord coord_lt
update_since_lem_example =
    update_since_lem start edited snap (coord 0 2) sample-SessionOk one_edit one_edit-Forward
      (omega arith) refl

-- Two changes in order, and one that goes back.
abbrev change : Change
change = record { type = inserts; begin = coord 0 1; end = coord 1 0 }

abbrev later_change : Change
later_change = record { type = erases; begin = coord 2 0; end = coord 3 0 }

forward_two : forward_sorted_until (change ∷ later_change ∷ change ∷ []) ≡ 2
unfolding forward_sorted_until forward_run coord_le
forward_two = refl

get_new_coord_tolerant-order_example :
    let t = update new_tracker change in
    (coord_lt (get_new_coord_tolerant t (coord 0 4)) (get_new_coord_tolerant t (coord 0 0)) ≡ false)
    × (coord_lt (get_new_coord_tolerant t (coord 0 0)) t.cur_pos ≡ false)
unfolding coord_lt
get_new_coord_tolerant-order_example =
    get_new_coord_tolerant-order (update new_tracker change) (coord 0 0) (coord 0 4) refl
