-- ===== src/Changes/Runs.antt =====
-- forward_sorted_until and backward_sorted_until (src/changes.cc).
use kakoune.Prelude.{
  ℕ, zero, suc, ◌-◌, ◌≡◌, refl, inl, inr, true, false, List, [], ◌∷◌, arith, take, Bool-cases,
}
use kakoune.Coord.{coord_lt, coord_le, coord_le-false}
use kakoune.Modification.{ChangeType, inserts, erases}
use kakoune.Buffer.{Change}
use kakoune.Changes.{
  ForwardChangesTracker, update, run_end, forward_run, forward_sorted_until, backward_run,
  backward_sorted_until,
}
use kakoune.Changes.Track.{Forward}

update-cur_pos :
    (t : ForwardChangesTracker) (c : Change) → (update t c).cur_pos ≡ run_end c.type c.begin c.end
unfolding update
update-cur_pos t c = by_type c.type
  where
    by_type :
        (type : ChangeType)
        → (update t (record { type = type; begin = c.begin; end = c.end })).cur_pos
          ≡ run_end type c.begin c.end
    by_type inserts = refl
    by_type erases = refl

-- What stops a forward run: the next change is not behind the last of the run.
abbrev pub StopsForward : Change → List Change → ℕ → Type 0
StopsForward first [] n = n ≡ 0
StopsForward first (next ∷ rest) zero =
    coord_le next.begin (run_end first.type first.begin first.end) ≡ true
StopsForward first (next ∷ rest) (suc n) = StopsForward next rest n

forward_run_lem :
    (t : ForwardChangesTracker) (first : Change) (rest : List Change)
    → Forward (update t first) (take (forward_run first rest) rest)
      × StopsForward first rest (forward_run first rest)
unfolding forward_run
forward_run_lem t first [] = (tt, refl)
forward_run_lem t first (next ∷ rest) =
    let end = run_end first.type first.begin first.end in
    elim (Bool-cases (coord_le next.begin end)) [
      | inl e ↦ rw (e, forward_run) (tt, e)
      | inr e ↦
          let (f, s) = forward_run_lem (update t first) next rest in
          rw (e, forward_run)
            ((rw (update-cur_pos t first) (coord_le-false next.begin end e).1, f), s)
    ]

-- For a first change that is not before the tracker's position, forward_sorted_until gives the
-- longest run of changes that the tracker can follow: each change of the run is not before the
-- position of the one before it, and the run ends with the log, or where the next change does not
-- begin behind the end of an insertion or the begin of a removal.
pub forward_sorted_until_lem :
    (t : ForwardChangesTracker) (first : Change) (rest : List Change)
    → coord_lt first.begin t.cur_pos ≡ false
    → let n = forward_sorted_until (first ∷ rest) in
      Forward t (take n (first ∷ rest)) × StopsForward first rest (n - 1)
unfolding forward_sorted_until
forward_sorted_until_lem t first rest h =
    let (f, s) = forward_run_lem t first rest in
    let pred : suc (forward_run first rest) - 1 ≡ forward_run first rest = omega arith in
    ((h, f), rw pred s)

-- Each change ends before the one before it begins.
abbrev pub Backward : Change → List Change → Type 0
Backward first [] = Unit
Backward first (next ∷ rest) = (coord_lt first.begin next.end ≡ false) × Backward next rest

abbrev pub StopsBackward : Change → List Change → ℕ → Type 0
StopsBackward first [] n = n ≡ 0
StopsBackward first (next ∷ rest) zero = coord_lt first.begin next.end ≡ true
StopsBackward first (next ∷ rest) (suc n) = StopsBackward next rest n

pub backward_run_lem :
    (first : Change) (rest : List Change)
    → Backward first (take (backward_run first rest) rest)
      × StopsBackward first rest (backward_run first rest)
unfolding backward_run
backward_run_lem first [] = (tt, refl)
backward_run_lem first (next ∷ rest) = elim (Bool-cases (coord_lt first.begin next.end)) [
  | inl e ↦ rw (e, backward_run) (tt, e)
  | inr e ↦ let (f, s) = backward_run_lem next rest in rw (e, backward_run) ((e, f), s)
]

-- backward_sorted_until gives the longest run in which no change ends behind the begin of the one
-- before it: the run ends with the log, or where the next change does.
pub backward_sorted_until_lem :
    (first : Change) (rest : List Change)
    → let n = backward_sorted_until (first ∷ rest) in
      Backward first (take (n - 1) rest) × StopsBackward first rest (n - 1)
unfolding backward_sorted_until
backward_sorted_until_lem first rest =
    let pred : suc (backward_run first rest) - 1 ≡ backward_run first rest = omega arith in
    rw pred (backward_run_lem first rest)
