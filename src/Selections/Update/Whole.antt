-- ===== src/Selections/Update/Whole.antt =====
-- update_selections (src/selection.cc) as a sequence of runs of changes, each of which moves every
-- end of every selection alone.
use kakoune.Prelude.{
  ℕ, zero, suc, ◌≤◌, ◌<◌, ◌≡◌, refl, sym, ap, subst, inl, inr, Bool, false, List, [], ◌∷◌, reverse,
  take, drop, leb, ◌==◌, length, length-drop, arith, Bool-cases, All,
}
use mathlib.Core.List.{reverse_aux}
use kakoune.Coord.{BufferCoord, coord}
use kakoune.Buffer.{Change, Buffer}
use kakoune.Changes.{
  new_tracker, timestamp, changes_since, forward_run, backward_run, forward_sorted_until,
  backward_sorted_until,
}
use kakoune.Lines.{BufferLines}
use kakoune.Changes.Track.{Logged, unchanged, changed}
use kakoune.Changes.Sessions.{changes_since-Logged}
use kakoune.History.Invariant.{Snapshots}
use kakoune.History.Session.{Reach, SessionOk}
use kakoune.Changes.Runs.{forward_sorted_until_lem, backward_run_lem}
use kakoune.Selections.{Selection, clamp_selections}
use kakoune.Selections.Update.{
  advance_forward, advance_backward, merged_if, runs_loop, update_selections,
}
use kakoune.Selections.Update.Alone.{AreApart}
use kakoune.Selections.Update.Merging.{merged_if-AreApart}
use kakoune.Selections.Update.Run.{alone_run, update_run_lem}
use kakoune.Selections.Update.Order.{
  IsForward, IsMonotone, advance_forward-IsMonotone, all_alone-AreApart, AreApart-mono,
}
use kakoune.Selections.Update.OrderBack.{
  reverse-Ahead, advance_backward-IsMonotone, not_before_start,
}

take-IsForward : (n : ℕ) (cs : List Change) → All IsForward cs → All IsForward (take n cs)
take-IsForward zero cs a = tt
take-IsForward (suc n) [] a = tt
take-IsForward (suc n) (c ∷ cs) a = (a.0, take-IsForward n cs a.1)

drop-IsForward : (n : ℕ) (cs : List Change) → All IsForward cs → All IsForward (drop n cs)
drop-IsForward zero cs a = a
drop-IsForward (suc n) [] a = tt
drop-IsForward (suc n) (c ∷ cs) a = drop-IsForward n cs a.1

reverse_aux-IsForward :
    (cs ds : List Change) → All IsForward cs → All IsForward ds → All IsForward (reverse_aux cs ds)
reverse_aux-IsForward [] ds a b = b
reverse_aux-IsForward (c ∷ cs) ds a b = reverse_aux-IsForward cs (c ∷ ds) a.1 (a.0, b)

backward-IsMonotone :
    (c : Change) (cs : List Change)
    → All IsForward (c ∷ cs)
    → IsMonotone advance_backward (reverse (take (backward_sorted_until (c ∷ cs)) (c ∷ cs)))
unfolding backward_sorted_until
backward-IsMonotone c cs w =
    let run = take (backward_run c cs) cs in
    advance_backward-IsMonotone (reverse (c ∷ run)) (reverse-Ahead c run (backward_run_lem c cs).0)
      (reverse_aux-IsForward (c ∷ run) [] (w.0, take-IsForward (backward_run c cs) cs w.1) tt)

-- From the start of the buffer on, in place of any other position.
anywhere : (p : BufferCoord) (sels : List Selection) → AreApart p sels → AreApart (coord 0 0) sels
anywhere p sels a = AreApart-mono (coord 0 0) p sels (not_before_start p) a

-- The selections are still in order after a run, as the source asserts.
alone_run-AreApart :
    (c : Change) (cs : List Change) (sels : List Selection)
    → All IsForward (c ∷ cs)
    → AreApart (coord 0 0) sels
    → AreApart (coord 0 0) (alone_run (c ∷ cs) sels).1
unfolding alone_run
alone_run-AreApart c cs sels w a =
    let n = forward_sorted_until (c ∷ cs) in
    let m = backward_sorted_until (c ∷ cs) in
    elim (Bool-cases (leb m n)) [
      | inl q ↦ rw q (
          anywhere _ _ (
            all_alone-AreApart advance_forward (take n (c ∷ cs)) (coord 0 0) sels
              (advance_forward-IsMonotone (take n (c ∷ cs))
                (forward_sorted_until_lem new_tracker c cs (not_before_start c.begin)).0
                (take-IsForward n (c ∷ cs) w))
              a))
      | inr q ↦ rw q (
          anywhere _ _ (
            all_alone-AreApart advance_backward (reverse (take m (c ∷ cs))) (coord 0 0) sels
              (backward-IsMonotone c cs w) a))
    ]

-- The selections behind a run, and how many changes it has; merged if they are to be.
abbrev pub behind_run : Bool → Change → List Change → List Selection → ℕ → ℕ × (List Selection × ℕ)
behind_run merge c cs sels main =
    let run = alone_run (c ∷ cs) sels in (run.0, merged_if merge run.1 main)

-- The changes are passed run by run. A run moves every end alone and leaves the selections in order,
-- which the source asserts; if they are to be merged, those that overlap are merged behind it.
pub data Updated (merge : Bool)
    : List Change → List Selection → ℕ → List Selection × ℕ → Type 0 where
  all_passed : {sels : List Selection} {main : ℕ} → Updated merge [] sels main (sels, main)
  run_passed :
      {c : Change} {cs : List Change} {sels : List Selection} {main : ℕ} {r : List Selection × ℕ}
      → AreApart (coord 0 0) (alone_run (c ∷ cs) sels).1
      → Updated merge
          (drop (behind_run merge c cs sels main).0 (c ∷ cs))
          (behind_run merge c cs sels main).1.0
          (behind_run merge c cs sels main).1.1
          r
      → Updated merge (c ∷ cs) sels main r

alone_run-positive :
    (c : Change) (cs : List Change) (sels : List Selection) → 0 < (alone_run (c ∷ cs) sels).0
unfolding alone_run forward_sorted_until backward_sorted_until
alone_run-positive c cs sels =
    elim (Bool-cases (leb (suc (backward_run c cs)) (suc (forward_run c cs)))) [
      | inl q ↦ rw q (omega arith)
      | inr q ↦ rw q (omega arith)
    ]

runs_loop-run :
    (fuel : ℕ) (merge : Bool) (c : Change) (cs : List Change) (sels : List Selection) (main : ℕ)
    → AreApart (coord 0 0) sels
    → let b = behind_run merge c cs sels main in
      runs_loop (suc fuel) merge (c ∷ cs) sels main
      ≡ runs_loop fuel merge (drop b.0 (c ∷ cs)) b.1.0 b.1.1
unfolding runs_loop
runs_loop-run fuel merge c cs sels main a =
    ap
      (λ run.
        let kept = merged_if merge run.1 main in
        runs_loop fuel merge (drop run.0 (c ∷ cs)) kept.0 kept.1)
      (update_run_lem (coord 0 0) c cs sels a)

runs_loop-Updated :
    (fuel : ℕ) (merge : Bool) (changes : List Change) (sels : List Selection) (main : ℕ)
    → length changes ≤ fuel
    → AreApart (coord 0 0) sels
    → All IsForward changes
    → Updated merge changes sels main (runs_loop fuel merge changes sels main)
      × AreApart (coord 0 0) (runs_loop fuel merge changes sels main).0
unfolding runs_loop
runs_loop-Updated zero merge [] sels main f a w = (all_passed, a)
runs_loop-Updated zero merge (c ∷ cs) sels main f a w = absurd (omega (arith, f))
runs_loop-Updated (suc fuel) merge [] sels main f a w = (all_passed, a)
runs_loop-Updated (suc fuel) merge (c ∷ cs) sels main f a w =
    let b = behind_run merge c cs sels main in
    let rest =
      runs_loop-Updated fuel merge (drop b.0 (c ∷ cs)) b.1.0 b.1.1
        (omega (arith, f, length-drop b.0 (c ∷ cs), alone_run-positive c cs sels))
        (merged_if-AreApart merge (coord 0 0) (alone_run (c ∷ cs) sels).1 main
          (alone_run-AreApart c cs sels w a))
        (drop-IsForward b.0 (c ∷ cs) w) in
    subst (λ r. Updated merge (c ∷ cs) sels main r × AreApart (coord 0 0) r.0)
      (sym (runs_loop-run fuel merge c cs sels main a))
      (run_passed (alone_run-AreApart c cs sels w a) rest.0, rest.1)

-- For selections in order, each beginning at the end of the one before it or behind, and changes of
-- the buffer since a time that is not now, none of which ends before it begins, update_selections
-- passes all the changes run by run: each run moves every end of every selection as if it were
-- alone, and leaves the selections in such an order, and if they are to be merged, those that
-- overlap are merged behind it. What comes out is in such an order; it is then clamped to the
-- buffer, and merged once more if it is to be.
pub update_selections_lem :
    (sels : List Selection) (main : ℕ) (b : Buffer) (time : ℕ) (merge : Bool)
    → (time == timestamp b) ≡ false
    → AreApart (coord 0 0) sels
    → All IsForward (changes_since b time)
    → (r : List Selection × ℕ) × Updated merge (changes_since b time) sels main r
      × AreApart (coord 0 0) r.0
      × (update_selections sels main b time merge
          ≡ merged_if merge (clamp_selections b.lines r.0) r.1)
unfolding update_selections
update_selections_lem sels main b time merge h a w =
    let changes = changes_since b time in
    let (steps, apart) =
      runs_loop-Updated (length changes) merge changes sels main (omega arith) a w in
    (runs_loop (length changes) merge changes sels main, steps, apart, rw h refl)

Logged-IsForward : (ls ls' : BufferLines) (cs : List Change) → Logged ls cs ls' → All IsForward cs
Logged-IsForward ls ls' [] (unchanged _) = tt
Logged-IsForward ls ls' (c ∷ cs) (changed _ _ _ ls1 _ d l) =
    (d.in_order, Logged-IsForward ls1 ls' cs l)

-- No change of the log of a session ends before it begins.
session_changes-IsForward :
    (b b' : Buffer) (snap : Snapshots)
    → SessionOk b snap
    → Reach b b'
    → All IsForward (changes_since b' (timestamp b))
session_changes-IsForward b b' snap s r =
    Logged-IsForward b.lines b'.lines (changes_since b' (timestamp b))
      (changes_since-Logged b b' snap s r)
