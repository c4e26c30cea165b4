-- ===== src/Selections/Update/Bounds.antt =====
-- Selections stay within the buffer through an update (src/selection.cc: update_selections).
use kakoune.Prelude.{
  ℕ, zero, suc, ◌<◌, ◌≡◌, refl, ap, inl, inr, Bool, true, false, List, [], ◌∷◌, All, reverse,
  length, length-append, take, drop, take-append-drop, leb, ◌==◌, if◌then◌else◌, arith, Bool-cases,
}
use kakoune.Coord.{BufferCoord, coord_lt, coord_le}
use kakoune.Lines.{BufferLines}
use kakoune.Lines.View.{Valid}
use kakoune.Lines.WellFormed.{WellFormed}
use kakoune.Lines.Navigate.Distance.{clamp_lem}
use kakoune.Buffer.{Change, Buffer}
use kakoune.Changes.{
  timestamp, changes_since, new_tracker, forward_sorted_until, backward_sorted_until,
}
use kakoune.Selections.{
  Selection, selection, min, max, min_coord, max_coord, set_min, set_max, merged, overlaps,
  merge_loop, merge_overlapping, clamp_selection, clamp_selections,
}
use kakoune.Selections.Merge.{merges, keeps}
use kakoune.Selections.Main.{merge_overlapping-main}
use kakoune.Selections.Update.{
  Walk, walk, Advance, advance_forward, advance_backward, update_range, update_loop, lower_bound,
  update_from, update_forward, update_backward, update_run, merged_if, runs_loop, update_selections,
}

update_loop-length :
    (advance : Advance) (w : Walk) (sels : List Selection)
    → length (update_loop advance w sels) ≡ length sels
unfolding update_loop
update_loop-length advance w [] = refl
update_loop-length advance w (s ∷ sels) =
    ap suc (update_loop-length advance (update_range advance w s).1 sels)

update_from-length :
    (begin : BufferCoord) (changes : List Change) (sels : List Selection)
    → length (update_from begin changes sels) ≡ length sels
unfolding update_from
update_from-length begin changes sels =
    let n = lower_bound begin sels in
    let w = walk new_tracker changes in
    omega (
      arith,
      length-append (take n sels) (update_loop advance_forward w (drop n sels)),
      update_loop-length advance_forward w (drop n sels),
      length-append (take n sels) (drop n sels),
      ap length (take-append-drop n sels),
    )

update_forward-length :
    (changes : List Change) (sels : List Selection)
    → length (update_forward changes sels) ≡ length sels
unfolding update_forward
update_forward-length [] sels = refl
update_forward-length (c ∷ cs) sels = update_from-length c.begin (c ∷ cs) sels

update_run-length :
    (changes : List Change) (sels : List Selection)
    → length (update_run changes sels).1 ≡ length sels
unfolding update_run update_backward
update_run-length changes sels =
    let forward_end = forward_sorted_until changes in
    let backward_end = backward_sorted_until changes in
    elim (Bool-cases (leb backward_end forward_end)) [
      | inl q ↦ rw q (update_forward-length (take forward_end changes) sels)
      | inr q ↦ rw q (
          update_loop-length advance_backward
            (walk new_tracker (reverse (take backward_end changes))) sels)
    ]

-- The main index is that of a selection.
abbrev pub MainWithin : List Selection × ℕ → Type 0
MainWithin (sels, main) = main < length sels

merged_if-MainWithin :
    (merge : Bool) (sels : List Selection) (main : ℕ)
    → main < length sels
    → MainWithin (merged_if merge sels main)
merged_if-MainWithin true sels main h = merge_overlapping-main overlaps sels main h
merged_if-MainWithin false sels main h = h

runs_loop-MainWithin :
    (fuel : ℕ) (merge : Bool) (changes : List Change) (sels : List Selection) (main : ℕ)
    → main < length sels
    → MainWithin (runs_loop fuel merge changes sels main)
unfolding runs_loop
runs_loop-MainWithin zero merge changes sels main h = h
runs_loop-MainWithin (suc fuel) merge [] sels main h = h
runs_loop-MainWithin (suc fuel) merge (c ∷ cs) sels main h =
    let r = update_run (c ∷ cs) sels in
    let size : main < length r.1 = omega (arith, update_run-length (c ∷ cs) sels) in
    let m = merged_if merge r.1 main in
    runs_loop-MainWithin fuel merge (drop r.0 (c ∷ cs)) m.0 m.1
      (merged_if-MainWithin merge r.1 main size)

clamp_selections-length :
    (ls : BufferLines) (sels : List Selection) → length (clamp_selections ls sels) ≡ length sels
unfolding clamp_selections
clamp_selections-length ls [] = refl
clamp_selections-length ls (s ∷ sels) = ap suc (clamp_selections-length ls sels)

-- Both ends of a selection stand on a byte of the lines.
abbrev pub IsOn : BufferLines → BufferCoord → Type 0
IsOn ls c = Valid ls c × (c.line < length ls)

abbrev pub IsInside : BufferLines → Selection → Type 0
IsInside ls s = IsOn ls s.anchor × IsOn ls s.cursor

module _ (ls : BufferLines) where
  choice : (b : Bool) (c d : BufferCoord) → IsOn ls c → IsOn ls d → IsOn ls (if b then c else d)
  choice true c d h k = h
  choice false c d h k = k

  choice_of :
      (b : Bool) (s t : Selection)
      → IsInside ls s
      → IsInside ls t
      → IsInside ls (if b then s else t)
  choice_of true s t h k = h
  choice_of false s t h k = k

  min-IsOn : (s : Selection) → IsInside ls s → IsOn ls (min s)
  unfolding min
  min-IsOn s h = choice (coord_le s.anchor s.cursor) s.anchor s.cursor h.0 h.1

  max-IsOn : (s : Selection) → IsInside ls s → IsOn ls (max s)
  unfolding max
  max-IsOn s h = choice (coord_le s.anchor s.cursor) s.cursor s.anchor h.1 h.0

  set_min-IsInside :
      (s : Selection) (c : BufferCoord) → IsInside ls s → IsOn ls c → IsInside ls (set_min s c)
  unfolding set_min
  set_min-IsInside s c h k =
      choice_of (coord_le s.anchor s.cursor) (selection c s.cursor) (selection s.anchor c) (k, h.1)
        (h.0, k)

  set_max-IsInside :
      (s : Selection) (c : BufferCoord) → IsInside ls s → IsOn ls c → IsInside ls (set_max s c)
  unfolding set_max
  set_max-IsInside s c h k =
      choice_of (coord_le s.anchor s.cursor) (selection s.anchor c) (selection c s.cursor) (h.0, k)
        (k, h.1)

  merged-IsInside : (s t : Selection) → IsInside ls s → IsInside ls t → IsInside ls (merged s t)
  unfolding merged min_coord max_coord
  merged-IsInside s t h k =
      let c = min_coord (min s) (min t) in
      let first =
        set_min-IsInside s c h
          (choice (coord_lt (min t) (min s)) (min t) (min s) (min-IsOn t k) (min-IsOn s h)) in
      set_max-IsInside (set_min s c) (max_coord (max (set_min s c)) (max t)) first (
        choice (coord_lt (max (set_min s c)) (max t)) (max t) (max (set_min s c)) (max-IsOn t k)
          (max-IsOn (set_min s c) first))

  merge_loop-IsInside :
      (current : Selection) (i main : ℕ) (rest : List Selection)
      → IsInside ls current
      → All (IsInside ls) rest
      → All (IsInside ls) (merge_loop overlaps current i main rest).0
  merge_loop-IsInside current i main [] h k = unfold merge_loop in (h, tt)
  merge_loop-IsInside current i main (next ∷ rest) h k = elim (Bool-cases (overlaps current next)) [
    | inl q ↦ rw (merges overlaps current next i main rest q) (
        merge_loop-IsInside (merged current next) i _ rest (merged-IsInside current next h k.0) k.1)
    | inr q ↦
        rw (keeps overlaps current next i main rest q)
          (h, merge_loop-IsInside next (suc i) main rest k.0 k.1)
  ]

  merged_if-IsInside :
      (merge : Bool) (sels : List Selection) (main : ℕ)
      → All (IsInside ls) sels
      → All (IsInside ls) (merged_if merge sels main).0
  unfolding merge_overlapping
  merged_if-IsInside true [] main h = tt
  merged_if-IsInside true (s ∷ sels) main h = merge_loop-IsInside s 0 main sels h.0 h.1
  merged_if-IsInside false sels main h = h

  clamp_selections-IsInside :
      (sels : List Selection)
      → WellFormed ls
      → 0 < length ls
      → All (IsInside ls) (clamp_selections ls sels)
  unfolding clamp_selections clamp_selection
  clamp_selections-IsInside [] w ne = tt
  clamp_selections-IsInside (s ∷ sels) w ne =
      let a = clamp_lem ls s.anchor w ne in
      let c = clamp_lem ls s.cursor w ne in
      (((a.0, a.1), (c.0, c.1)), clamp_selections-IsInside sels w ne)

-- After an update to the buffer's changes, merging or not, there is still a main selection, and all
-- selections stand on bytes of the buffer; without changes they stay as they are.
update_selections-bounds :
    (sels : List Selection) (main : ℕ) (b : Buffer) (time : ℕ) (merge : Bool)
    → WellFormed b.lines
    → 0 < length b.lines
    → main < length sels
    → MainWithin (update_selections sels main b time merge)
      × (((time == timestamp b) ≡ false)
          → All (IsInside b.lines) (update_selections sels main b time merge).0)
      × (((time == timestamp b) ≡ true) → update_selections sels main b time merge ≡ (sels, main))
unfolding update_selections
update_selections-bounds sels main b time merge w ne h = elim (Bool-cases (time == timestamp b)) [
  | inl q ↦ rw q (h, (λ k. absurd (cc)), (λ k. refl))
  | inr q ↦
      let changes = changes_since b time in
      let r = runs_loop (length changes) merge changes sels main in
      let inside = clamp_selections-IsInside b.lines r.0 w ne in
      let within : r.1 < length (clamp_selections b.lines r.0) = omega (
        arith,
        runs_loop-MainWithin (length changes) merge changes sels main h,
        clamp_selections-length b.lines r.0,
      ) in
      rw q (
        merged_if-MainWithin merge (clamp_selections b.lines r.0) r.1 within,
        (λ k. merged_if-IsInside b.lines merge (clamp_selections b.lines r.0) r.1 inside),
        (λ k. absurd (cc)),
      )
]
