-- ===== src/Selections/Update/Merging.antt =====
-- Merging of selections that are in order (src/selection.cc: merge_overlapping), between the runs of
-- update_selections.
use kakoune.Prelude.{ℕ, suc, ◌≡◌, ap, ◌∙◌, inl, inr, Bool, true, false, List, [], ◌∷◌, Bool-cases}
use kakoune.Coord.{BufferCoord, coord_lt}
use kakoune.Changes.Track.{coord_lt_trans}
use kakoune.Selections.{
  Selection, min, max, max_coord, min_coord, merged, overlaps, merge_loop, merge_overlapping,
}
use kakoune.Selections.Order.{merged_ends}
use kakoune.Selections.Merge.{merges, keeps}
use kakoune.Selections.Update.{merged_if}
use kakoune.Selections.Update.Alone.{AreApart, max-not-below}
use kakoune.Selections.Update.Order.{not_lt_refl, AreApart-mono}

-- Merging keeps selections that are in order and at most touch in order.
max_coord-of_le : (a b : BufferCoord) → coord_lt b a ≡ false → coord_lt b (max_coord a b) ≡ false
unfolding max_coord
max_coord-of_le a b h = elim (Bool-cases (coord_lt a b)) [
  | inl q ↦ rw q (not_lt_refl b)
  | inr q ↦ rw q h
]

min_coord-not_below :
    (p a b : BufferCoord)
    → coord_lt a p ≡ false
    → coord_lt b p ≡ false
    → coord_lt (min_coord a b) p ≡ false
unfolding min_coord
min_coord-not_below p a b h k = elim (Bool-cases (coord_lt b a)) [ inl q ↦ rw q k | inr q ↦ rw q h ]

merged-AreApart :
    (p : BufferCoord) (s t : Selection) (sels : List Selection)
    → AreApart p (s ∷ t ∷ sels)
    → AreApart p (merged s t ∷ sels)
merged-AreApart p s t sels a =
    let (first, last) = merged_ends s t in
    let ordered = coord_lt_trans (max s) (min t) (max t) a.1.0 (max-not-below t) in
    let next =
      coord_lt_trans p (min s) (min t) a.0
        (coord_lt_trans (min s) (max s) (min t) (max-not-below s) a.1.0) in
    (
      ap (λ c. coord_lt c p) first ∙ min_coord-not_below p (min s) (min t) a.0 next,
      AreApart-mono (max (merged s t)) (max t) sels
          (ap (coord_lt (max t)) last ∙ max_coord-of_le (max s) (max t) ordered) a.1.1,
    )

merge_loop-AreApart :
    (p : BufferCoord) (current : Selection) (i main : ℕ) (rest : List Selection)
    → AreApart p (current ∷ rest)
    → AreApart p (merge_loop overlaps current i main rest).0
merge_loop-AreApart p current i main [] a = unfold merge_loop in a
merge_loop-AreApart p current i main (next ∷ rest) a = elim (Bool-cases (overlaps current next)) [
  | inl q ↦
      rw (merges overlaps current next i main rest q) (
        merge_loop-AreApart p (merged current next) i _ rest
          (merged-AreApart p current next rest a))
  | inr q ↦
      rw (keeps overlaps current next i main rest q)
        (a.0, merge_loop-AreApart (max current) next (suc i) main rest a.1)
]

pub merged_if-AreApart :
    (merge : Bool) (p : BufferCoord) (sels : List Selection) (main : ℕ)
    → AreApart p sels
    → AreApart p (merged_if merge sels main).0
unfolding merge_overlapping
merged_if-AreApart true p [] main a = tt
merged_if-AreApart true p (s ∷ sels) main a = merge_loop-AreApart p s 0 main sels a
merged_if-AreApart false p sels main a = a
