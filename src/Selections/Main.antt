-- ===== src/Selections/Main.antt =====
-- The main selection through a merge (src/selection.cc: merge_overlapping).
use kakoune.Prelude.{
  ℕ, zero, suc, ◌+◌, ◌-◌, ◌≤◌, ◌<◌, ◌≡◌, refl, sym, ap, subst, ◌∙◌, inl, inr, Bool, true, false,
  List, [], ◌∷◌, ltb, ◌==◌, arith, Bool-cases, length, get_or, lt→ltb, le→ltb_false,
}
use kakoune.Coord.{BufferCoord, coord_le}
use kakoune.Selections.{
  Selection, min, max, overlaps, merged, merge_loop, merge_overlapping,
  merge_overlapping_selections, any_overlaps, no_selection,
}
use kakoune.Selections.Order.{
  le_refl, le_trans, merged_ends, min_coord-le-right, min_coord-le, le-max_coord,
  le-max_coord-right,
}
use kakoune.Selections.Merge.{
  IsSorted, covered, merges, keeps, merge_loop-covered, merge_loop-Separate,
}

-- The first selection contains the second.
abbrev pub Contains : Selection → Selection → Type 0
Contains s t = (coord_le (min s) (min t) ≡ true) × (coord_le (max t) (max s) ≡ true)

Contains-refl : (s : Selection) → Contains s s
Contains-refl s = (le_refl (min s), le_refl (max s))

Contains-trans : (s t u : Selection) → Contains s t → Contains t u → Contains s u
Contains-trans s t u h k =
    (le_trans (min s) (min t) (min u) h.0 k.0, le_trans (max u) (max t) (max s) k.1 h.1)

merged-Contains-left : (s t : Selection) → Contains (merged s t) s
merged-Contains-left s t = (
  ap (λ m. coord_le m (min s)) (merged_ends s t).0 ∙ min_coord-le (min s) (min t),
  ap (coord_le (max s)) (merged_ends s t).1 ∙ le-max_coord (max s) (max t),
)

merged-Contains-right : (s t : Selection) → Contains (merged s t) t
merged-Contains-right s t = (
  ap (λ m. coord_le m (min t)) (merged_ends s t).0 ∙ min_coord-le-right (min s) (min t),
  ap (coord_le (max t)) (merged_ends s t).1 ∙ le-max_coord-right (max s) (max t),
)

-- A main index that the loop has passed stays.
main_stays :
    (overlap : Selection → Selection → Bool) (current : Selection) (i main : ℕ)
    (rest : List Selection)
    → main ≤ i
    → (merge_loop overlap current i main rest).1 ≡ main
main_stays overlap current i main [] h = unfold merge_loop in refl
main_stays overlap current i main (next ∷ rest) h = elim (Bool-cases (overlap current next)) [
  | inl q ↦
      let passed : ltb i main ≡ false = le→ltb_false i main h in
      rw (merges overlap current next i main rest q, passed)
        (main_stays overlap (merged current next) i main rest h)
  | inr q ↦
      rw (keeps overlap current next i main rest q)
        (main_stays overlap next (suc i) main rest (omega arith))
]

-- Where the main index points in what the loop keeps, seen from its first selection.
record Points (i : ℕ) (r : List Selection × ℕ) (s : Selection) : Type 0 where
  place : ℕ
  at : r.1 ≡ i + place
  within : place < length r.0
  holds : Contains (get_or r.0 place no_selection) s

Points-weaken :
    (i : ℕ) (r : List Selection × ℕ) (s t : Selection) → Contains s t → Points i r s → Points i r t
Points-weaken i r s t h p = record {
  place = p.place;
  at = p.at;
  within = p.within;
  holds = Contains-trans (get_or r.0 p.place no_selection) s t p.holds h;
}

Points-cons :
    (i : ℕ) (c : Selection) (r : List Selection × ℕ) (s : Selection)
    → Points (suc i) r s
    → Points i (c ∷ r.0, r.1) s
Points-cons i c r s p = record {
  place = suc p.place;
  at = omega (arith, p.at);
  within = omega (arith, p.within);
  holds = p.holds;
}

main-Points :
    (overlap : Selection → Selection → Bool) (current : Selection) (i k main : ℕ)
    (rest : List Selection)
    → main ≡ i + k
    → k < suc (length rest)
    → Points i (merge_loop overlap current i main rest) (get_or (current ∷ rest) k no_selection)
main-Points overlap current i zero main [] e h =
    unfold merge_loop in
    record { place = 0; at = e; within = omega arith; holds = Contains-refl current }
main-Points overlap current i (suc k) main [] e h = absurd (omega arith)
main-Points overlap current i zero main (next ∷ rest) e h =
    elim (Bool-cases (overlap current next)) [
      | inl q ↦
          let passed : ltb i main ≡ false = le→ltb_false i main (omega arith) in
          rw (merges overlap current next i main rest q, passed)
            (Points-weaken i (merge_loop overlap (merged current next) i main rest)
              (merged current next) current (merged-Contains-left current next)
              (main-Points overlap (merged current next) i zero main rest e (omega arith)))
      | inr q ↦ rw (keeps overlap current next i main rest q) (record {
        place = 0;
        at = main_stays overlap next (suc i) main rest (omega arith) ∙ e;
        within = omega arith;
        holds = Contains-refl current;
      })
    ]
main-Points overlap current i (suc k) main (next ∷ rest) e h =
    elim (Bool-cases (overlap current next)) [
      | inl q ↦
          let ahead : ltb i main ≡ true = lt→ltb i main (omega arith) in
          rw (merges overlap current next i main rest q, ahead)
            (from_merged k (
              main-Points overlap (merged current next) i k (main - 1) rest (omega arith)
                (omega arith)))
      | inr q ↦ rw (keeps overlap current next i main rest q) (
          Points-cons i current (merge_loop overlap next (suc i) main rest)
            (get_or (next ∷ rest) k no_selection)
            (main-Points overlap next (suc i) k main rest (omega arith) (omega arith)))
    ]
  where
    from_merged :
        (k : ℕ)
        → Points i
            (merge_loop overlap (merged current next) i (main - 1) rest)
            (get_or (merged current next ∷ rest) k no_selection)
        → Points i
            (merge_loop overlap (merged current next) i (main - 1) rest)
            (get_or (next ∷ rest) k no_selection)
    from_merged zero p =
        Points-weaken i (merge_loop overlap (merged current next) i (main - 1) rest)
          (merged current next) next (merged-Contains-right current next) p
    from_merged (suc k) p = p

-- Whatever counts as overlapping, and in any order, the main index stays within the selections.
pub merge_overlapping-main :
    (overlap : Selection → Selection → Bool) (sels : List Selection) (main : ℕ)
    → main < length sels
    → (merge_overlapping overlap sels main).1 < length (merge_overlapping overlap sels main).0
unfolding merge_overlapping
merge_overlapping-main overlap [] main h = absurd (omega arith)
merge_overlapping-main overlap (s ∷ sels) main h =
    let p = main-Points overlap s 0 main main sels (omega arith) h in omega (arith, p.at, p.within)

-- What merging the overlapping ones does to sorted selections and their main index.
pub record Merges (sels : List Selection) (main : ℕ) (r : List Selection × ℕ) : Type 0 where
  pub same_positions : (p : BufferCoord) → covered r.0 p ≡ covered sels p
  pub apart : any_overlaps r.0 ≡ false
  pub main_within : r.1 < length r.0
  pub main_grows : Contains (get_or r.0 r.1 no_selection) (get_or sels main no_selection)

merge_overlapping-Merges :
    (sels : List Selection) (main : ℕ)
    → IsSorted sels
    → main < length sels
    → Merges sels main (merge_overlapping overlaps sels main)
unfolding merge_overlapping
merge_overlapping-Merges [] main h k = absurd (omega arith)
merge_overlapping-Merges (s ∷ sels) main h k =
    let p = main-Points overlaps s 0 main main sels (omega arith) k in
    let r = merge_loop overlaps s 0 main sels in
    let at : r.1 ≡ p.place = p.at ∙ omega arith in
    record {
      same_positions = λ q. merge_loop-covered s 0 main sels q h ∙ unfold covered in refl;
      apart = (merge_loop-Separate s 0 main sels h).apart;
      main_within = subst (λ n. n < length r.0) (sym at) p.within;
      main_grows =
          subst (λ n. Contains (get_or r.0 n no_selection) (get_or (s ∷ sels) main no_selection))
            (sym at) p.holds;
    }

one_alone :
    (sels : List Selection) (main : ℕ)
    → (length sels == 1) ≡ true
    → main < length sels
    → Merges sels main (sels, main)
unfolding any_overlaps
one_alone [] main e h = absurd (omega arith)
one_alone (s ∷ []) main e h = record {
  same_positions = λ p. refl;
  apart = refl;
  main_within = h;
  main_grows = Contains-refl (get_or (s ∷ []) main no_selection);
}
one_alone (s ∷ t ∷ sels) main e h = absurd (ground arith)

-- Merging sorted selections leaves selections of which no two neighbours overlap and which cover
-- the same positions; the main index stays within them, and the main selection contains the one
-- that was main before.
pub merge_overlapping_selections-Merges :
    (sels : List Selection) (main : ℕ)
    → IsSorted sels
    → main < length sels
    → Merges sels main (merge_overlapping_selections sels main)
unfolding merge_overlapping_selections
merge_overlapping_selections-Merges sels main h k = elim (Bool-cases (length sels == 1)) [
  | inl q ↦ rw q (one_alone sels main q k)
  | inr q ↦ rw q (merge_overlapping-Merges sels main h k)
]
