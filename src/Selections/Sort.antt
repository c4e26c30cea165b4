-- ===== src/Selections/Sort.antt =====
-- Sorting of selections (src/selection.cc: sort_selections, compare_selections).
use kakoune.Prelude.{
  ℕ, ◌+◌, ◌≡◌, refl, ap, ◌∙◌, inl, inr, Bool, true, false, List, [], ◌∷◌, if◌then◌else◌, arith,
  Bool-cases,
}
use kakoune.Coord.{BufferCoord, coord_lt, coord_le, coord_eq}
use kakoune.Selections.{Selection, min, max, compare_selections, insert_sorted, stable_sort}
use kakoune.Selections.Merge.{IsSorted}

-- No selection is before the one that stands before it.
abbrev pub IsOrdered : List Selection → Type 0
IsOrdered [] = Unit
IsOrdered (s ∷ []) = Unit
IsOrdered (s ∷ t ∷ sels) = (compare_selections t s ≡ false) × IsOrdered (t ∷ sels)

unfoldable pub count : (Selection → Bool) → List Selection → ℕ
count p [] = 0
count p (s ∷ sels) = (if p s then 1 else 0) + count p sels

not_before_le :
    (a b c d : BufferCoord)
    → (if coord_eq a b then coord_lt c d else coord_lt a b) ≡ false
    → coord_le b a ≡ true
unfolding coord_le
not_before_le a b c d h = ground arith

before_asym :
    (a b c d : BufferCoord)
    → (if coord_eq a b then coord_lt c d else coord_lt a b) ≡ true
    → (if coord_eq b a then coord_lt d c else coord_lt b a) ≡ false
unfolding coord_lt coord_eq
before_asym a b c d h = ground arith

pub compare_false-le :
    (t s : Selection) → compare_selections t s ≡ false → coord_le (min s) (min t) ≡ true
unfolding compare_selections
compare_false-le t s h = not_before_le (min t) (min s) (max t) (max s) h

compare_asym : (t s : Selection) → compare_selections t s ≡ true → compare_selections s t ≡ false
unfolding compare_selections
compare_asym t s h = before_asym (min t) (min s) (max t) (max s) h

pub IsOrdered-IsSorted : (sels : List Selection) → IsOrdered sels → IsSorted sels
IsOrdered-IsSorted [] h = tt
IsOrdered-IsSorted (s ∷ []) h = tt
IsOrdered-IsSorted (s ∷ t ∷ sels) h = (compare_false-le t s h.0, IsOrdered-IsSorted (t ∷ sels) h.1)

insert_before :
    (s t : Selection) (sels : List Selection)
    → compare_selections t s ≡ false
    → insert_sorted s (t ∷ sels) ≡ s ∷ t ∷ sels
unfolding insert_sorted
insert_before s t sels h = rw h

insert_after :
    (s t : Selection) (sels : List Selection)
    → compare_selections t s ≡ true
    → insert_sorted s (t ∷ sels) ≡ t ∷ insert_sorted s sels
unfolding insert_sorted
insert_after s t sels h = rw h

insert_sorted-IsOrdered :
    (s : Selection) (sels : List Selection) → IsOrdered sels → IsOrdered (insert_sorted s sels)
insert_sorted-IsOrdered s [] h = unfold insert_sorted in tt
insert_sorted-IsOrdered s (t ∷ []) h = elim (Bool-cases (compare_selections t s)) [
  | inl q ↦ rw (insert_after s t [] q) (unfold insert_sorted in (compare_asym t s q, tt))
  | inr q ↦ rw (insert_before s t [] q) (q, tt)
]
insert_sorted-IsOrdered s (t ∷ u ∷ sels) h = elim (Bool-cases (compare_selections t s)) [
  | inr q ↦ rw (insert_before s t (u ∷ sels) q) (q, h)
  | inl q ↦
      let ih = insert_sorted-IsOrdered s (u ∷ sels) h.1 in
      rw (insert_after s t (u ∷ sels) q) (elim (Bool-cases (compare_selections u s)) [
        | inl p ↦ rw (insert_after s u sels p) (h.0, rw (insert_after s u sels p) at ih)
        | inr p ↦ rw (insert_before s u sels p) (compare_asym t s q, (p, h.1))
      ])
]

pub stable_sort-IsOrdered : (sels : List Selection) → IsOrdered (stable_sort sels)
unfolding stable_sort
stable_sort-IsOrdered [] = tt
stable_sort-IsOrdered (s ∷ sels) =
    insert_sorted-IsOrdered s (stable_sort sels) (stable_sort-IsOrdered sels)

count-insert_sorted :
    (p : Selection → Bool) (s : Selection) (sels : List Selection)
    → count p (insert_sorted s sels) ≡ (if p s then 1 else 0) + count p sels
unfolding count insert_sorted
count-insert_sorted p s [] = refl
count-insert_sorted p s (t ∷ sels) = ground (arith, count-insert_sorted p s sels)

pub count-stable_sort :
    (p : Selection → Bool) (sels : List Selection) → count p (stable_sort sels) ≡ count p sels
unfolding stable_sort count
count-stable_sort p [] = refl
count-stable_sort p (s ∷ sels) =
    count-insert_sorted p s (stable_sort sels)
    ∙ ap (λ n. (if p s then 1 else 0) + n) (count-stable_sort p sels)
