-- ===== src/Selections/SortMain.antt =====
-- Where sort_selections puts the main index (src/selection.cc).
use kakoune.Prelude.{
  ℕ, zero, suc, ◌+◌, ◌≤◌, ◌<◌, ◌≡◌, refl, inl, inr, Bool, true, false, List, [], ◌∷◌, ltb, ◌==◌,
  if◌then◌else◌, arith, Bool-cases, length, get_or,
}
use kakoune.Coord.{BufferCoord, coord_lt, coord_le, coord_eq}
use kakoune.Selections.{
  Selection, min, max, compare_selections, count_before, insert_sorted, stable_sort, no_selection,
  sort_selections,
}
use kakoune.Selections.Merge.{SortedAfter, IsSorted}
use kakoune.Selections.Sort.{
  IsOrdered, count, IsOrdered-IsSorted, stable_sort-IsOrdered, count-stable_sort,
}

module _ (m : BufferCoord) where
  begins_before : Selection → Bool
  begins_before s = coord_lt (min s) m

  begins_at : Selection → Bool
  begins_at s = coord_eq (min s) m

  abbrev less : List Selection → ℕ
  less sels = count begins_before sels

  abbrev same : List Selection → ℕ
  same sels = count begins_at sels

  head_lt : (a b : BufferCoord) → coord_lt a b ≡ true → coord_eq a b ≡ false
  unfolding coord_lt coord_eq
  head_lt a b h = ground arith

  head_eq : (a b : BufferCoord) → coord_eq a b ≡ true → coord_lt a b ≡ false
  unfolding coord_lt coord_eq
  head_eq a b h = ground arith

  le_not_lt :
      (a b : BufferCoord) → coord_le a b ≡ true → coord_lt a m ≡ false → coord_lt b m ≡ false
  unfolding coord_le
  le_not_lt a b h k = ground arith

  above :
      (a b : BufferCoord)
      → coord_le a b ≡ true
      → coord_lt a m ≡ false
      → coord_eq a m ≡ false
      → (coord_lt b m ≡ false) × (coord_eq b m ≡ false)
  unfolding coord_le
  above a b h k l = (ground arith, ground arith)

  less_zero :
      (a : BufferCoord) (sels : List Selection)
      → coord_lt a m ≡ false
      → SortedAfter a sels
      → less sels ≡ 0
  unfolding count begins_before
  less_zero a [] h k = refl
  less_zero a (s ∷ sels) h k =
      let next = le_not_lt a (min s) k.0 h in
      rw next (omega (arith, less_zero (min s) sels next k.1))

  same_zero :
      (a : BufferCoord) (sels : List Selection)
      → coord_lt a m ≡ false
      → coord_eq a m ≡ false
      → SortedAfter a sels
      → same sels ≡ 0
  unfolding count begins_at
  same_zero a [] h l k = refl
  same_zero a (s ∷ sels) h l k =
      let next = above a (min s) k.0 h l in
      rw (next.1) (omega (arith, same_zero (min s) sels next.0 next.1 k.1))

  IsSorted-tail : (s : Selection) (sels : List Selection) → SortedAfter (min s) sels → IsSorted sels
  IsSorted-tail s [] h = tt
  IsSorted-tail s (t ∷ sels) h = h.1

  -- In sorted selections, those that begin at the position stand behind the ones that begin before.
  sorted_at :
      (sels : List Selection) (n : ℕ)
      → IsSorted sels
      → less sels ≤ n
      → n < less sels + same sels
      → coord_eq (min (get_or sels n no_selection)) m ≡ true
  unfolding count begins_before begins_at
  sorted_at [] n h k l = absurd (omega arith)
  sorted_at (s ∷ sels) n h k l = elim (Bool-cases (coord_lt (min s) m)) [
    | inl q ↦
        let no : coord_eq (min s) m ≡ false = head_lt (min s) m q in
        before n (rw q at k) (rw (q, no) at l)
          (λ i a b. sorted_at sels i (IsSorted-tail s sels h) a b)
    | inr q ↦ elim (Bool-cases (coord_eq (min s) m)) [
      | inl p ↦ at_head n (rw (q, p) at l) p (λ i b.
          sorted_at sels i (IsSorted-tail s sels h) (omega (arith, less_zero (min s) sels q h)) b)
      | inr p ↦
          let none_less = less_zero (min s) sels q h in
          let none_same = same_zero (min s) sels q p h in
          let bound : n < 0 + less sels + (0 + same sels) = rw (q, p) at l in absurd (omega arith)
    ]
  ]
    where
      before :
          (n : ℕ)
          → 1 + less sels ≤ n
          → n < 1 + less sels + (0 + same sels)
          → ((i : ℕ)
              → less sels ≤ i
              → i < less sels + same sels
              → coord_eq (min (get_or sels i no_selection)) m ≡ true)
          → coord_eq (min (get_or (s ∷ sels) n no_selection)) m ≡ true
      before zero k l ih = absurd (omega arith)
      before (suc n) k l ih = ih n (omega arith) (omega arith)

      at_head :
          (n : ℕ)
          → n < 0 + less sels + (1 + same sels)
          → coord_eq (min s) m ≡ true
          → ((i : ℕ)
              → i < less sels + same sels
              → coord_eq (min (get_or sels i no_selection)) m ≡ true)
          → coord_eq (min (get_or (s ∷ sels) n no_selection)) m ≡ true
      at_head zero l p ih = p
      at_head (suc n) l p ih = ih n (omega arith)

  -- The counted index lies among those that begin at the position.
  less-le-count : (main i : ℕ) (sels : List Selection) → less sels ≤ count_before m main i sels
  unfolding count begins_before count_before
  less-le-count main i [] = omega arith
  less-le-count main i (s ∷ sels) = elim (Bool-cases (coord_eq (min s) m)) [
    | inl q ↦ rw (q, head_eq (min s) m q) (omega (arith, less-le-count main (suc i) sels))
    | inr q ↦ rw q (omega (arith, less-le-count main (suc i) sels))
  ]

  count-le :
      (main i : ℕ) (sels : List Selection) → count_before m main i sels ≤ less sels + same sels
  unfolding count begins_before begins_at count_before
  count-le main i [] = omega arith
  count-le main i (s ∷ sels) = elim (Bool-cases (coord_eq (min s) m)) [
    | inl q ↦
        rw (q, head_eq (min s) m q)
          (at_most (ltb i main) (count_before m main (suc i) sels) (less sels) (same sels)
            (count-le main (suc i) sels))
    | inr q ↦ rw q (omega (arith, count-le main (suc i) sels))
  ]
    where
      at_most : (b : Bool) (c l k : ℕ) → c ≤ l + k → (if b then 1 else 0) + c ≤ 0 + l + (1 + k)
      at_most true c l k h = omega arith
      at_most false c l k h = omega arith

  count-lt :
      (main i k : ℕ) (sels : List Selection)
      → i + k ≡ main
      → k < length sels
      → coord_eq (min (get_or sels k no_selection)) m ≡ true
      → count_before m main i sels < less sels + same sels
  unfolding count begins_before begins_at count_before
  count-lt main i k [] e h q = absurd (omega arith)
  count-lt main i zero (s ∷ sels) e h q =
      let here : ltb i main ≡ false = ground arith in
      rw (q, head_eq (min s) m q, here) (omega (arith, count-le main (suc i) sels))
  count-lt main i (suc k) (s ∷ sels) e h q =
      let rest = count-lt main (suc i) k sels (omega arith) (omega arith) q in
      elim (Bool-cases (coord_eq (min s) m)) [
        | inl p ↦
            rw (p, head_eq (min s) m p)
              (below (ltb i main) (count_before m main (suc i) sels) (less sels) (same sels) rest)
        | inr p ↦ rw p (omega arith)
      ]
    where
      below : (b : Bool) (c l k : ℕ) → c < l + k → (if b then 1 else 0) + c < 0 + l + (1 + k)
      below true c l k h = omega arith
      below false c l k h = omega arith

-- What sorting does to selections and their main index.
pub record Sorts (sels : List Selection) (main : ℕ) (r : List Selection × ℕ) : Type 0 where
  pub ordered : IsOrdered r.0
  pub same_items : (p : Selection → Bool) → count p r.0 ≡ count p sels
  pub main_begin :
      coord_eq (min (get_or r.0 r.1 no_selection)) (min (get_or sels main no_selection)) ≡ true

coord_eq_refl : (a : BufferCoord) → coord_eq a a ≡ true
unfolding coord_eq
coord_eq_refl a = ground arith

one_alone :
    (sels : List Selection) (main : ℕ) → (length sels == 1) ≡ true → Sorts sels main (sels, main)
one_alone [] main e = absurd (ground arith)
one_alone (s ∷ []) main e = record {
  ordered = tt;
  same_items = λ p. refl;
  main_begin = coord_eq_refl (min (get_or (s ∷ []) main no_selection));
}
one_alone (s ∷ t ∷ sels) main e = absurd (ground arith)

-- Sorting gives the same selections in the order of compare_selections, and the main index then
-- names a selection that begins where the main selection begins.
pub sort_selections-Sorts :
    (sels : List Selection) (main : ℕ)
    → main < length sels
    → Sorts sels main (sort_selections sels main)
unfolding sort_selections
sort_selections-Sorts sels main h = elim (Bool-cases (length sels == 1)) [
  | inl q ↦ rw q (one_alone sels main q)
  | inr q ↦
      let m = min (get_or sels main no_selection) in
      let n = count_before m main 0 sels in
      let sorted = IsOrdered-IsSorted (stable_sort sels) (stable_sort-IsOrdered sels) in
      let l = count-stable_sort (begins_before m) sels in
      let e = count-stable_sort (begins_at m) sels in
      let low = less-le-count m main 0 sels in
      let high = count-lt m main 0 main sels (omega arith) h (coord_eq_refl m) in
      rw q (record {
        ordered = stable_sort-IsOrdered sels;
        same_items = λ p. count-stable_sort p sels;
        main_begin = sorted_at m (stable_sort sels) n sorted (below l low) (within l e high);
      })
]
  where
    below : {a b c : ℕ} → a ≡ b → b ≤ c → a ≤ c
    below e h = omega arith

    within : {a b c d n : ℕ} → a ≡ b → c ≡ d → n < b + d → n < a + c
    within e f h = omega arith

pair_sorts :
    (s t : Selection)
    → coord_eq (min t) (min s) ≡ true
    → coord_lt (max t) (max s) ≡ true
    → compare_selections t s ≡ true
unfolding compare_selections
pair_sorts s t h k = rw h k

-- Of two selections that begin together, the longer one first and main, sorting makes the shorter
-- one main.
pub main_changes :
    (s t : Selection)
    → coord_eq (min t) (min s) ≡ true
    → coord_lt (max t) (max s) ≡ true
    → sort_selections (s ∷ t ∷ []) 0 ≡ (t ∷ s ∷ [], 0)
unfolding sort_selections stable_sort insert_sorted count_before
main_changes s t h k = rw (pair_sorts s t h k, h, coord_eq_refl (min s))
