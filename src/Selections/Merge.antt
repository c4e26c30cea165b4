-- ===== src/Selections/Merge.antt =====
-- Merging of selections that overlap (src/selection.cc: merge_overlapping).
use kakoune.Prelude.{
  ℕ, suc, ◌-◌, ◌≡◌, refl, sym, ap, subst, ◌∙◌, inl, inr, Bool, true, false, ◌||◌, List, [], ◌∷◌,
  ltb, if◌then◌else◌, Bool-cases,
}
use kakoune.Coord.{BufferCoord, coord_le}
use kakoune.Selections.{Selection, min, max, overlaps, merged, merge_loop, any_overlaps}
use kakoune.Selections.Order.{le_trans, min_coord_of_le, merged_ends, covers, covers-merged}

-- In the order of their beginnings, from a position on.
abbrev pub SortedAfter : BufferCoord → List Selection → Type 0
SortedAfter m [] = Unit
SortedAfter m (s ∷ sels) = (coord_le m (min s) ≡ true) × SortedAfter (min s) sels

abbrev pub IsSorted : List Selection → Type 0
IsSorted [] = Unit
IsSorted (s ∷ sels) = SortedAfter (min s) sels

SortedAfter-mono :
    (a b : BufferCoord) (sels : List Selection)
    → coord_le a b ≡ true
    → SortedAfter b sels
    → SortedAfter a sels
SortedAfter-mono a b [] h k = tt
SortedAfter-mono a b (s ∷ sels) h k = (le_trans a b (min s) h k.0, k.1)

-- Some selection covers the position.
unfoldable pub covered : List Selection → BufferCoord → Bool
covered [] p = false
covered (s ∷ sels) p = covers s p || covered sels p

pub merges :
    (overlap : Selection → Selection → Bool) (current next : Selection) (i main : ℕ)
    (rest : List Selection)
    → overlap current next ≡ true
    → merge_loop overlap current i main (next ∷ rest)
      ≡ merge_loop overlap (merged current next) i (if ltb i main then main - 1 else main) rest
unfolding merge_loop
merges overlap current next i main rest h = rw (h, merge_loop)

pub keeps :
    (overlap : Selection → Selection → Bool) (current next : Selection) (i main : ℕ)
    (rest : List Selection)
    → overlap current next ≡ false
    → merge_loop overlap current i main (next ∷ rest) ≡ (
      current ∷ (merge_loop overlap next (suc i) main rest).0,
      (merge_loop overlap next (suc i) main rest).1,
    )
unfolding merge_loop
keeps overlap current next i main rest h = rw (h, merge_loop)

min-merged : (s t : Selection) → coord_le (min s) (min t) ≡ true → min (merged s t) ≡ min s
min-merged s t h = (merged_ends s t).0 ∙ min_coord_of_le (min s) (min t) h

or_assoc : (a b c : Bool) → ((a || b) || c) ≡ (a || (b || c))
or_assoc true b c = refl
or_assoc false b c = refl

after_merge :
    (current next : Selection) (rest : List Selection)
    → SortedAfter (min current) (next ∷ rest)
    → SortedAfter (min (merged current next)) rest
after_merge current next rest h =
    subst (λ m. SortedAfter m rest) (sym (min-merged current next h.0))
      (SortedAfter-mono (min current) (min next) rest h.0 h.1)

pub merge_loop-covered :
    (current : Selection) (i main : ℕ) (rest : List Selection) (p : BufferCoord)
    → SortedAfter (min current) rest
    → covered (merge_loop overlaps current i main rest).0 p ≡ (covers current p || covered rest p)
unfolding covered
merge_loop-covered current i main [] p h = unfold merge_loop in refl
merge_loop-covered current i main (next ∷ rest) p h = elim (Bool-cases (overlaps current next)) [
  | inl q ↦ rw (merges overlaps current next i main rest q) (
      merge_loop-covered (merged current next) i (if ltb i main then main - 1 else main) rest p
        (after_merge current next rest h)
      ∙ ap (λ b. b || covered rest p) (covers-merged current next p h.0 q)
      ∙ or_assoc (covers current p) (covers next p) (covered rest p))
  | inr q ↦
      rw (keeps overlaps current next i main rest q)
        (ap (λ b. covers current p || b) (merge_loop-covered next (suc i) main rest p h.1))
]

-- What the loop keeps begins where its first selection began, and nothing in it overlaps.
pub record Separate (m : BufferCoord) (sels : List Selection) : Type 0 where
  pub first : Selection
  pub others : List Selection
  pub is_cons : sels ≡ first ∷ others
  pub begins : min first ≡ m
  pub apart : any_overlaps sels ≡ false

overlaps_ordered :
    (s t : Selection) → coord_le (min s) (min t) ≡ true → overlaps s t ≡ coord_le (min t) (max s)
unfolding overlaps
overlaps_ordered s t h = rw h

Separate-cons :
    (s t : Selection) (sels : List Selection)
    → coord_le (min s) (min t) ≡ true
    → overlaps s t ≡ false
    → Separate (min t) sels
    → Separate (min s) (s ∷ sels)
unfolding any_overlaps
Separate-cons s t sels h k a =
    let reach : coord_le (min t) (max s) ≡ false = sym (overlaps_ordered s t h) ∙ k in
    let order : coord_le (min s) (min a.first) ≡ true = ap (coord_le (min s)) a.begins ∙ h in
    let free : overlaps s a.first ≡ false =
      overlaps_ordered s a.first order ∙ ap (λ m. coord_le m (max s)) a.begins ∙ reach in
    let rest : any_overlaps (a.first ∷ a.others) ≡ false =
      ap any_overlaps (sym a.is_cons) ∙ a.apart in
    record {
      first = s;
      others = sels;
      is_cons = refl;
      begins = refl;
      apart = ap (λ l. any_overlaps (s ∷ l)) a.is_cons ∙ (rw (free, rest));
    }

pub merge_loop-Separate :
    (current : Selection) (i main : ℕ) (rest : List Selection)
    → SortedAfter (min current) rest
    → Separate (min current) (merge_loop overlaps current i main rest).0
merge_loop-Separate current i main [] h =
    unfold merge_loop any_overlaps in
    record { first = current; others = []; is_cons = refl; begins = refl; apart = refl }
merge_loop-Separate current i main (next ∷ rest) h = elim (Bool-cases (overlaps current next)) [
  | inl q ↦ rw (merges overlaps current next i main rest q) (
      subst
        (λ m.
          Separate m
            (merge_loop overlaps (merged current next) i (if ltb i main then main - 1 else main)
              rest).0)
        (min-merged current next h.0)
        (merge_loop-Separate (merged current next) i (if ltb i main then main - 1 else main) rest
          (after_merge current next rest h)))
  | inr q ↦ rw (keeps overlaps current next i main rest q) (
      Separate-cons current next (merge_loop overlaps next (suc i) main rest).0 h.0 q
        (merge_loop-Separate next (suc i) main rest h.1))
]
