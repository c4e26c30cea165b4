-- ===== src/Selections/Order.antt =====
-- Selections as intervals of positions (src/selection.hh, src/selection.cc).
use kakoune.Prelude.{◌≡◌, refl, ap, ◌∙◌, inl, inr, Bool, true, false, ◌&&◌, ◌||◌, arith, Bool-cases}
use kakoune.Coord.{BufferCoord, coord_lt, coord_le}
use kakoune.Selections.{
  Selection, min, max, set_min, set_max, min_coord, max_coord, overlaps, merged,
}

pub le_refl : (a : BufferCoord) → coord_le a a ≡ true
unfolding coord_le
le_refl a = ground arith

pub le_trans :
    (a b c : BufferCoord) → coord_le a b ≡ true → coord_le b c ≡ true → coord_le a c ≡ true
unfolding coord_le
le_trans a b c h k = ground arith

pub le_total : (a b : BufferCoord) → coord_le a b ≡ false → coord_le b a ≡ true
unfolding coord_le
le_total a b h = ground arith

pub lt_le : (a b : BufferCoord) → coord_lt a b ≡ true → coord_le a b ≡ true
unfolding coord_le
lt_le a b h = ground arith

pub lt_not_le : (a b : BufferCoord) → coord_lt a b ≡ false → coord_le b a ≡ true
unfolding coord_le
lt_not_le a b h = ground arith

pub min-le-max : (s : Selection) → coord_le (min s) (max s) ≡ true
unfolding min max
min-le-max s = elim (Bool-cases (coord_le s.anchor s.cursor)) [
  | inl q ↦ rw (q, q)
  | inr q ↦ rw q (le_total s.anchor s.cursor q)
]

not_le_below :
    (a b c : BufferCoord) → coord_le a b ≡ false → coord_le c b ≡ true → coord_le a c ≡ false
unfolding coord_le
not_le_below a b c h k = ground arith

not_le_above :
    (a b c : BufferCoord) → coord_le a b ≡ false → coord_le a c ≡ true → coord_le c b ≡ false
unfolding coord_le
not_le_above a b c h k = ground arith

-- The ends of a selection after an assignment that keeps their order.
set_min_ends :
    (s : Selection) (c : BufferCoord)
    → coord_le c (min s) ≡ true
    → (min (set_min s c) ≡ c) × (max (set_min s c) ≡ max s)
unfolding min max set_min
set_min_ends s c h = elim (Bool-cases (coord_le s.anchor s.cursor)) [
  | inl q ↦
      let h' : coord_le c s.anchor ≡ true = rw q at h in
      let below = le_trans c s.anchor s.cursor h' q in (rw (q, below) refl, rw (q, below) refl)
  | inr q ↦
      let h' : coord_le c s.cursor ≡ true = rw q at h in
      let below = not_le_below s.anchor s.cursor c q h' in (rw (q, below) refl, rw (q, below) refl)
]

set_max_ends :
    (s : Selection) (c : BufferCoord)
    → coord_le (max s) c ≡ true
    → (min (set_max s c) ≡ min s) × (max (set_max s c) ≡ c)
unfolding min max set_max
set_max_ends s c h = elim (Bool-cases (coord_le s.anchor s.cursor)) [
  | inl q ↦
      let h' : coord_le s.cursor c ≡ true = rw q at h in
      let above = le_trans s.anchor s.cursor c q h' in (rw (q, above) refl, rw (q, above) refl)
  | inr q ↦
      let h' : coord_le s.anchor c ≡ true = rw q at h in
      let above = not_le_above s.anchor s.cursor c q h' in (rw (q, above) refl, rw (q, above) refl)
]

pub min_coord-le : (a b : BufferCoord) → coord_le (min_coord a b) a ≡ true
unfolding min_coord coord_le
min_coord-le a b = ground arith

pub le-max_coord : (a b : BufferCoord) → coord_le a (max_coord a b) ≡ true
unfolding max_coord coord_le
le-max_coord a b = ground arith

pub min_coord-le-right : (a b : BufferCoord) → coord_le (min_coord a b) b ≡ true
unfolding min_coord coord_le
min_coord-le-right a b = ground arith

pub le-max_coord-right : (a b : BufferCoord) → coord_le b (max_coord a b) ≡ true
unfolding max_coord coord_le
le-max_coord-right a b = ground arith

pub min_coord_of_le : (a b : BufferCoord) → coord_le a b ≡ true → min_coord a b ≡ a
unfolding min_coord coord_le
min_coord_of_le a b h = ground arith

-- The merged selection reaches from the lesser of the two beginnings to the greater of the ends.
pub merged_ends :
    (s t : Selection)
    → (min (merged s t) ≡ min_coord (min s) (min t))
      × (max (merged s t) ≡ max_coord (max s) (max t))
unfolding merged
merged_ends s t =
    let c = min_coord (min s) (min t) in
    let first = set_min_ends s c (min_coord-le (min s) (min t)) in
    let d = max_coord (max (set_min s c)) (max t) in
    let second = set_max_ends (set_min s c) d (le-max_coord (max (set_min s c)) (max t)) in
    (second.0 ∙ first.0, second.1 ∙ ap (λ m. max_coord m (max t)) first.1)

-- The positions of a selection.
unfoldable pub covers : Selection → BufferCoord → Bool
covers s p = coord_le (min s) p && coord_le p (max s)

union_cases :
    (a b c d p : BufferCoord)
    → coord_le a c ≡ true
    → coord_le c b ≡ true
    → coord_le a b ≡ true
    → coord_le c d ≡ true
    → (coord_le a p && coord_le p (max_coord b d))
      ≡ ((coord_le a p && coord_le p b) || (coord_le c p && coord_le p d))
unfolding coord_le max_coord
union_cases a b c d p h k l m = ground arith

-- Two selections that overlap, the first beginning first, merge into their union.
pub covers-merged :
    (s t : Selection) (p : BufferCoord)
    → coord_le (min s) (min t) ≡ true
    → overlaps s t ≡ true
    → covers (merged s t) p ≡ (covers s p || covers t p)
unfolding covers overlaps
covers-merged s t p h k =
    let reach : coord_le (min t) (max s) ≡ true = rw h at k in
    let ends = merged_ends s t in
    rw (ends.0, ends.1, min_coord_of_le (min s) (min t) h)
      (union_cases (min s) (max s) (min t) (max t) p h reach (min-le-max s) (min-le-max t))
