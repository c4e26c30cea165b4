-- ===== src/LineRangeSet/Add.antt =====
-- LineRangeSet::add_range (src/line_modification.cc) is union, and reports exactly what is new.
use kakoune.Prelude.{
  ℕ, ◌≤◌, ◌<◌, min, max, ◌≡◌, refl, ap, ◌∙◌, inl, inr, Bool, true, false, not, ◌&&◌, ◌||◌, List, [],
  ◌∷◌, ◌++◌, arith, ltb, leb, Bool-cases,
}
use kakoune.LineRangeSet.{LineRange, line_range, gap, merge_loop, inside, contains}

-- Ranges that are not empty, each not before the end of the one before it.
abbrev pub SortedFrom : ℕ → List LineRange → Type 0
SortedFrom lo [] = Unit
SortedFrom lo (r ∷ rs) = (lo ≤ r.begin) × (r.begin < r.end) × SortedFrom r.end rs

pub below_sorted :
    (lo : ℕ) (rs : List LineRange) (line : ℕ)
    → SortedFrom lo rs
    → line < lo
    → contains rs line ≡ false
unfolding contains
below_sorted lo [] line s h = refl
below_sorted lo (r ∷ rs) line (p, q, s) h =
    ground (arith, below_sorted r.end rs line s (omega arith))

pub contains-append :
    (xs ys : List LineRange) (line : ℕ)
    → contains (xs ++ ys) line ≡ (contains xs line || contains ys line)
unfolding contains
contains-append [] ys line = refl
contains-append (x ∷ xs) ys line = ground (arith, contains-append xs ys line)

pub contains-gap : (pos end line : ℕ) → contains (gap pos end) line ≡ (leb pos line && ltb line end)
unfolding contains
contains-gap pos end line = elim (Bool-cases (ltb pos end)) [
  | inl e ↦ rw e (ground arith)
  | inr e ↦ rw e (ground arith)
]

or_assoc : (x y z : Bool) → ((x || y) || z) ≡ (x || (y || z))
or_assoc x y z = ground arith

-- The first of the ranges does not end before the position.
abbrev pub HeadEnds : ℕ → List LineRange → Type 0
HeadEnds pos [] = Unit
HeadEnds pos (r ∷ rs) = pos ≤ r.end

pub HeadEnds-Sorted : (lo : ℕ) (rs : List LineRange) → SortedFrom lo rs → HeadEnds lo rs
HeadEnds-Sorted lo [] s = tt
HeadEnds-Sorted lo (r ∷ rs) (p, q, s) = omega arith

-- Two ranges that touch, as one.
widen :
    (a b : LineRange) (x : Bool) (line : ℕ)
    → b.begin ≤ a.end
    → a.begin ≤ b.end
    → (inside line (line_range (min a.begin b.begin) (max a.end b.end)) || x)
      ≡ (inside line a || (inside line b || x))
widen a b true line h k = ground arith
widen a b false line h k = ground arith

pub merge_loop-contains :
    (range : LineRange) (pos lo : ℕ) (rs : List LineRange) (line : ℕ)
    → SortedFrom lo rs
    → HeadEnds pos rs
    → range.begin ≤ pos
    → pos ≤ range.end
    → let m = merge_loop range pos rs in
      contains (m.range ∷ m.rest) line ≡ (inside line range || contains rs line)
unfolding merge_loop contains
merge_loop-contains range pos lo [] line s h b e = refl
merge_loop-contains range pos lo (r ∷ rs) line (p, q, s) h b e =
    elim (Bool-cases (leb r.begin range.end)) [
      | inl t ↦
          let wider = line_range (min range.begin r.begin) (max range.end r.end) in
          let rec =
            merge_loop-contains wider r.end r.end rs line s (HeadEnds-Sorted r.end rs s)
              (omega arith) (omega arith) in
          rw (t, merge_loop)
            (rec ∙ widen range r (contains rs line) line (ground arith) (omega arith))
      | inr t ↦ rw (t, merge_loop)
    ]

pub sorted_above :
    (lo : ℕ) (rs : List LineRange) (line : ℕ)
    → SortedFrom lo rs
    → contains rs line ≡ true
    → lo ≤ line
unfolding contains
sorted_above lo [] line s h = absurd (cc)
sorted_above lo (r ∷ rs) line (p, q, s) h = ground (arith, sorted_above r.end rs line s)

-- What is new before a range that touches, and what may be new behind it.
gap_step :
    (a b : LineRange) (pos : ℕ) (x : Bool) (line : ℕ)
    → b.begin ≤ a.end
    → b.begin < b.end
    → pos ≤ b.end
    → (x ≡ true → b.end ≤ line)
    → ((leb pos line && ltb line b.begin)
        || ((leb b.end line && ltb line (max a.end b.end)) && not x))
      ≡ ((leb pos line && ltb line a.end) && not (inside line b || x))
gap_step a b pos true line h q k r = let above = r refl in ground arith
gap_step a b pos false line h q k r = ground arith

pub gap_stop :
    (a b : LineRange) (pos : ℕ) (x : Bool) (line : ℕ)
    → a.end < b.begin
    → (x ≡ true → b.end ≤ line)
    → b.begin < b.end
    → (leb pos line && ltb line a.end)
      ≡ ((leb pos line && ltb line a.end) && not (inside line b || x))
gap_stop a b pos true line h r q = let above = r refl in ground arith
gap_stop a b pos false line h r q = ground arith

pub merge_loop-new :
    (range : LineRange) (pos lo : ℕ) (rs : List LineRange) (line : ℕ)
    → SortedFrom lo rs
    → HeadEnds pos rs
    → range.begin ≤ pos
    → pos ≤ range.end
    → let m = merge_loop range pos rs in
      (contains m.new_ranges line || (leb m.pos line && ltb line m.range.end))
      ≡ ((leb pos line && ltb line range.end) && not (contains rs line))
unfolding merge_loop contains
merge_loop-new range pos lo [] line s h b e = ground arith
merge_loop-new range pos lo (r ∷ rs) line (p, q, s) h b e =
    elim (Bool-cases (leb r.begin range.end)) [
      | inl t ↦
          let wider = line_range (min range.begin r.begin) (max range.end r.end) in
          let m = merge_loop wider r.end rs in
          let rec =
            merge_loop-new wider r.end r.end rs line s (HeadEnds-Sorted r.end rs s) (omega arith)
              (omega arith) in
          rw (t, merge_loop)
            (ap (λ x. x || (leb m.pos line && ltb line m.range.end))
                (contains-append (gap pos r.begin) m.new_ranges line
                  ∙ ap (λ x. x || contains m.new_ranges line) (contains-gap pos r.begin line))
              ∙ or_assoc (leb pos line && ltb line r.begin) (contains m.new_ranges line) _
              ∙ ap (λ x. (leb pos line && ltb line r.begin) || x) rec
              ∙ gap_step range r pos (contains rs line) line (ground arith) q h
                  (sorted_above r.end rs line s))
      | inr t ↦
          rw (t, merge_loop)
            (gap_stop range r pos (contains rs line) line (ground arith)
              (sorted_above r.end rs line s) q)
    ]
