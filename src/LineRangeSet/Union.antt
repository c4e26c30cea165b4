-- ===== src/LineRangeSet/Union.antt =====
-- What LineRangeSet::add_range (src/line_modification.cc) gives.
use kakoune.Prelude.{
  ℕ, ◌≤◌, ◌<◌, min, max, ◌≡◌, refl, ap, ◌∙◌, inl, inr, Bool, true, false, not, ◌&&◌, ◌||◌, List, [],
  ◌∷◌, arith, ltb, leb, Bool-cases,
}
use kakoune.LineRangeSet.{
  LineRange, line_range, split_before, gap, merge_loop, starts_behind, add_at, add_range, inside,
  contains,
}
use kakoune.LineRangeSet.Add.{
  SortedFrom, sorted_above, contains-append, contains-gap, merge_loop-contains, merge_loop-new,
}

pub weaken-SortedFrom :
    (lo lo' : ℕ) (rs : List LineRange) → lo' ≤ lo → SortedFrom lo rs → SortedFrom lo' rs
weaken-SortedFrom lo lo' [] h s = tt
weaken-SortedFrom lo lo' (r ∷ rs) h (p, q, s) = (omega arith, q, s)

merge_loop-SortedFrom :
    (range : LineRange) (pos lo : ℕ) (rs : List LineRange)
    → SortedFrom lo rs
    → lo ≤ range.begin
    → range.begin < range.end
    → let m = merge_loop range pos rs in SortedFrom lo (m.range ∷ m.rest)
unfolding merge_loop
merge_loop-SortedFrom range pos lo [] s h k = (h, k, tt)
merge_loop-SortedFrom range pos lo (r ∷ rs) (p, q, s) h k =
    elim (Bool-cases (leb r.begin range.end)) [
      | inl t ↦
          rw (t, merge_loop)
            (merge_loop-SortedFrom (line_range (min range.begin r.begin) (max range.end r.end))
              r.end lo rs (weaken-SortedFrom r.end lo rs (omega arith) s) (omega arith)
              (omega arith))
      | inr t ↦ rw (t, merge_loop) (h, k, (ground arith, q, s))
    ]

-- The result is the union, in order, and the new ranges are what was not there.
pub record Adds (lo : ℕ) (set : List LineRange) (range : LineRange)
    (result : List LineRange × List LineRange) : Type 0 where
  pub sorted : SortedFrom lo result.0
  pub union : (line : ℕ) → contains result.0 line ≡ (inside line range || contains set line)
  pub new : (line : ℕ) → contains result.1 line ≡ (inside line range && not (contains set line))

pub split_later :
    (r : LineRange) (line : ℕ) (rs : List LineRange)
    → ltb r.end line ≡ true
    → split_before line (r ∷ rs) ≡ (r ∷ (split_before line rs).0, (split_before line rs).1)
unfolding split_before
split_later r line rs t = rw t

add_at_later :
    (r range : LineRange) (split : List LineRange × List LineRange)
    → add_at (r ∷ split.0, split.1) range ≡ (r ∷ (add_at split range).0, (add_at split range).1)
add_at_later r range (f, rest) = elim (Bool-cases (starts_behind rest range.end)) [
  | inl t ↦ rw t
  | inr t ↦ rw t
]

-- A range that ends before the one that is added stays.
add_range_later :
    (r range : LineRange) (rs : List LineRange)
    → ltb r.end range.begin ≡ true
    → add_range (r ∷ rs) range ≡ (r ∷ (add_range rs range).0, (add_range rs range).1)
unfolding add_range split_before
add_range_later r range rs t =
    ap (λ split. add_at split range) (split_later r range.begin rs t)
    ∙ add_at_later r range (split_before range.begin rs)

outside_later :
    (range r : LineRange) (x : Bool) (line : ℕ)
    → r.end < range.begin
    → (inside line range && not x) ≡ (inside line range && not (inside line r || x))
outside_later range r true line h = ground arith
outside_later range r false line h = ground arith

outside_before :
    (range r : LineRange) (x : Bool) (line : ℕ)
    → range.end < r.begin
    → r.begin < r.end
    → (x ≡ true → r.end ≤ line)
    → (inside line range || false) ≡ (inside line range && not (inside line r || x))
outside_before range r true line h q k = let above = k refl in ground arith
outside_before range r false line h q k = ground arith

-- On ranges in order that are not empty, all from some line on, add_range of a range that is not
-- empty, from that line on, gives ranges in order that are not empty; their lines are those of the
-- set and those of the range; and the ranges passed to on_new_range hold exactly the lines of the
-- range that were in none before.
pub add_range-Adds :
    (lo : ℕ) (set : List LineRange) (range : LineRange)
    → SortedFrom lo set
    → lo ≤ range.begin
    → range.begin < range.end
    → Adds lo set range (add_range set range)
unfolding add_range split_before contains
add_range-Adds lo [] range s h k = record {
  sorted = (h, k, tt);
  union = λ line. refl;
  new = λ line. ground arith;
}
add_range-Adds lo (r ∷ rs) range (p, q, s) h k = elim (Bool-cases (ltb r.end range.begin)) [
  | inl t ↦
      let rec = add_range-Adds r.end rs range s (ground arith) k in
      rw (add_range_later r range rs t) (record {
        sorted = (p, q, rec.sorted);
        union = λ line. ground (arith, rec.union line);
        new = λ line. rec.new line ∙ outside_later range r (contains rs line) line (ground arith);
      })
  | inr t ↦ rw t (elim (Bool-cases (ltb range.end r.begin)) [
    | inl u ↦ rw u (record {
      sorted = (h, k, (ground arith, q, s));
      union = λ line. refl;
      new = λ line.
          outside_before range r (contains rs line) line (ground arith) q
            (sorted_above r.end rs line s);
    })
    | inr u ↦
        let touch : range.begin ≤ r.end = ground arith in
        let m = merge_loop range range.begin (r ∷ rs) in
        rw u (record {
          sorted = merge_loop-SortedFrom range range.begin lo (r ∷ rs) (p, q, s) h k;
          union = λ line.
              merge_loop-contains range range.begin lo (r ∷ rs) line (p, q, s) touch (omega arith)
                (omega arith);
          new = λ line.
              contains-append m.new_ranges (gap m.pos m.range.end) line
              ∙ ap (λ x. contains m.new_ranges line || x) (contains-gap m.pos m.range.end line)
              ∙ merge_loop-new range range.begin lo (r ∷ rs) line (p, q, s) touch (omega arith)
                  (omega arith);
        })
  ])
]
