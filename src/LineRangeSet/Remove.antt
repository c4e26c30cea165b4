-- ===== src/LineRangeSet/Remove.antt =====
-- LineRangeSet::remove_range (src/line_modification.cc) is difference.
use kakoune.Prelude.{
  ℕ, ◌≤◌, ◌<◌, ◌≡◌, refl, ap, ◌∙◌, inl, inr, Bool, true, false, not, ◌&&◌, ◌||◌, List, [], ◌∷◌,
  ◌++◌, arith, ltb, leb, if◌then◌else◌, Bool-cases,
}
use kakoune.LineRangeSet.{
  LineRange, line_range, split_before, starts_behind, inside, contains, cut_range, kept_range,
  removed_from, remove_loop, remove_range,
}
use kakoune.LineRangeSet.Add.{SortedFrom, sorted_above}
use kakoune.LineRangeSet.Union.{split_later, weaken-SortedFrom}

kept_range-contains :
    (r : LineRange) (rest : List LineRange) (line : ℕ)
    → contains (kept_range r ++ rest) line ≡ (inside line r || contains rest line)
unfolding contains
kept_range-contains r rest line = elim (Bool-cases (leb r.end r.begin)) [
  | inl e ↦ rw e (ground arith)
  | inr e ↦ rw e
]

split_lem :
    (range r : LineRange) (x : Bool) (line : ℕ)
    → r.begin < r.end
    → range.begin ≤ range.end
    → r.begin < range.begin
    → range.end ≤ r.end
    → (inside line (line_range r.begin range.begin)
        || (inside line (cut_range range (line_range range.end r.end)) || x))
      ≡ ((inside line r && not (inside line range)) || x)
split_lem range r true line h o b e = ground arith
split_lem range r false line h o b e = elim (Bool-cases (inside range.end range)) [
  | inl s ↦ absurd (ground arith)
  | inr s ↦ elim (Bool-cases (inside r.end range)) [
    | inl t ↦ absurd (ground arith)
    | inr t ↦ rw (s, t) (ground arith)
  ]
]

cut_lem :
    (range r : LineRange) (x : Bool) (line : ℕ)
    → r.begin < r.end
    → range.begin ≤ range.end
    → (ltb r.begin range.begin && leb range.end r.end) ≡ false
    → (inside line (cut_range range r) || x) ≡ ((inside line r && not (inside line range)) || x)
cut_lem range r true line h o e = ground arith
cut_lem range r false line h o e = elim (Bool-cases (inside r.begin range)) [
  | inl s ↦ elim (Bool-cases (inside r.end range)) [
    | inl t ↦ rw (s, t) (ground arith)
    | inr t ↦ rw (s, t) (ground arith)
  ]
  | inr s ↦ elim (Bool-cases (inside r.end range)) [
    | inl t ↦ rw (s, t) (ground arith)
    | inr t ↦ rw (s, t) (ground arith)
  ]
]

-- What is left of one range.
removed_from-contains :
    (range r : LineRange) (rest : List LineRange) (line : ℕ)
    → r.begin < r.end
    → range.begin ≤ range.end
    → contains (removed_from range r ++ rest) line
      ≡ ((inside line r && not (inside line range)) || contains rest line)
unfolding contains
removed_from-contains range r rest line h o =
    elim (Bool-cases (ltb r.begin range.begin && leb range.end r.end)) [
      | inl e ↦ rw e (
          ap (λ x. inside line (line_range r.begin range.begin) || x)
            (kept_range-contains (cut_range range (line_range range.end r.end)) rest line)
          ∙ split_lem range r (contains rest line) line h o (ground arith) (ground arith))
      | inr e ↦ rw e (
          kept_range-contains (cut_range range r) rest line
          ∙ cut_lem range r (contains rest line) line h o e)
    ]

kept_range-SortedFrom :
    (lo hi : ℕ) (r : LineRange) (rest : List LineRange)
    → SortedFrom hi rest
    → lo ≤ r.begin
    → r.end ≤ hi
    → lo ≤ hi
    → SortedFrom lo (kept_range r ++ rest)
kept_range-SortedFrom lo hi r rest s h k l = elim (Bool-cases (leb r.end r.begin)) [
  | inl e ↦ rw e (weaken-SortedFrom hi lo rest l s)
  | inr e ↦ rw e (h, ground arith, weaken-SortedFrom hi r.end rest k s)
]

removed_from-SortedFrom :
    (lo : ℕ) (range r : LineRange) (rest : List LineRange)
    → lo ≤ r.begin
    → r.begin < r.end
    → range.begin ≤ range.end
    → SortedFrom r.end rest
    → SortedFrom lo (removed_from range r ++ rest)
removed_from-SortedFrom lo range r rest h k o s =
    elim (Bool-cases (ltb r.begin range.begin && leb range.end r.end)) [
      | inl e ↦ rw e (
        h,
        ground arith,
        kept_range-SortedFrom range.begin r.end (cut_range range (line_range range.end r.end)) rest
            s (ground arith) (ground arith) (ground arith),
      )
      | inr e ↦ rw e (
          kept_range-SortedFrom lo r.end (cut_range range r) rest s (ground arith) (ground arith)
            (omega arith))
    ]

-- The result is the difference, in order.
pub record Removes (lo : ℕ) (set : List LineRange) (range : LineRange) (result : List LineRange)
    : Type 0 where
  pub sorted : SortedFrom lo result
  pub difference :
      (line : ℕ) → contains result line ≡ (contains set line && not (inside line range))

above_range :
    (range r : LineRange) (x : Bool) (line : ℕ)
    → range.end < r.begin
    → (x ≡ true → r.end ≤ line)
    → r.begin < r.end
    → (inside line r || x) ≡ ((inside line r || x) && not (inside line range))
above_range range r true line h k q = let above = k refl in ground arith
above_range range r false line h k q = ground arith

distribute : (a b x : Bool) → ((a && not b) || (x && not b)) ≡ ((a || x) && not b)
distribute a b x = ground arith

remove_loop-Removes :
    (lo : ℕ) (range : LineRange) (rs : List LineRange)
    → SortedFrom lo rs
    → range.begin ≤ range.end
    → Removes lo rs range (remove_loop range rs)
unfolding remove_loop contains
remove_loop-Removes lo range [] s o = record { sorted = tt; difference = λ line. refl }
remove_loop-Removes lo range (r ∷ rs) (p, q, s) o = elim (Bool-cases (leb r.begin range.end)) [
  | inl t ↦
      let rec = remove_loop-Removes r.end range rs s o in
      rw (t, remove_loop)
        (record {
          sorted = removed_from-SortedFrom lo range r (remove_loop range rs) p q o rec.sorted;
          difference = λ line.
              removed_from-contains range r (remove_loop range rs) line q o
              ∙ ap (λ x. (inside line r && not (inside line range)) || x) (rec.difference line)
              ∙ distribute (inside line r) (inside line range) (contains rs line);
        })
  | inr t ↦
      rw (t, remove_loop)
        (record {
          sorted = (p, q, s);
          difference = λ line.
              above_range range r (contains rs line) line (ground arith)
                (sorted_above r.end rs line s) q;
        })
]

remove_range_later :
    (r range : LineRange) (rs : List LineRange)
    → ltb r.end range.begin ≡ true
    → remove_range (r ∷ rs) range ≡ r ∷ remove_range rs range
unfolding remove_range
remove_range_later r range rs t =
    ap
      (λ split.
        if starts_behind split.1 range.end then r ∷ rs else split.0 ++ remove_loop range split.1)
      (split_later r range.begin rs t)
    ∙ later (starts_behind (split_before range.begin rs).1 range.end)
  where
    later :
        (b : Bool)
        → (if b
            then r ∷ rs
            else r
              ∷ ((split_before range.begin rs).0
                  ++ remove_loop range (split_before range.begin rs).1))
          ≡ r
            ∷ (if b
                then rs
                else (split_before range.begin rs).0
                  ++ remove_loop range (split_before range.begin rs).1)
    later true = refl
    later false = refl

before_range :
    (range r : LineRange) (x : Bool) (line : ℕ)
    → r.end < range.begin
    → (inside line r || (x && not (inside line range)))
      ≡ ((inside line r || x) && not (inside line range))
before_range range r true line h = ground arith
before_range range r false line h = ground arith

-- On ranges in order that are not empty, all from some line on, remove_range of a range that does
-- not end before it begins gives ranges in order that are not empty, whose lines are those of the
-- set that are not in the range.
pub remove_range-Removes :
    (lo : ℕ) (set : List LineRange) (range : LineRange)
    → SortedFrom lo set
    → range.begin ≤ range.end
    → Removes lo set range (remove_range set range)
unfolding remove_range split_before contains
remove_range-Removes lo [] range s o = record { sorted = tt; difference = λ line. refl }
remove_range-Removes lo (r ∷ rs) range (p, q, s) o = elim (Bool-cases (ltb r.end range.begin)) [
  | inl t ↦
      let rec = remove_range-Removes r.end rs range s o in
      rw (remove_range_later r range rs t) (record {
        sorted = (p, q, rec.sorted);
        difference = λ line.
            ap (λ x. inside line r || x) (rec.difference line)
            ∙ before_range range r (contains rs line) line (ground arith);
      })
  | inr t ↦ rw t (elim (Bool-cases (ltb range.end r.begin)) [
    | inl u ↦ rw u (record {
      sorted = (p, q, s);
      difference = λ line.
          above_range range r (contains rs line) line (ground arith) (sorted_above r.end rs line s)
            q;
    })
    | inr u ↦ rw u (remove_loop-Removes lo range (r ∷ rs) (p, q, s) o)
  ])
]
