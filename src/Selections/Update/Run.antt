-- ===== src/Selections/Update/Run.antt =====
-- The ranges before the changes, and a run of changes as a whole (src/changes.hh: update_forward,
-- update_backward; src/selection.cc: update_selections).
use kakoune.Prelude.{
  ℕ, zero, suc, ◌+◌, ◌-◌, ◌<◌, ◌≡◌, refl, sym, ap, ◌∙◌, inl, inr, true, false, ◌||◌, ◌&&◌, ltb,
  List, [], ◌∷◌, ◌++◌, reverse, take, drop, leb, ◌==◌, if◌then◌else◌, arith, Bool-cases,
  take-append-drop,
}
use kakoune.Coord.{BufferCoord, coord, coord_lt, coord_le}
use kakoune.Modification.{ChangeType, inserts, erases}
use kakoune.Buffer.{Change}
use kakoune.Changes.{
  new_tracker, get_new_coord, get_new_coord_tolerant, relevant, relevant_typed,
  forward_sorted_until, backward_sorted_until,
}
use kakoune.Selections.{Selection, min, max}
use kakoune.Selections.Update.{
  walk, Advance, advance_forward, advance_backward, is_below, lower_bound, update_from,
  update_forward, update_backward, update_run,
}
use kakoune.Selections.Update.LowerBound.{IsSplit, lower_bound-SplitsAt}
use kakoune.Selections.Update.Alone.{
  moved, moved_alone, all_alone, AreApart, max-not-below, lt_not_le, lt_not_lt,
  advance_forward-Resumes, advance_backward-Resumes, update_loop_lem,
}

-- A position before all changes is not moved, nor is a selection before them.
new_tracker-still : (pos : BufferCoord) → get_new_coord_tolerant new_tracker pos ≡ pos
unfolding get_new_coord_tolerant get_new_coord coord_lt
new_tracker-still pos =
    let here : (ltb pos.line 0 || (pos.line == 0 && ltb pos.column 0)) ≡ false = ground arith in
    let line : pos.line + 0 - 0 ≡ pos.line = omega arith in
    let column : (if 0 == pos.line then pos.column + 0 - 0 else pos.column) ≡ pos.column =
      ground arith in
    rw here (ap (coord (pos.line + 0 - 0)) column ∙ ap (λ l. coord l pos.column) line)

irrelevant_before :
    (c : Change) (pos : BufferCoord)
    → coord_lt pos c.begin ≡ true
    → relevant new_tracker c pos ≡ false
unfolding relevant
irrelevant_before c pos h =
    ap (relevant_typed c.type c.begin) (new_tracker-still pos) ∙ by_type c.type
  where
    by_type : (type : ChangeType) → relevant_typed type c.begin pos ≡ false
    by_type inserts = lt_not_le pos c.begin h
    by_type erases = lt_not_lt pos c.begin h

moved-before :
    (c : Change) (cs : List Change) (pos : BufferCoord)
    → coord_lt pos c.begin ≡ true
    → moved advance_forward (c ∷ cs) pos ≡ pos
unfolding moved advance_forward
moved-before c cs pos h = rw (irrelevant_before c pos h) (new_tracker-still pos)

-- A selection before all changes stays as it is.
ends_before :
    (s : Selection) (b : BufferCoord)
    → coord_lt (max s) b ≡ true
    → (coord_lt s.anchor b ≡ true) × (coord_lt s.cursor b ≡ true)
unfolding max coord_le coord_lt
ends_before s b h = ground arith

moved_alone-before :
    (c : Change) (cs : List Change) (s : Selection)
    → coord_lt (max s) c.begin ≡ true
    → moved_alone advance_forward (c ∷ cs) s ≡ s
unfolding moved_alone
moved_alone-before c cs s h =
    let (a, b) = ends_before s c.begin h in
    rw (moved-before c cs s.anchor a, moved-before c cs s.cursor b) refl

all_alone-take :
    (n : ℕ) (c : Change) (cs : List Change) (sels : List Selection)
    → ((i : ℕ) → i < n → is_below c.begin sels i ≡ true)
    → all_alone advance_forward (c ∷ cs) (take n sels) ≡ take n sels
unfolding all_alone is_below
all_alone-take zero c cs sels h = refl
all_alone-take (suc n) c cs [] h = refl
all_alone-take (suc n) c cs (s ∷ sels) h =
    ap (◌∷ all_alone advance_forward (c ∷ cs) (take n sels))
      (moved_alone-before c cs s (h 0 (omega arith)))
    ∙ ap (s ∷◌) (all_alone-take n c cs sels (λ i k. h (suc i) (omega (arith, k))))

all_alone-append :
    (advance : Advance) (changes : List Change) (xs ys : List Selection)
    → all_alone advance changes (xs ++ ys)
      ≡ all_alone advance changes xs ++ all_alone advance changes ys
unfolding all_alone
all_alone-append advance changes [] ys = refl
all_alone-append advance changes (x ∷ xs) ys =
    ap (moved_alone advance changes x ∷◌) (all_alone-append advance changes xs ys)

AreApart-drop :
    (p : BufferCoord) (n : ℕ) (sels : List Selection)
    → AreApart p sels
    → (q : BufferCoord) × AreApart q (drop n sels)
AreApart-drop p zero sels a = (p, a)
AreApart-drop p (suc n) [] a = (p, tt)
AreApart-drop p (suc n) (s ∷ sels) a = AreApart-drop (max s) n sels a.1

-- Ranges that are apart are in order for the search.
lt_from_le :
    (p a b c : BufferCoord)
    → coord_lt a p ≡ false
    → coord_lt b a ≡ false
    → coord_lt b c ≡ true
    → coord_lt p c ≡ true
unfolding coord_lt
lt_from_le p a b c h k l = ground arith

AreApart-below :
    (begin p : BufferCoord) (sels : List Selection) (j : ℕ)
    → AreApart p sels
    → is_below begin sels j ≡ true
    → coord_lt p begin ≡ true
unfolding is_below
AreApart-below begin p [] j a h = absurd (cc)
AreApart-below begin p (s ∷ sels) zero a h =
    lt_from_le p (min s) (max s) begin a.0 (max-not-below s) h
AreApart-below begin p (s ∷ sels) (suc j) a h =
    lt_from_le p (min s) (max s) begin a.0 (max-not-below s)
      (AreApart-below begin (max s) sels j a.1 h)

AreApart-IsSplit :
    (begin p : BufferCoord) (sels : List Selection) → AreApart p sels → IsSplit begin sels
unfolding is_below
AreApart-IsSplit begin p [] a i j h b = absurd (cc)
AreApart-IsSplit begin p (s ∷ sels) a i zero h b = absurd (omega (arith, h))
AreApart-IsSplit begin p (s ∷ sels) a zero (suc j) h b = AreApart-below begin (max s) sels j a.1 b
AreApart-IsSplit begin p (s ∷ sels) a (suc i) (suc j) h b =
    AreApart-IsSplit begin (max s) sels a.1 i j (omega (arith, h)) b

update_forward_lem :
    (p : BufferCoord) (c : Change) (cs : List Change) (sels : List Selection)
    → AreApart p sels
    → update_forward (c ∷ cs) sels ≡ all_alone advance_forward (c ∷ cs) sels
unfolding update_forward update_from
update_forward_lem p c cs sels a =
    let n = lower_bound c.begin sels in
    let split = lower_bound-SplitsAt c.begin sels (AreApart-IsSplit c.begin p sels a) in
    let (q, rest) = AreApart-drop p n sels a in
    ap (take n sels ++◌) (
      update_loop_lem advance_forward (c ∷ cs) advance_forward-Resumes q (walk new_tracker (c ∷ cs))
        (drop n sels) (λ r h. refl) rest)
    ∙ ap (◌++ all_alone advance_forward (c ∷ cs) (drop n sels))
        (sym (all_alone-take n c cs sels split.before))
    ∙ sym (all_alone-append advance_forward (c ∷ cs) (take n sels) (drop n sels))
    ∙ ap (all_alone advance_forward (c ∷ cs)) (take-append-drop n sels)

update_backward_lem :
    (p : BufferCoord) (changes : List Change) (sels : List Selection)
    → AreApart p sels
    → update_backward changes sels ≡ all_alone advance_backward (reverse changes) sels
unfolding update_backward
update_backward_lem p changes sels a =
    update_loop_lem advance_backward (reverse changes) advance_backward-Resumes p
      (walk new_tracker (reverse changes)) sels (λ r h. refl) a

-- The longer of the two runs that begin with the first change, the forward one if they are equally
-- long, and the selections with each end moved through it alone.
unfoldable pub alone_run : List Change → List Selection → ℕ × List Selection
alone_run changes sels =
    let forward_end = forward_sorted_until changes in
    let backward_end = backward_sorted_until changes in
    if leb backward_end forward_end
    then (forward_end, all_alone advance_forward (take forward_end changes) sels)
    else (backward_end, all_alone advance_backward (reverse (take backward_end changes)) sels)

-- A run of changes does to selections in order, of which none overlaps the next, what it does to
-- each of their ends alone: the search for the first selection that the changes reach and the
-- tracker that all ends share make no difference.
pub update_run_lem :
    (p : BufferCoord) (c : Change) (cs : List Change) (sels : List Selection)
    → AreApart p sels
    → update_run (c ∷ cs) sels ≡ alone_run (c ∷ cs) sels
unfolding update_run alone_run forward_sorted_until
update_run_lem p c cs sels a =
    let n = forward_sorted_until (c ∷ cs) in
    let m = backward_sorted_until (c ∷ cs) in
    elim (Bool-cases (leb m n)) [
      | inl q ↦ rw q (ap (λ s. (n, s)) (update_forward_lem p c _ sels a))
      | inr q ↦ rw q (ap (λ s. (m, s)) (update_backward_lem p (take m (c ∷ cs)) sels a))
    ]
