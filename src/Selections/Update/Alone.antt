-- ===== src/Selections/Update/Alone.antt =====
-- The walk of the ranges through a run of changes (src/changes.hh: update_range, update_forward,
-- update_backward; src/selection.cc: update_selections) against each position on its own.
use kakoune.Prelude.{
  ◌≡◌, refl, sym, ap, inl, inr, true, false, List, [], ◌∷◌, if◌then◌else◌, arith, Bool-cases,
}
use kakoune.Coord.{BufferCoord, coord_lt, coord_le}
use kakoune.Modification.{ChangeType, inserts, erases}
use kakoune.Buffer.{Change}
use kakoune.Changes.{
  ForwardChangesTracker, new_tracker, get_new_coord_tolerant, update, relevant, relevant_typed,
}
use kakoune.Changes.Order.{get_new_coord_tolerant-order}
use kakoune.Selections.{Selection, selection, min, max}
use kakoune.Selections.Order.{min-le-max}
use kakoune.Selections.Update.{
  Walk, Advance, advance_forward, advance_backward, moved_change, update_range, update_loop,
}

-- Where the changes of a run take a position: a tracker of its own passes the changes that are
-- relevant for it.
unfoldable pub moved : Advance → List Change → BufferCoord → BufferCoord
moved advance changes pos = get_new_coord_tolerant (advance pos new_tracker changes).tracker pos

-- Both ends of a selection, each moved on its own.
unfoldable pub moved_alone : Advance → List Change → Selection → Selection
moved_alone advance changes s =
    selection (moved advance changes s.anchor) (moved advance changes s.cursor)

unfoldable pub all_alone : Advance → List Change → List Selection → List Selection
all_alone advance changes [] = []
all_alone advance changes (s ∷ sels) =
    moved_alone advance changes s ∷ all_alone advance changes sels

-- The selections do not overlap and stand in order, from a position on; they may touch.
abbrev pub AreApart : BufferCoord → List Selection → Type 0
AreApart pos [] = Unit
AreApart pos (s ∷ sels) = (coord_lt (min s) pos ≡ false) × AreApart (max s) sels

le_not_lt : (a b : BufferCoord) → coord_le a b ≡ true → coord_lt b a ≡ false
unfolding coord_le coord_lt
le_not_lt a b h = ground arith

pub lt_not_le : (a b : BufferCoord) → coord_lt a b ≡ true → coord_le b a ≡ false
unfolding coord_le coord_lt
lt_not_le a b h = ground arith

pub lt_not_lt : (a b : BufferCoord) → coord_lt a b ≡ true → coord_lt b a ≡ false
unfolding coord_lt
lt_not_lt a b h = ground arith

begin_le : (b p q : BufferCoord) → coord_lt q p ≡ false → coord_le b p ≡ true → coord_le b q ≡ true
unfolding coord_le coord_lt
begin_le b p q o r = ground arith

begin_lt : (b p q : BufferCoord) → coord_lt q p ≡ false → coord_lt b p ≡ true → coord_lt b q ≡ true
unfolding coord_lt
begin_lt b p q o r = ground arith

-- A change that is relevant for a position is relevant for each later one.
pub relevant_later :
    (t : ForwardChangesTracker) (c : Change) (p q : BufferCoord)
    → coord_lt q p ≡ false
    → relevant t c p ≡ true
    → relevant t c q ≡ true
unfolding relevant
relevant_later t c p q h r = by_type c.type (get_new_coord_tolerant-order t p q h).0 r
  where
    by_type :
        (type : ChangeType)
        → coord_lt (get_new_coord_tolerant t q) (get_new_coord_tolerant t p) ≡ false
        → relevant_typed type c.begin (get_new_coord_tolerant t p) ≡ true
        → relevant_typed type c.begin (get_new_coord_tolerant t q) ≡ true
    by_type inserts o r = begin_le c.begin _ _ o r
    by_type erases o r = begin_lt c.begin _ _ o r

-- Passing the changes for a position and then those for a later one is passing those for the later.
abbrev pub Resumes : Advance → Type 0
Resumes advance =
    (p q : BufferCoord) (t : ForwardChangesTracker) (changes : List Change)
    → coord_lt q p ≡ false
    → advance q t changes ≡ advance q (advance p t changes).tracker (advance p t changes).left

pub advance_forward-Resumes : Resumes advance_forward
unfolding advance_forward
advance_forward-Resumes p q t [] h = refl
advance_forward-Resumes p q t (c ∷ cs) h = elim (Bool-cases (relevant t c p)) [
  | inl r ↦ rw (r, relevant_later t c p q h r) (advance_forward-Resumes p q (update t c) cs h)
  | inr r ↦ rw r refl
]

pub advance_backward-Resumes : Resumes advance_backward
unfolding advance_backward
advance_backward-Resumes p q t [] h = refl
advance_backward-Resumes p q t (c ∷ cs) h = elim (Bool-cases (relevant t (moved_change t c) p)) [
  | inl r ↦
      rw (r, relevant_later t (moved_change t c) p q h r)
        (advance_backward-Resumes p q (update t (moved_change t c)) cs h)
  | inr r ↦ rw r refl
]

pub max-not-below : (s : Selection) → coord_lt (max s) (min s) ≡ false
max-not-below s = le_not_lt (min s) (max s) (min-le-max s)

-- A walk that has passed no more than the changes for a position.
abbrev pub Reaches : Advance → List Change → BufferCoord → Walk → Type 0
Reaches advance changes p w =
    (q : BufferCoord)
    → coord_lt q p ≡ false
    → advance q w.tracker w.left ≡ advance q new_tracker changes

module _ (advance : Advance) (changes : List Change) (resumes : Resumes advance) where
  abbrev fresh : BufferCoord → Walk
  fresh q = advance q new_tracker changes

  fresh-Reaches : (p : BufferCoord) → Reaches advance changes p (fresh p)
  fresh-Reaches p q h = sym (resumes p q new_tracker changes h)

  by_order :
      (s : Selection)
      → (if coord_le s.anchor s.cursor
          then selection (moved advance changes (min s)) (moved advance changes (max s))
          else selection (moved advance changes (max s)) (moved advance changes (min s)))
        ≡ moved_alone advance changes s
  unfolding min max moved_alone
  by_order s = elim (Bool-cases (coord_le s.anchor s.cursor)) [
    | inl q ↦ rw q refl
    | inr q ↦ rw q refl
  ]

  update_range_lem :
      (p : BufferCoord) (w : Walk) (s : Selection)
      → Reaches advance changes p w
      → coord_lt (min s) p ≡ false
      → update_range advance w s ≡ (moved_alone advance changes s, fresh (max s))
  unfolding update_range moved
  update_range_lem p w s r h =
      let first = r (min s) h in
      let last : advance (max s) (fresh (min s)).tracker (fresh (min s)).left ≡ fresh (max s) =
        fresh-Reaches (min s) (max s) (max-not-below s) in
      rw (first, last) (ap (λ t. (t, fresh (max s))) (by_order s))

  pub update_loop_lem :
      (p : BufferCoord) (w : Walk) (sels : List Selection)
      → Reaches advance changes p w
      → AreApart p sels
      → update_loop advance w sels ≡ all_alone advance changes sels
  unfolding update_loop all_alone
  update_loop_lem p w [] r a = refl
  update_loop_lem p w (s ∷ sels) r a =
      let e = update_range_lem p w s r a.0 in
      rw e (
        ap (λ rest. moved_alone advance changes s ∷ rest)
          (update_loop_lem (max s) (fresh (max s)) sels (fresh-Reaches (max s)) a.1))
