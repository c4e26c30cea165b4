-- ===== src/Selections/Update/Order.antt =====
-- Positions and selections stay in order through a run of changes (src/changes.hh), as the assertion
-- in update_selections (src/selection.cc) says.
use kakoune.Prelude.{◌≡◌, inl, inr, true, false, List, [], ◌∷◌, arith, Bool-cases, All}
use kakoune.Coord.{BufferCoord, coord_lt, coord_le}
use kakoune.Modification.{ChangeType, inserts, erases}
use kakoune.Buffer.{Change}
use kakoune.Changes.{
  ForwardChangesTracker, new_tracker, get_new_coord_tolerant, update, update_typed, relevant,
  relevant_typed,
}
use kakoune.Changes.Order.{get_new_coord_tolerant-order}
use kakoune.Changes.Track.{Forward, coord_lt_trans}
use kakoune.Selections.{Selection, selection, min, max}
use kakoune.Selections.Update.{Walk, Advance, advance_forward}
use kakoune.Selections.Update.Alone.{moved, moved_alone, all_alone, AreApart, relevant_later}

-- A change ends where it begins or behind.
abbrev pub IsForward : Change → Type 0
IsForward c = coord_lt c.end c.begin ≡ false

pub not_lt_refl : (a : BufferCoord) → coord_lt a a ≡ false
unfolding coord_lt
not_lt_refl a = ground arith

lt_not_before : (a b : BufferCoord) → coord_lt a b ≡ true → coord_lt b a ≡ false
unfolding coord_lt
lt_not_before a b h = ground arith

le_false_not_before : (a b : BufferCoord) → coord_le a b ≡ false → coord_lt a b ≡ false
unfolding coord_le coord_lt
le_false_not_before a b h = ground arith

-- A position for which a change is not relevant is not behind its begin.
pub irrelevant-not-behind :
    (t : ForwardChangesTracker) (c : Change) (p : BufferCoord)
    → relevant t c p ≡ false
    → coord_lt c.begin (get_new_coord_tolerant t p) ≡ false
unfolding relevant
irrelevant-not-behind t c p r = by_type c.type r
  where
    by_type :
        (type : ChangeType)
        → relevant_typed type c.begin (get_new_coord_tolerant t p) ≡ false
        → coord_lt c.begin (get_new_coord_tolerant t p) ≡ false
    by_type inserts r = le_false_not_before _ _ r
    by_type erases r = r

-- Behind a change, the tracker stands where the change begins or behind.
pub update-behind :
    (t : ForwardChangesTracker) (c : Change)
    → IsForward c
    → coord_lt (update t c).cur_pos c.begin ≡ false
unfolding update
update-behind t c h = by_type c.type
  where
    by_type :
        (type : ChangeType) → coord_lt (update_typed type t c.begin c.end).cur_pos c.begin ≡ false
    by_type inserts = h
    by_type erases = not_lt_refl c.begin

-- The tracker of a forward run does not go back.
advance_forward-behind :
    (q : BufferCoord) (t : ForwardChangesTracker) (cs : List Change)
    → Forward t cs
    → All IsForward cs
    → coord_lt (advance_forward q t cs).tracker.cur_pos t.cur_pos ≡ false
unfolding advance_forward
advance_forward-behind q t [] f w = not_lt_refl t.cur_pos
advance_forward-behind q t (c ∷ cs) f w = elim (Bool-cases (relevant t c q)) [
  | inl r ↦ rw r (
      coord_lt_trans t.cur_pos c.begin _ f.0 (
        coord_lt_trans c.begin (update t c).cur_pos _ (update-behind t c w.0)
          (advance_forward-behind q (update t c) cs f.1 w.1)))
  | inr r ↦ rw r (not_lt_refl t.cur_pos)
]

-- Where the walk for a position has taken it.
abbrev pub landed : Walk → BufferCoord → BufferCoord
landed w p = get_new_coord_tolerant w.tracker p

advance_forward-order :
    (p q : BufferCoord) (t : ForwardChangesTracker) (cs : List Change)
    → coord_lt q p ≡ false
    → Forward t cs
    → All IsForward cs
    → coord_lt (landed (advance_forward q t cs) q) (landed (advance_forward p t cs) p) ≡ false
unfolding advance_forward
advance_forward-order p q t [] h f w = (get_new_coord_tolerant-order t p q h).0
advance_forward-order p q t (c ∷ cs) h f w = elim (Bool-cases (relevant t c p)) [
  | inl r ↦ rw (r, relevant_later t c p q h r) (advance_forward-order p q (update t c) cs h f.1 w.1)
  | inr r ↦ elim (Bool-cases (relevant t c q)) [
    | inl k ↦
        rw (r, k)
          (coord_lt_trans (get_new_coord_tolerant t p) c.begin _ (irrelevant-not-behind t c p r) (
            coord_lt_trans c.begin (update t c).cur_pos _ (update-behind t c w.0) (
              coord_lt_trans (update t c).cur_pos
                (advance_forward q (update t c) cs).tracker.cur_pos _
                (advance_forward-behind q (update t c) cs f.1 w.1)
                (get_new_coord_tolerant-order (advance_forward q (update t c) cs).tracker q q
                  (not_lt_refl q)).1)))
    | inr k ↦ rw (r, k) (get_new_coord_tolerant-order t p q h).0
  ]
]

-- Positions in order go to positions in order.
abbrev pub IsMonotone : Advance → List Change → Type 0
IsMonotone advance changes =
    (p q : BufferCoord)
    → coord_lt q p ≡ false
    → coord_lt (moved advance changes q) (moved advance changes p) ≡ false

pub advance_forward-IsMonotone :
    (changes : List Change)
    → Forward new_tracker changes
    → All IsForward changes
    → IsMonotone advance_forward changes
unfolding moved
advance_forward-IsMonotone changes f w p q h = advance_forward-order p q new_tracker changes h f w

ends_within :
    (s : Selection)
    → (coord_lt s.anchor (min s) ≡ false)
      × (coord_lt s.cursor (min s) ≡ false)
      × (coord_lt (max s) s.anchor ≡ false)
      × (coord_lt (max s) s.cursor ≡ false)
unfolding min max coord_le coord_lt
ends_within s = ground arith

min-not-below :
    (s : Selection) (p : BufferCoord)
    → coord_lt s.anchor p ≡ false
    → coord_lt s.cursor p ≡ false
    → coord_lt (min s) p ≡ false
unfolding min
min-not-below s p h k = elim (Bool-cases (coord_le s.anchor s.cursor)) [
  | inl q ↦ rw q h
  | inr q ↦ rw q k
]

max-not-above :
    (s : Selection) (p : BufferCoord)
    → coord_lt p s.anchor ≡ false
    → coord_lt p s.cursor ≡ false
    → coord_lt p (max s) ≡ false
unfolding max
max-not-above s p h k = elim (Bool-cases (coord_le s.anchor s.cursor)) [
  | inl q ↦ rw q k
  | inr q ↦ rw q h
]

pub AreApart-mono :
    (p q : BufferCoord) (sels : List Selection)
    → coord_lt q p ≡ false
    → AreApart q sels
    → AreApart p sels
AreApart-mono p q [] h a = tt
AreApart-mono p q (s ∷ sels) h a = (coord_lt_trans p q (min s) h a.0, a.1)

pub all_alone-AreApart :
    (advance : Advance) (changes : List Change) (p : BufferCoord) (sels : List Selection)
    → IsMonotone advance changes
    → AreApart p sels
    → AreApart (moved advance changes p) (all_alone advance changes sels)
unfolding all_alone moved_alone
all_alone-AreApart advance changes p [] m a = tt
all_alone-AreApart advance changes p (s ∷ sels) m a =
    let (a1, a2, a3, a4) = ends_within s in
    let s' = selection (moved advance changes s.anchor) (moved advance changes s.cursor) in
    let last = moved advance changes (max s) in
    (
      min-not-below s' (moved advance changes p)
          (m p s.anchor (coord_lt_trans p (min s) s.anchor a.0 a1))
          (m p s.cursor (coord_lt_trans p (min s) s.cursor a.0 a2)),
      AreApart-mono (max s') last (all_alone advance changes sels)
          (max-not-above s' last (m s.anchor (max s) a3) (m s.cursor (max s) a4))
          (all_alone-AreApart advance changes (max s) sels m a.1),
    )
