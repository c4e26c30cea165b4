-- ===== src/Selections/Lists.antt =====
-- Removing selections from a list (src/selection.cc: SelectionList::remove, remove_from).
use kakoune.Prelude.{
  ℕ, zero, suc, ◌-◌, ◌≤◌, ◌<◌, ◌≡◌, ◌≢◌, refl, ap, ◌∙◌, inl, inr, false, ◌||◌, List, [], ◌∷◌, ◌++◌,
  length, length-append, length-take, length-drop, get_or, take, drop, ltb, ◌==◌, arith, Bool-cases,
}
use kakoune.Selections.{Selection, no_selection, SelectionList, remove}

abbrev without : List Selection → ℕ → List Selection
without sels index = take index sels ++ drop (suc index) sels

length-without :
    (sels : List Selection) (index : ℕ)
    → index < length sels
    → length (without sels index) ≡ length sels - 1
length-without sels index h = omega (
  arith,
  length-append (take index sels) (drop (suc index) sels),
  length-take index sels,
  length-drop (suc index) sels,
)

get_before :
    (sels : List Selection) (index i : ℕ)
    → i < index
    → index < length sels
    → get_or (without sels index) i no_selection ≡ get_or sels i no_selection
get_before [] index i h k = absurd (omega arith)
get_before (s ∷ sels) zero i h k = absurd (omega arith)
get_before (s ∷ sels) (suc index) zero h k = refl
get_before (s ∷ sels) (suc index) (suc i) h k = get_before sels index i (omega arith) (omega arith)

get_behind :
    (sels : List Selection) (index i : ℕ)
    → index ≤ i
    → get_or (without sels index) i no_selection ≡ get_or sels (suc i) no_selection
get_behind [] zero i h = refl
get_behind [] (suc index) i h = refl
get_behind (s ∷ sels) zero i h = refl
get_behind (s ∷ sels) (suc index) zero h = absurd (omega arith)
get_behind (s ∷ sels) (suc index) (suc i) h = get_behind sels index i (omega arith)

abbrev pub main_of : SelectionList → Selection
main_of l = get_or l.selections l.main_index no_selection

-- Removing one of several selections leaves a main selection, and the same one unless it is the
-- one that is removed.
pub remove_lem :
    (l : SelectionList) (index : ℕ)
    → index < length l.selections
    → l.main_index < length l.selections
    → 1 < length l.selections
    → ((remove l index).main_index < length (remove l index).selections)
      × (index ≢ l.main_index → main_of (remove l index) ≡ main_of l)
unfolding remove
remove_lem l index h k n =
    let size = length-without l.selections index h in
    let m = l.main_index in
    elim (Bool-cases (ltb index m || m == length (without l.selections index))) [
      | inl q ↦ rw q (
        omega (arith, size),
        λ other.
            moved m (ground (arith, size))
              (get_behind l.selections index (m - 1) (ground (arith, size))),
      )
      | inr q ↦
          rw q (ground (arith, size), λ other. get_before l.selections index m (below other q) h)
    ]
  where
    moved :
        (m : ℕ)
        → 0 < m
        → get_or (without l.selections index) (m - 1) no_selection
          ≡ get_or l.selections (suc (m - 1)) no_selection
        → get_or (without l.selections index) (m - 1) no_selection
          ≡ get_or l.selections m no_selection
    moved m p e = e ∙ ap (λ i. get_or l.selections i no_selection) (omega arith)

    below :
        index ≢ l.main_index
        → (ltb index l.main_index || l.main_index == length (without l.selections index)) ≡ false
        → l.main_index < index
    below other q = ground (arith, other)
