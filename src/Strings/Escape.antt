-- ===== src/Strings/Escape.antt =====
-- Escaping and its inverse (src/string_utils.cc: escape, unescape).
use kakoune.Prelude.{
  ℕ, ◌≡◌, refl, ap, ◌∙◌, inl, inr, true, false, [], ◌∷◌, ◌==◌, ==_iff, Bool-cases,
}
use kakoune.Prelude.Bytes.{Bytes, contains}
use kakoune.Strings.{escape, unescape}

-- A byte that is not the escape byte is copied.
pub unescape_other :
    (c : ℕ) (s characters : Bytes) (e : ℕ)
    → (c == e) ≡ false
    → unescape (c ∷ s) characters e ≡ c ∷ unescape s characters e
unfolding unescape
unescape_other c [] characters e h = refl
unescape_other c (d ∷ s) characters e h = rw (h, unescape)

unescape_pair :
    (d : ℕ) (s characters : Bytes) (e : ℕ)
    → contains characters d ≡ true
    → unescape (e ∷ d ∷ s) characters e ≡ d ∷ unescape s characters e
unfolding unescape
unescape_pair d s characters e h = rw ((==_iff e e).1 refl, h, unescape)

-- A byte outside the set that holds the escape byte is not the escape byte.
outside :
    (c e : ℕ) (characters : Bytes)
    → contains characters e ≡ true
    → contains characters c ≡ false
    → (c == e) ≡ false
outside c e characters h k = elim (Bool-cases (c == e)) [
  | inl q ↦ let same : c ≡ e = (==_iff c e).0 q in absurd (cc)
  | inr q ↦ q
]

-- unescape gives back what escape was given, when the escape byte is itself among the escaped ones.
pub unescape-escape :
    (s characters : Bytes) (e : ℕ)
    → contains characters e ≡ true
    → unescape (escape s characters e) characters e ≡ s
unfolding escape
unescape-escape [] characters e h = unfold unescape in refl
unescape-escape (c ∷ s) characters e h = elim (Bool-cases (contains characters c)) [
  | inl q ↦ rw q (
      unescape_pair c (escape s characters e) characters e q
      ∙ ap (c ∷◌) (unescape-escape s characters e h))
  | inr q ↦ rw q (
      unescape_other c (escape s characters e) characters e (outside c e characters h q)
      ∙ ap (c ∷◌) (unescape-escape s characters e h))
]
