-- ===== src/Commands/Blanks.antt =====
-- Blanks, line continuations and comments before a token (src/command_manager.cc:
-- skip_blanks_and_comments).
use kakoune.Prelude.{
  ℕ, zero, suc, ◌≤◌, ◌≡◌, refl, ap, ◌∙◌, inl, inr, true, false, ◌&&◌, [], ◌∷◌, ◌++◌, ◌==◌, ==_iff,
  sym, subst, All, length-drop, arith, Bool-cases, length, drop, if◌then◌else◌,
}
use kakoune.Prelude.Bytes.{Bytes}
use kakoune.Lines.{newline}
use kakoune.Strings.{backslash}
use kakoune.Commands.{
  is_ascii_horizontal_blank, comment_end, starts_with, skip_loop, skip_blanks_and_comments,
}

-- Where a token starts: not at a blank, a continued line or a comment.
abbrev pub IsStart : Bytes → Type 0
IsStart [] = Unit
IsStart (c ∷ s) =
    (is_ascii_horizontal_blank c ≡ false)
    × ((c == backslash && starts_with newline s) ≡ false)
    × ((c == b'#') ≡ false)

-- At the end of a line or of the text.
abbrev pub IsLineEnd : Bytes → Type 0
IsLineEnd [] = Unit
IsLineEnd (c ∷ s) = c ≡ newline

-- From the first text the parser passes over blanks, continued lines and at most one comment, and
-- stops at the second.
pub data Skips : Bytes → Bytes → Type 0 where
  stop : {s : Bytes} → IsStart s → Skips s s
  blank : (c : ℕ) {s r : Bytes} → is_ascii_horizontal_blank c ≡ true → Skips s r → Skips (c ∷ s) r
  continued : {s r : Bytes} → Skips s r → Skips (backslash ∷ newline ∷ s) r
  comment :
      (text : Bytes) {r : Bytes}
      → All (λ c. (c == newline) ≡ false) text
      → IsLineEnd r
      → Skips (b'#' ∷ (text ++ r)) r

-- The text of a comment, up to the end of its line.
comment_text : Bytes → Bytes
comment_text [] = []
comment_text (c ∷ s) = if c == newline then [] else c ∷ comment_text s

comment_end_lem :
    (s : Bytes)
    → (s ≡ comment_text s ++ comment_end s)
      × All (λ c. (c == newline) ≡ false) (comment_text s)
      × IsLineEnd (comment_end s)
unfolding comment_text comment_end
comment_end_lem [] = (refl, tt, tt)
comment_end_lem (c ∷ s) = elim (Bool-cases (c == newline)) [
  | inl q ↦ rw q (refl, tt, (==_iff c newline).0 q)
  | inr q ↦ let (e, a, l) = comment_end_lem s in rw q (ap (c ∷◌) e, (q, a), l)
]

-- At the end of a line the loop stops.
stops_at_line_end : (fuel : ℕ) (s : Bytes) → IsLineEnd s → skip_loop fuel s ≡ s
unfolding skip_loop is_ascii_horizontal_blank
stops_at_line_end zero s h = refl
stops_at_line_end (suc fuel) [] h = refl
stops_at_line_end (suc fuel) (c ∷ s) h = rw h

skip_blank :
    (fuel c : ℕ) (s : Bytes)
    → is_ascii_horizontal_blank c ≡ true
    → skip_loop (suc fuel) (c ∷ s) ≡ skip_loop fuel s
unfolding skip_loop
skip_blank fuel c s h = rw (h, skip_loop)

skip_continued :
    (fuel c : ℕ) (s : Bytes)
    → is_ascii_horizontal_blank c ≡ false
    → (c == backslash && starts_with newline s) ≡ true
    → skip_loop (suc fuel) (c ∷ s) ≡ skip_loop fuel (drop 1 s)
unfolding skip_loop
skip_continued fuel c s h k = rw (h, skip_loop, k)

skip_comment :
    (fuel c : ℕ) (s : Bytes)
    → is_ascii_horizontal_blank c ≡ false
    → (c == backslash && starts_with newline s) ≡ false
    → (c == b'#') ≡ true
    → skip_loop (suc fuel) (c ∷ s) ≡ skip_loop fuel (comment_end s)
unfolding skip_loop
skip_comment fuel c s h k l = rw (h, skip_loop, k, l)

skip_none : (fuel c : ℕ) (s : Bytes) → IsStart (c ∷ s) → skip_loop (suc fuel) (c ∷ s) ≡ c ∷ s
unfolding skip_loop
skip_none fuel c s (h, k, l) = rw (h, skip_loop, k, l)

continuation :
    (c : ℕ) (s : Bytes)
    → (c == backslash && starts_with newline s) ≡ true
    → c ∷ s ≡ backslash ∷ newline ∷ drop 1 s
continuation c [] h = absurd (ground arith)
continuation c (d ∷ s) h = ground arith

skip_loop-Skips : (fuel : ℕ) (s : Bytes) → length s ≤ fuel → Skips s (skip_loop fuel s)
skip_loop-Skips fuel [] h = subst (Skips []) (sym (stops_at_line_end fuel [] tt)) (stop tt)
skip_loop-Skips zero (c ∷ s) h = absurd (omega arith)
skip_loop-Skips (suc fuel) (c ∷ s) h = elim (Bool-cases (is_ascii_horizontal_blank c)) [
  | inl q ↦ rw (skip_blank fuel c s q) (blank c q (skip_loop-Skips fuel s (omega arith)))
  | inr q ↦ elim (Bool-cases (c == backslash && starts_with newline s)) [
    | inl p ↦ rw (skip_continued fuel c s q p) (
        subst (λ t. Skips t (skip_loop fuel (drop 1 s))) (sym (continuation c s p))
          (continued (skip_loop-Skips fuel (drop 1 s) (omega (arith, length-drop 1 s)))))
    | inr p ↦ elim (Bool-cases (c == b'#')) [
      | inl l ↦
          let (e, a, d) = comment_end_lem s in
          let first : c ≡ b'#' = (==_iff c b'#').0 l in
          rw (skip_comment fuel c s q p l ∙ stops_at_line_end fuel (comment_end s) d)
            (subst (λ t. Skips t (comment_end s)) (sym (cc)) (comment (comment_text s) a d))
      | inr l ↦ rw (skip_none fuel c s (q, p, l)) (stop (q, p, l))
    ]
  ]
]

-- Before a token the parser passes over blanks, continued lines and a comment, and over nothing
-- else: it stops where a token starts, or at the end of the comment's line.
pub skip_blanks_and_comments-Skips : (s : Bytes) → Skips s (skip_blanks_and_comments s)
unfolding skip_blanks_and_comments
skip_blanks_and_comments-Skips s = skip_loop-Skips (length s) s (omega arith)
