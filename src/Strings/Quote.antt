-- ===== src/Strings/Quote.antt =====
-- Replacing, and quoting for the shell (src/string_utils.cc: replace; string_utils.hh:
-- shell_quote), against the quoting rules of the POSIX shell.
use kakoune.Prelude.{
  ℕ, zero, suc, ◌+◌, ◌<◌, ◌≡◌, refl, sym, ap, ◌∙◌, inl, inr, Bool, true, false, ◌||◌, [], ◌∷◌, ◌++◌,
  append_assoc, Option, none, some, ◌==◌, if◌then◌else◌, arith, Bool-cases, ==_iff, length, drop,
  length-drop,
}
use kakoune.Prelude.Bytes.{Bytes, bytes_equal}
use kakoune.Strings.{
  prefix_match, replace_loop, replace, shell_quote, single_quote, backslash, quoted_quote,
}

-- replace comes to an end within one round for each byte and one more, unless the text to replace
-- is empty.
pub replace_total :
    (fuel : ℕ) (s : Bytes) (x : ℕ) (xs replacement : Bytes)
    → length s < fuel
    → (r : Bytes) × (replace fuel s (x ∷ xs) replacement ≡ some r)
unfolding replace replace_loop
replace_total zero s x xs replacement h = absurd (omega arith)
replace_total (suc fuel) [] x xs replacement h = ([], refl)
replace_total (suc fuel) (c ∷ s) x xs replacement h =
    elim (Bool-cases (prefix_match (c ∷ s) (x ∷ xs))) [
      | inl q ↦
          let (r, e) =
            replace_total fuel (drop (length xs) s) x xs replacement
              (omega (arith, length-drop (length xs) s)) in
          (replacement ++ r, rw (q, replace_loop, e) refl)
      | inr q ↦
          let (r, e) = replace_total fuel s x xs replacement (omega arith) in
          (c ∷ r, rw (q, replace_loop, e) refl)
    ]

-- Every byte `x` replaced.
replaced : Bytes → ℕ → Bytes → Bytes
replaced [] x replacement = []
replaced (c ∷ s) x replacement =
    let rest = replaced s x replacement in if c == x then replacement ++ rest else c ∷ rest

prefix_match_byte : (c x : ℕ) (s : Bytes) → prefix_match (c ∷ s) (x ∷ []) ≡ (c == x)
unfolding prefix_match bytes_equal
prefix_match_byte c x s = ground arith

replace_byte :
    (fuel : ℕ) (s : Bytes) (x : ℕ) (replacement : Bytes)
    → length s < fuel
    → replace_loop fuel s (x ∷ []) replacement ≡ some (replaced s x replacement)
unfolding replaced replace_loop
replace_byte zero s x replacement h = absurd (omega arith)
replace_byte (suc fuel) [] x replacement h = refl
replace_byte (suc fuel) (c ∷ s) x replacement h = elim (Bool-cases (c == x)) [
  | inl q ↦ rw (
    prefix_match_byte c x s ∙ q,
    replace_loop,
    replace_byte fuel s x replacement (omega arith),
    q,
  )
  | inr q ↦ rw (
    prefix_match_byte c x s ∙ q,
    replace_loop,
    replace_byte fuel s x replacement (omega arith),
    q,
  )
]

-- The word that a POSIX shell reads, and what follows it; the flag says whether the reader is
-- between single quotes. Unquoted blanks end the word. `none` is an unfinished quotation.
abbrev pub with_byte : ℕ → Option (Bytes × Bytes) → Option (Bytes × Bytes)
with_byte c none = none
with_byte c (some (w, rest)) = some (c ∷ w, rest)

abbrev ends_word : ℕ → Bool
ends_word c = c == 32 || (c == 9 || c == 10)

unfoldable pub shell_word : Bool → Bytes → Option (Bytes × Bytes)
shell_word true [] = none
shell_word false [] = some ([], [])
shell_word true (c ∷ s) = elim (c == single_quote) [
  | true ↦ shell_word false s
  | false ↦ with_byte c (shell_word true s)
]
shell_word false (c ∷ []) = elim (c == single_quote || c == backslash) [
  | true ↦ none
  | false ↦ if ends_word c then some ([], c ∷ []) else some (c ∷ [], [])
]
shell_word false (c ∷ d ∷ s) = elim (c == single_quote) [
  | true ↦ shell_word true (d ∷ s)
  | false ↦ elim (c == backslash) [
    | true ↦ with_byte d (shell_word false s)
    | false ↦ elim (ends_word c) [
      | true ↦ some ([], c ∷ d ∷ s)
      | false ↦ with_byte c (shell_word false (d ∷ s))
    ]
  ]
]

-- What may follow a word: nothing, or a blank.
pub data AfterWord : Bytes → Type 0 where
  nothing : AfterWord []
  blank : (s : Bytes) → AfterWord (32 ∷ s)

word_ends : {s : Bytes} → AfterWord s → shell_word false s ≡ some ([], s)
unfolding shell_word
word_ends nothing = refl
word_ends (blank []) = refl
word_ends (blank (d ∷ s)) = refl

quoted_start :
    (t : Bytes) {w : Bytes × Bytes}
    → shell_word true t ≡ some w
    → shell_word false (single_quote ∷ t) ≡ some w
unfolding shell_word
quoted_start [] e = absurd (cc)
quoted_start (d ∷ t) e = e

shell_word-replaced :
    (s rest : Bytes)
    → AfterWord rest
    → shell_word true (replaced s single_quote quoted_quote ++ (single_quote ∷ rest))
      ≡ some (s, rest)
unfolding replaced shell_word
shell_word-replaced [] rest h = word_ends h
shell_word-replaced (c ∷ s) rest h = elim (Bool-cases (c == single_quote)) [
  | inl q ↦
      let same : c ≡ single_quote = (==_iff c single_quote).0 q in
      rw q (
        ap (with_byte single_quote) (
          quoted_start (replaced s single_quote quoted_quote ++ (single_quote ∷ rest))
            (shell_word-replaced s rest h))
        ∙ ap (λ k. some (k ∷ s, rest)) (sym same))
  | inr q ↦ rw q (rw (q, shell_word) (ap (with_byte c) (shell_word-replaced s rest h)))
]

-- shell_quote gives a word, and a shell that reads it, with nothing or a blank behind it, gets
-- the bytes that were quoted and stands behind it.
pub shell_word-shell_quote :
    (s rest : Bytes)
    → AfterWord rest
    → (r : Bytes) × (shell_quote s ≡ some r) × (shell_word false (r ++ rest) ≡ some (s, rest))
unfolding shell_quote replace
shell_word-shell_quote s rest h =
    let body = replaced s single_quote quoted_quote in
    (
      single_quote ∷ (body ++ (single_quote ∷ [])),
      rw (shell_quote, replace_byte (length s + 1) s single_quote quoted_quote (omega arith)),
      ap (λ t. shell_word false (single_quote ∷ t)) (append_assoc body (single_quote ∷ []) rest)
          ∙ quoted_start (body ++ (single_quote ∷ rest)) (shell_word-replaced s rest h),
    )
