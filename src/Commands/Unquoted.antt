-- ===== src/Commands/Unquoted.antt =====
-- Words without quotes (src/command_manager.cc: parse_unquoted), with a backslash before each
-- blank and separator (src/string_utils.cc: escape).
use kakoune.Prelude.{
  ℕ, ◌-◌, ◌≡◌, ◌≢◌, refl, sym, ap, ◌∙◌, inl, inr, Bool, true, false, ◌||◌, [], ◌∷◌, ◌++◌,
  append_assoc, append-nil, ◌==◌, ==_iff, arith, Bool-cases, length, length-append, take,
  take-length_append,
}
use kakoune.Prelude.Bytes.{Bytes, contains}
use kakoune.Lines.{back}
use kakoune.Strings.{escape, backslash}
use kakoune.Commands.{
  is_command_separator, is_ascii_horizontal_blank, unquoted_loop, parse_unquoted,
}

-- The bytes that end a word.
abbrev pub ends : ℕ → Bool
ends c = is_command_separator c || is_ascii_horizontal_blank c

-- ";\n\t\f "
abbrev pub word_ends : Bytes
word_ends = b';' ∷ 10 ∷ 9 ∷ 12 ∷ 32 ∷ []

-- What may follow a word: nothing, or a byte that ends it.
pub data AfterWord : Bytes → Type 0 where
  nothing : AfterWord []
  ending : (c : ℕ) (s : Bytes) → ends c ≡ true → AfterWord (c ∷ s)

contains-word_ends : (c : ℕ) → contains word_ends c ≡ ends c
unfolding contains is_command_separator is_ascii_horizontal_blank
contains-word_ends c = ground arith

backslash_goes_on : ends backslash ≡ false
unfolding is_command_separator is_ascii_horizontal_blank
backslash_goes_on = refl

back-append_one : (s : Bytes) (c : ℕ) → back (s ++ (c ∷ [])) ≡ c
back-append_one [] c = refl
back-append_one (x ∷ []) c = refl
back-append_one (x ∷ y ∷ s) c = back-append_one (y ∷ s) c

back-append_cons : (s t : Bytes) (c : ℕ) → back (s ++ (c ∷ t)) ≡ back (c ∷ t)
back-append_cons [] t c = refl
back-append_cons (x ∷ []) t c = refl
back-append_cons (x ∷ y ∷ s) t c = back-append_cons (y ∷ s) t c

-- The last byte of a text is overwritten.
set_last : (s : Bytes) (x : ℕ) → take (length (s ++ (x ∷ [])) - 1) (s ++ (x ∷ [])) ≡ s
set_last s x =
    ap (λ n. take n (s ++ (x ∷ []))) (omega (arith, length-append s (x ∷ [])))
    ∙ take-length_append s (x ∷ [])

pub step_plain :
    (str segment : Bytes) (c : ℕ) (s : Bytes)
    → ends c ≡ false
    → unquoted_loop str segment (c ∷ s) ≡ unquoted_loop str (segment ++ (c ∷ [])) s
unfolding unquoted_loop
step_plain str segment c s h = rw h

step_escaped :
    (str segment : Bytes) (c : ℕ) (s : Bytes)
    → ends c ≡ true
    → unquoted_loop str (segment ++ (backslash ∷ [])) (c ∷ s)
      ≡ unquoted_loop ((str ++ segment) ++ (c ∷ [])) [] s
unfolding unquoted_loop
step_escaped str segment c s h =
    let last : (back (segment ++ (backslash ∷ [])) == backslash) ≡ true =
      (==_iff _ _).1 (back-append_one segment backslash) in
    rw (h, last)
      (ap (λ t. unquoted_loop (take (length t - 1) t ++ (c ∷ [])) [] s)
          (sym (append_assoc str segment (backslash ∷ [])))
        ∙ ap (λ t. unquoted_loop (t ++ (c ∷ [])) [] s) (set_last (str ++ segment) backslash))

step_end :
    (str segment rest : Bytes)
    → back segment ≢ backslash
    → AfterWord rest
    → unquoted_loop str segment rest ≡ (str ++ segment, rest)
unfolding unquoted_loop
step_end str segment [] h nothing = refl
step_end str segment (c ∷ s) h (ending _ _ e) =
    let last : (back segment == backslash) ≡ false = ground arith in rw (e, last)

last_after :
    (segment s : Bytes) (c : ℕ) → back (segment ++ (c ∷ s)) ≢ backslash → back s ≢ backslash
last_after segment [] c h e = absurd (omega arith)
last_after segment (d ∷ s) c h e = h (back-append_cons segment (d ∷ s) c ∙ e)

unquoted_loop-escape :
    (s str segment rest : Bytes)
    → back (segment ++ s) ≢ backslash
    → AfterWord rest
    → unquoted_loop str segment (escape s word_ends backslash ++ rest)
      ≡ ((str ++ segment) ++ s, rest)
unfolding escape
unquoted_loop-escape [] str segment rest h k =
    step_end str segment rest (λ e. h (ap back (append-nil segment) ∙ e)) k
    ∙ ap (λ t. (t, rest)) (sym (append-nil (str ++ segment)))
unquoted_loop-escape (c ∷ s) str segment rest h k = elim (Bool-cases (ends c)) [
  | inl q ↦ rw (contains-word_ends c ∙ q) (
      step_plain str segment backslash (c ∷ (escape s word_ends backslash ++ rest))
        backslash_goes_on
      ∙ step_escaped str segment c (escape s word_ends backslash ++ rest) q
      ∙ unquoted_loop-escape s ((str ++ segment) ++ (c ∷ [])) [] rest (last_after segment s c h) k
      ∙ ap (λ t. (t, rest)) (regroup (str ++ segment) c s))
  | inr q ↦ rw (contains-word_ends c ∙ q) (
      step_plain str segment c (escape s word_ends backslash ++ rest) q
      ∙ unquoted_loop-escape s str (segment ++ (c ∷ [])) rest
          (λ e. h (ap back (sym (append_assoc segment (c ∷ []) s)) ∙ e)) k
      ∙ ap (λ t. (t, rest))
          (ap (◌++ s) (sym (append_assoc str segment (c ∷ [])))
            ∙ append_assoc (str ++ segment) (c ∷ []) s))
]
  where
    regroup : (t : Bytes) (c : ℕ) (s : Bytes) → ((t ++ (c ∷ [])) ++ []) ++ s ≡ t ++ (c ∷ s)
    regroup t c s = ap (◌++ s) (append-nil (t ++ (c ∷ []))) ∙ append_assoc t (c ∷ []) s

-- A word in which each blank and separator has a backslash before it is read back as it was, up
-- to the blank or separator that follows it or the end, if it does not itself end in a backslash.
pub parse_unquoted-escape :
    (s rest : Bytes)
    → back s ≢ backslash
    → AfterWord rest
    → parse_unquoted (escape s word_ends backslash ++ rest) ≡ (s, rest)
unfolding parse_unquoted
parse_unquoted-escape s rest h k = unquoted_loop-escape s [] [] rest h k
