-- ===== src/Commands/Progress.antt =====
-- Each token takes at least one byte of the command line (src/command_manager.cc:
-- CommandParser::read_token).
use kakoune.Prelude.{
  ℕ, zero, suc, ◌-◌, ◌≤◌, ◌<◌, ◌≡◌, refl, ap, subst, inl, inr, Bool, true, false, not, ◌&&◌, ◌||◌,
  [], ◌∷◌, ◌++◌, Option, none, some, ltb, ◌==◌, if◌then◌else◌, arith, Bool-cases, Option-cases,
  length, length-drop, length-append, take, is_empty, drop,
}
use kakoune.Prelude.Bytes.{Bytes}
use kakoune.Lines.{newline}
use kakoune.Strings.{backslash}
use kakoune.Utf8.{read_codepoint, read_codepoint_multibyte}
use kakoune.Commands.{
  TokenType, Token, ParseState, ParseResult, Result, ok, err, ◌>>=◌, left, moved,
  skip_blanks_and_comments, quoted_loop, parse_quoted, read_byte, balanced_loop,
  parse_quoted_balanced, level_after, unquoted_loop, parse_unquoted, is_command_separator,
  is_ascii_horizontal_blank, token_type, starts_with,
}
use kakoune.Commands.Blanks.{
  Skips, stop, blank, continued, comment, IsStart, IsLineEnd, skip_blanks_and_comments-Skips,
}
use kakoune.Commands.Unquoted.{ends, step_plain}
use kakoune.Commands.Reader.{
  closing_of, percent_result, delimited, parse_percent_token, quoted_token, unquoted_start,
  unquoted_token, token_at, read_token, lower_case, empty_token,
}

Skips-length : {s r : Bytes} → Skips s r → length r ≤ length s
Skips-length (stop h) = omega arith
Skips-length (blank c h m) = omega (arith, Skips-length m)
Skips-length (continued m) = omega (arith, Skips-length m)
Skips-length (comment text {r} a h) = omega (arith, length-append text r)

newline_is_no_blank : is_ascii_horizontal_blank newline ≡ false
unfolding is_ascii_horizontal_blank
newline_is_no_blank = refl

-- What is left does not start with a blank.
Skips-start :
    {s r : Bytes} (c : ℕ) (t : Bytes) → Skips s r → r ≡ c ∷ t → is_ascii_horizontal_blank c ≡ false
Skips-start c t (stop {s} h) e = start_of s h e
  where
    start_of : (s : Bytes) → IsStart s → s ≡ c ∷ t → is_ascii_horizontal_blank c ≡ false
    start_of [] h e = absurd (cc)
    start_of (d ∷ s) h e =
        let first : d ≡ c = ground arith in
        subst (λ x. is_ascii_horizontal_blank x ≡ false) first h.0
Skips-start c t (blank d h m) e = Skips-start c t m e
Skips-start c t (continued m) e = Skips-start c t m e
Skips-start c t (comment text {r} a h) e = line_end r h e
  where
    line_end : (r : Bytes) → IsLineEnd r → r ≡ c ∷ t → is_ascii_horizontal_blank c ≡ false
    line_end [] h e = absurd (cc)
    line_end (d ∷ r) h e =
        let first : newline ≡ c = ground arith in
        subst (λ x. is_ascii_horizontal_blank x ≡ false) first newline_is_no_blank

read_codepoint-length : (s : Bytes) → length (read_codepoint s).1 ≤ length s
unfolding read_codepoint read_codepoint_multibyte
read_codepoint-length [] = omega arith
read_codepoint-length (b ∷ []) = ground arith
read_codepoint-length (b ∷ c ∷ []) = ground arith
read_codepoint-length (b ∷ c ∷ d ∷ []) = ground arith
read_codepoint-length (b ∷ c ∷ d ∷ e ∷ s) = ground arith

read_byte-length : (s : Bytes) → length (read_byte s).1 ≤ length s
unfolding read_byte
read_byte-length [] = omega arith
read_byte-length (c ∷ s) = omega arith

quoted_loop-length :
    (fuel : ℕ) (read : Bytes → ℕ × Bytes) (d : ℕ) (s : Bytes)
    → ((t : Bytes) → length (read t).1 ≤ length t)
    → length (quoted_loop fuel read d s).1 ≤ length s
unfolding quoted_loop
quoted_loop-length zero read d s h = omega arith
quoted_loop-length (suc fuel) read d [] h = omega arith
quoted_loop-length (suc fuel) read d (b ∷ s) h =
    let t = (read (b ∷ s)).1 in
    elim (Bool-cases ((read (b ∷ s)).0 == d)) [
      | inr q ↦ rw (q, quoted_loop) (omega (arith, h (b ∷ s), quoted_loop-length fuel read d t h))
      | inl q ↦ elim (Bool-cases (not (is_empty t) && (read t).0 == d)) [
        | inr p ↦ rw (q, quoted_loop, p) (h (b ∷ s))
        | inl p ↦
            rw (q, quoted_loop, p)
              (omega (arith, h (b ∷ s), h t, quoted_loop-length fuel read d (read t).1 h))
      ]
    ]

balanced_loop-length :
    (opening closing level : ℕ) (s : Bytes)
    → length (balanced_loop opening closing level s).1 ≤ length s
unfolding balanced_loop
balanced_loop-length opening closing level [] = omega arith
balanced_loop-length opening closing level (c ∷ s) =
    ground (arith, balanced_loop-length opening closing (level_after opening closing c level) s)

unquoted_loop-length : (str segment s : Bytes) → length (unquoted_loop str segment s).1 ≤ length s
unfolding unquoted_loop
unquoted_loop-length str segment [] = omega arith
unquoted_loop-length str segment (c ∷ s) =
    let joined = str ++ segment in
    ground (
      arith,
      unquoted_loop-length (take (length joined - 1) joined ++ (c ∷ [])) [] s,
      unquoted_loop-length str (segment ++ (c ∷ [])) s,
    )

-- A reader that was at `s` has gone on in the same string to its new position.
abbrev pub GoesOn : ParseState → ℕ → Result (Token × ParseState) → Type 0
GoesOn st s (err e) = Unit
GoesOn st s (ok (t, st')) =
    (st'.str ≡ st.str) × (length st.str - s ≤ st'.pos) × (st'.pos ≤ length st.str)

moved-GoesOn :
    (st : ParseState) (s : ℕ) (t : Token) (rest : Bytes)
    → length rest ≤ s
    → GoesOn st s (ok (t, moved st rest))
moved-GoesOn st s t rest h = (refl, omega arith, omega arith)

GoesOn-mono :
    (st : ParseState) (s s' : ℕ) (r : Result (Token × ParseState))
    → s ≤ s'
    → GoesOn st s r
    → GoesOn st s' r
GoesOn-mono st s s' (err e) h g = tt
GoesOn-mono st s s' (ok (t, st')) h g = (g.0, omega (arith, g.1), g.2)

percent_result-GoesOn :
    (st : ParseState) (throw : Bool) (type : TokenType) (name : Bytes) (opening closing : ℕ)
    (start : Bytes) (r : ParseResult × Bytes)
    → length r.1 ≤ length start
    → GoesOn st (length start) (percent_result st throw type name opening closing start r)
unfolding percent_result
percent_result-GoesOn st throw type name opening closing start (quoted, s) h =
    elim (Bool-cases (throw && not quoted.terminated)) [
      | inl q ↦ rw q tt
      | inr q ↦ rw q (moved-GoesOn st (length start) empty_token s h)
    ]

parse_quoted-length :
    (read : Bytes → ℕ × Bytes) (d : ℕ) (s : Bytes)
    → ((t : Bytes) → length (read t).1 ≤ length t)
    → length (parse_quoted read d s).1 ≤ length s
unfolding parse_quoted
parse_quoted-length read d s h = quoted_loop-length (suc (length s)) read d s h

reader-length :
    (ascii : Bool) (t : Bytes)
    → length ((if ascii then read_byte else read_codepoint) t).1 ≤ length t
reader-length true t = read_byte-length t
reader-length false t = read_codepoint-length t

delimited-GoesOn :
    (st : ParseState) (throw : Bool) (type : TokenType) (name : Bytes) (opening : ℕ) (start : Bytes)
    → GoesOn st (length start) (delimited st throw type name opening start)
unfolding delimited
delimited-GoesOn st throw type name opening start = elim (Option-cases (closing_of opening)) [
  | inl q ↦
      rw (q, delimited)
        (percent_result-GoesOn st throw type name opening opening start
          (parse_quoted (if ltb opening 128 then read_byte else read_codepoint) opening start)
          (parse_quoted-length _ opening start (reader-length (ltb opening 128))))
  | inr (closing, q) ↦
      rw (q, delimited)
        (percent_result-GoesOn st throw type name opening closing start
          (parse_quoted_balanced opening closing start)
          (unfold parse_quoted_balanced in balanced_loop-length opening closing 1 start))
]

then-GoesOn :
    (st : ParseState) (s : ℕ) (m : Result TokenType) (f : TokenType → Result (Token × ParseState))
    → ((type : TokenType) → GoesOn st s (f type))
    → GoesOn st s (m >>= f)
then-GoesOn st s (ok type) f h = h type
then-GoesOn st s (err e) f h = tt

parse_percent_token-GoesOn :
    (iswalpha : ℕ → Bool) (st : ParseState) (throw : Bool) (s : Bytes)
    → GoesOn st (length s) (parse_percent_token iswalpha st throw s)
unfolding parse_percent_token
parse_percent_token-GoesOn iswalpha st throw s =
    let name = lower_case s in
    let at = drop (length name) s in
    let opening = (read_codepoint at).0 in
    let start = (read_codepoint at).1 in
    let shorter : length start ≤ length s =
      omega (arith, read_codepoint-length at, length-drop (length name) s) in
    elim (Bool-cases (is_empty at || iswalpha opening)) [
      | inl q ↦ elim (Bool-cases throw) [
        | inl p ↦ rw (q, p) tt
        | inr p ↦ rw (q, p) (moved-GoesOn st (length s) empty_token start shorter)
      ]
      | inr q ↦ rw q (
          GoesOn-mono st (length start) (length s) _ shorter (
            then-GoesOn st (length start) (token_type name throw) _
              (λ type. delimited-GoesOn st throw type name opening start)))
    ]

quoted_token-GoesOn :
    (st : ParseState) (throw : Bool) (c : ℕ) (start : Bytes)
    → GoesOn st (length start) (quoted_token st throw c start)
unfolding quoted_token
quoted_token-GoesOn st throw c start =
    elim (Bool-cases (throw && not (parse_quoted read_byte c start).0.terminated)) [
      | inl q ↦ rw q tt
      | inr q ↦ rw q (
          moved-GoesOn st (length start) empty_token (parse_quoted read_byte c start).1
            (parse_quoted-length read_byte c start read_byte-length))
    ]

-- The byte at which a token starts, when it is no blank, is consumed.
unquoted_token-GoesOn :
    (st : ParseState) (c : ℕ) (s : Bytes)
    → ends c ≡ false
    → GoesOn st (length s) (ok (unquoted_token st c s))
unfolding unquoted_token unquoted_start parse_unquoted
unquoted_token-GoesOn st c s h =
    elim (Bool-cases
      (c == backslash && (starts_with b'%' s || (starts_with 39 s || starts_with b'"' s)))) [
        | inl q ↦ rw q (
            moved-GoesOn st (length s) empty_token (parse_unquoted s).1
              (unquoted_loop-length [] [] s))
        | inr q ↦
            let step = ap (λ r. length r.1) (step_plain [] [] c s h) in
            let shorter = unquoted_loop-length [] (c ∷ []) s in
            rw q (
              moved-GoesOn st (length s) empty_token (parse_unquoted (c ∷ s)).1
                (omega (arith, step, shorter)))
      ]

token_at-GoesOn :
    (iswalpha : ℕ → Bool) (st : ParseState) (throw : Bool) (c : ℕ) (s : Bytes)
    → is_ascii_horizontal_blank c ≡ false
    → GoesOn st (length s) (token_at iswalpha st throw c s)
unfolding token_at
token_at-GoesOn iswalpha st throw c s h = elim (Bool-cases (c == b'"' || c == 39)) [
  | inl q ↦ rw q (quoted_token-GoesOn st throw c s)
  | inr q ↦ elim (Bool-cases (c == b'%')) [
    | inl p ↦ rw (q, p) (parse_percent_token-GoesOn iswalpha st throw s)
    | inr p ↦ elim (Bool-cases (is_command_separator c)) [
      | inl l ↦ rw (q, p, l) (moved-GoesOn st (length s) empty_token s (omega arith))
      | inr l ↦ rw (q, p, l) (unquoted_token-GoesOn st c s (rw (l, h)))
    ]
  ]
]

-- What read_token gives is nothing, or a token that took a byte at least.
abbrev pub Advances : ParseState → Result (Option Token × ParseState) → Type 0
Advances st (err e) = Unit
Advances st (ok (none, st')) = Unit
Advances st (ok (some t, st')) = (st'.str ≡ st.str) × (st.pos < st'.pos) × (st'.pos ≤ length st.str)

GoesOn-Advances :
    (st : ParseState) (s : ℕ) (r : Result (Token × ParseState))
    → s < length st.str - st.pos
    → GoesOn st s r
    → Advances st (r >>= λ t. ok (some t.0, t.1))
GoesOn-Advances st s (err e) h g = tt
GoesOn-Advances st s (ok (t, st')) h g = (g.0, omega (arith, g.1), g.2)

-- A token that read_token returns takes a byte of the command line at least: the position moves
-- forward, stays within the line, and the line stays as it is.
pub read_token-Advances :
    (iswalpha : ℕ → Bool) (st : ParseState) (throw : Bool)
    → Advances st (read_token iswalpha st throw)
unfolding read_token
read_token-Advances iswalpha st throw =
    let skips = skip_blanks_and_comments-Skips (left st) in
    from (skip_blanks_and_comments (left st)) (Skips-length skips)
      (λ c t e. Skips-start c t skips e)
  where
    from :
        (s : Bytes)
        → length s ≤ length (left st)
        → ((c : ℕ) (t : Bytes) → s ≡ c ∷ t → is_ascii_horizontal_blank c ≡ false)
        → Advances st (elim s [
          | [] ↦ ok (none, moved st [])
          | c ∷ t ↦ token_at iswalpha st throw c t >>= λ r. ok (some r.0, r.1)
        ])
    from [] h k = tt
    from (c ∷ t) h k =
        GoesOn-Advances st (length t) (token_at iswalpha st throw c t)
          (omega (arith, length-drop st.pos st.str, h))
          (token_at-GoesOn iswalpha st throw c t (k c t refl))
