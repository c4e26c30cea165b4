-- ===== src/Commands/Quoted.antt =====
-- Strings between quotes (src/command_manager.cc: parse_quoted; src/string_utils.hh: quote).
use kakoune.Prelude.{
  ℕ, zero, suc, ◌-◌, ◌<◌, ◌≡◌, refl, sym, ap, ◌∙◌, inl, inr, true, false, [], ◌∷◌, ◌++◌,
  append_assoc, ◌==◌, ==_iff, if◌then◌else◌, arith, Bool-cases, length, length-append,
}
use kakoune.Prelude.Bytes.{Bytes, contains}
use kakoune.Strings.{double_up, quote, single_quote}
use kakoune.Commands.{
  ParseResult, read_byte, quoted_loop, parse_quoted, between, with_content, closed, starts_with,
}

between_byte : (c : ℕ) (s : Bytes) → between (c ∷ s) s ≡ c ∷ []
between_byte c s = let e : suc (length s) - length s ≡ 1 = omega arith in rw e

step_other :
    (fuel d c : ℕ) (s : Bytes)
    → (c == d) ≡ false
    → quoted_loop (suc fuel) read_byte d (c ∷ s)
      ≡ with_content (c ∷ []) (quoted_loop fuel read_byte d s)
unfolding quoted_loop read_byte
step_other fuel d c s h = rw (h, quoted_loop, between_byte c s)

step_two :
    (fuel d c e : ℕ) (s : Bytes)
    → (c == d) ≡ true
    → (e == d) ≡ true
    → quoted_loop (suc fuel) read_byte d (c ∷ e ∷ s)
      ≡ with_content (between (c ∷ e ∷ s) (e ∷ s)) (quoted_loop fuel read_byte d s)
unfolding quoted_loop read_byte
step_two fuel d c e s h k = rw (h, quoted_loop, k)

step_double :
    (fuel d : ℕ) (s : Bytes)
    → quoted_loop (suc fuel) read_byte d (d ∷ d ∷ s)
      ≡ with_content (d ∷ []) (quoted_loop fuel read_byte d s)
step_double fuel d s =
    let same = (==_iff d d).1 refl in
    step_two fuel d d d s same same
    ∙ ap (λ t. with_content t (quoted_loop fuel read_byte d s)) (between_byte d (d ∷ s))

step_end :
    (fuel d : ℕ) (s : Bytes)
    → starts_with d s ≡ false
    → quoted_loop (suc fuel) read_byte d (d ∷ s) ≡ closed s
unfolding quoted_loop read_byte
step_end fuel d [] h = rw ((==_iff d d).1 refl, quoted_loop)
step_end fuel d (c ∷ s) h = rw ((==_iff d d).1 refl, quoted_loop, h)

double_up_same : (d : ℕ) (s : Bytes) → double_up (d ∷ s) (d ∷ []) ≡ d ∷ d ∷ double_up s (d ∷ [])
unfolding double_up contains
double_up_same d s = rw ((==_iff d d).1 refl)

double_up_other :
    (d c : ℕ) (s : Bytes) → (c == d) ≡ false → double_up (c ∷ s) (d ∷ []) ≡ c ∷ double_up s (d ∷ [])
unfolding double_up contains
double_up_other d c s h = let h' : (d == c) ≡ false = ground arith in rw h'

-- Reading doubled text up to a delimiter that is not doubled.
pub quoted_loop-double_up :
    (fuel d : ℕ) (s rest : Bytes)
    → length (double_up s (d ∷ [])) < fuel
    → starts_with d rest ≡ false
    → quoted_loop fuel read_byte d (double_up s (d ∷ []) ++ (d ∷ rest))
      ≡ (record { content = s; terminated = true }, rest)
quoted_loop-double_up zero d s rest h k = absurd (omega arith)
quoted_loop-double_up (suc fuel) d [] rest h k = unfold double_up in step_end fuel d rest k
quoted_loop-double_up (suc fuel) d (c ∷ s) rest h k = elim (Bool-cases (c == d)) [
  | inl q ↦
      let same : c ≡ d = (==_iff c d).0 q in
      let size = ap length (ap (λ x. double_up (x ∷ s) (d ∷ [])) same ∙ double_up_same d s) in
      ap (λ x. quoted_loop (suc fuel) read_byte d (double_up (x ∷ s) (d ∷ []) ++ (d ∷ rest))) same
      ∙ ap (λ t. quoted_loop (suc fuel) read_byte d (t ++ (d ∷ rest))) (double_up_same d s)
      ∙ step_double fuel d (double_up s (d ∷ []) ++ (d ∷ rest))
      ∙ ap (with_content (d ∷ [])) (quoted_loop-double_up fuel d s rest (omega (arith, size)) k)
      ∙ ap (λ x. (record { content = x ∷ s; terminated = true }, rest)) (sym same)
  | inr q ↦
      let size = ap length (double_up_other d c s q) in
      ap (λ t. quoted_loop (suc fuel) read_byte d (t ++ (d ∷ rest))) (double_up_other d c s q)
      ∙ step_other fuel d c (double_up s (d ∷ []) ++ (d ∷ rest)) q
      ∙ ap (with_content (c ∷ [])) (quoted_loop-double_up fuel d s rest (omega (arith, size)) k)
]

-- What a result of parse_quoted says of the text it was given: the content, its delimiters
-- doubled, then the closing delimiter if there is one, then the rest, which does not double it.
abbrev pub IsQuoted : ℕ → Bytes → ParseResult × Bytes → Type 0
IsQuoted d s (r, rest) =
    (s ≡ double_up r.content (d ∷ []) ++ (if r.terminated then d ∷ rest else []))
    × (starts_with d rest ≡ false)

IsQuoted-other :
    (d c : ℕ) (s : Bytes) (r : ParseResult × Bytes)
    → (c == d) ≡ false
    → IsQuoted d s r
    → IsQuoted d (c ∷ s) (with_content (c ∷ []) r)
IsQuoted-other d c s (r, rest) h q = (
  ap (c ∷◌) q.0
      ∙ ap (◌++ (if r.terminated then d ∷ rest else [])) (sym (double_up_other d c r.content h)),
  q.1,
)

IsQuoted-double :
    (d : ℕ) (s : Bytes) (r : ParseResult × Bytes)
    → IsQuoted d s r
    → IsQuoted d (d ∷ d ∷ s) (with_content (d ∷ []) r)
IsQuoted-double d s (r, rest) q = (
  ap (λ t. d ∷ d ∷ t) q.0
      ∙ ap (◌++ (if r.terminated then d ∷ rest else [])) (sym (double_up_same d r.content)),
  q.1,
)

quoted_loop-IsQuoted :
    (fuel d : ℕ) (s : Bytes) → length s < fuel → IsQuoted d s (quoted_loop fuel read_byte d s)
quoted_loop-IsQuoted zero d s h = absurd (omega arith)
quoted_loop-IsQuoted (suc fuel) d [] h = unfold quoted_loop double_up in (refl, refl)
quoted_loop-IsQuoted (suc fuel) d (c ∷ []) h = elim (Bool-cases (c == d)) [
  | inl q ↦
      let same : c ≡ d = (==_iff c d).0 q in
      rw (same, step_end fuel d [] refl) (unfold double_up in (refl, refl))
  | inr q ↦ rw (step_other fuel d c [] q) (
      IsQuoted-other d c [] (quoted_loop fuel read_byte d []) q
        (quoted_loop-IsQuoted fuel d [] (omega arith)))
]
quoted_loop-IsQuoted (suc fuel) d (c ∷ e ∷ s) h = elim (Bool-cases (c == d)) [
  | inl q ↦ elim (Bool-cases (e == d)) [
    | inl p ↦
        let same : c ≡ d = (==_iff c d).0 q in
        let same' : e ≡ d = (==_iff e d).0 p in
        rw (same, same', step_double fuel d s)
          (IsQuoted-double d s (quoted_loop fuel read_byte d s)
            (quoted_loop-IsQuoted fuel d s (omega arith)))
    | inr p ↦
        let same : c ≡ d = (==_iff c d).0 q in
        rw (same, step_end fuel d (e ∷ s) p) (unfold double_up in (refl, p))
  ]
  | inr q ↦ rw (step_other fuel d c (e ∷ s) q) (
      IsQuoted-other d c (e ∷ s) (quoted_loop fuel read_byte d (e ∷ s)) q
        (quoted_loop-IsQuoted fuel d (e ∷ s) (omega arith)))
]

-- Where the delimiter is a byte and the text is read byte by byte, as for quotes and for the ASCII
-- delimiters of %-strings, whatever text parse_quoted is given is the content that comes out with
-- each delimiter doubled, then the closing delimiter and the rest that is left if the result is
-- terminated, and nothing if it is not; and the rest does not start with the delimiter.
pub parse_quoted-IsQuoted : (d : ℕ) (s : Bytes) → IsQuoted d s (parse_quoted read_byte d s)
unfolding parse_quoted
parse_quoted-IsQuoted d s = quoted_loop-IsQuoted (suc (length s)) d s (omega arith)

-- A text that `quote` has quoted, behind its first quote, is read back whole and terminated, and
-- the parser stands behind it, unless another quote follows.
pub parse_quoted-quote :
    (s rest : Bytes)
    → starts_with single_quote rest ≡ false
    → (body : Bytes) × (quote s ≡ single_quote ∷ body)
      × (parse_quoted read_byte single_quote (body ++ rest)
          ≡ (record { content = s; terminated = true }, rest))
unfolding quote parse_quoted
parse_quoted-quote s rest h =
    let body = double_up s (single_quote ∷ []) in
    (
      body ++ (single_quote ∷ []),
      refl,
      ap (λ t. quoted_loop (suc (length t)) read_byte single_quote t)
            (append_assoc body (single_quote ∷ []) rest)
          ∙ quoted_loop-double_up (suc (length (body ++ (single_quote ∷ rest)))) single_quote s rest
              (omega (arith, length-append body (single_quote ∷ rest))) h,
    )
