-- ===== src/Strings.antt =====
-- Functions on strings (src/string_utils.hh, src/string_utils.cc) and the decimal numerals of
-- src/format.cc. A string is the list of its bytes; the loops that append whole slices between two
-- finds go byte by byte here.
pub mod Escape
pub mod Match
pub mod Numerals
pub mod Quote
pub mod Join
use kakoune.Prelude.{
  ℕ, zero, suc, ◌+◌, ◌-◌, ◌*◌, ◌/◌, ◌%◌, Bool, true, false, not, ◌&&◌, ◌||◌, List, [], ◌∷◌, ◌++◌,
  Option, none, some, ltb, leb, ◌==◌, if◌then◌else◌, length, is_empty, take, drop,
}
use kakoune.Prelude.Int.{ℤ, pos, negsuc}
use kakoune.Prelude.Bytes.{Bytes, codes, bytes_equal, contains}
use kakoune.Lines.{newline}

-- Escaping -----------------------------------------------------------------------------------

unfoldable pub escape : Bytes → Bytes → ℕ → Bytes
escape [] characters e = []
escape (c ∷ s) characters e =
    let rest = escape s characters e in if contains characters c then e ∷ c ∷ rest else c ∷ rest

unfoldable pub unescape : Bytes → Bytes → ℕ → Bytes
unescape [] characters e = []
unescape (c ∷ []) characters e = c ∷ []
unescape (c ∷ d ∷ s) characters e = elim (c == e && contains characters d) [
  | true ↦ d ∷ unescape s characters e
  | false ↦ c ∷ unescape (d ∷ s) characters e
]

unfoldable pub double_up : Bytes → Bytes → Bytes
double_up [] characters = []
double_up (c ∷ s) characters =
    let rest = double_up s characters in if contains characters c then c ∷ c ∷ rest else c ∷ rest

-- The loop of `indent`, with its flag was_eol.
unfoldable pub indent_loop : Bool → Bytes → Bytes → Bytes
indent_loop was_eol [] prefix = []
indent_loop was_eol (c ∷ s) prefix =
    let rest = c ∷ indent_loop (c == newline) s prefix in if was_eol then prefix ++ rest else rest

unfoldable pub indent : Bytes → Bytes → Bytes
indent s prefix = indent_loop true s prefix

unfoldable pub prefix_match : Bytes → Bytes → Bool
prefix_match s prefix = bytes_equal (take (length prefix) s) prefix

-- The loop of `replace` (std::search finds the first match). An empty `substr` would match at
-- once and for ever, so the loop has fuel, and `none` is its running out.
unfoldable pub replace_loop : ℕ → Bytes → Bytes → Bytes → Option Bytes
replace_loop zero s substr replacement = none
replace_loop (suc fuel) [] substr replacement = some []
replace_loop (suc fuel) (c ∷ s) substr replacement = elim (prefix_match (c ∷ s) substr) [
  | true ↦ elim (replace_loop fuel (drop (length substr) (c ∷ s)) substr replacement) [
    | none ↦ none
    | some r ↦ some (replacement ++ r)
  ]
  | false ↦ elim (replace_loop fuel s substr replacement) [ none ↦ none | some r ↦ some (c ∷ r) ]
]

unfoldable pub replace : ℕ → Bytes → Bytes → Bytes → Option Bytes
replace fuel s substr replacement = replace_loop fuel s substr replacement

-- join with a string between the parts.
unfoldable pub join_loop : Bytes → Bytes → List Bytes → Bytes
join_loop joiner res [] = res
join_loop joiner res (s ∷ ss) =
    join_loop joiner ((if is_empty res then res else res ++ joiner) ++ s) ss

unfoldable pub join : List Bytes → Bytes → Bytes
join ss joiner = join_loop joiner [] ss

-- Quoting --------------------------------------------------------------------------------------

abbrev pub single_quote : ℕ
single_quote = 39

abbrev pub backslash : ℕ
backslash = 92

unfoldable pub quote : Bytes → Bytes
quote s = single_quote ∷ (double_up s (single_quote ∷ []) ++ (single_quote ∷ []))

-- R"('\'')"
abbrev pub quoted_quote : Bytes
quoted_quote = single_quote ∷ backslash ∷ single_quote ∷ single_quote ∷ []

unfoldable pub shell_quote : Bytes → Option Bytes
shell_quote s = elim (replace (length s + 1) s (single_quote ∷ []) quoted_quote) [
  | none ↦ none
  | some r ↦ some (single_quote ∷ (r ++ (single_quote ∷ [])))
]

-- Matching -------------------------------------------------------------------------------------

-- The inner `while` of subsequence_match with the `++it` after it: what follows the first `c`.
unfoldable pub after_first : ℕ → Bytes → Option Bytes
after_first c [] = none
after_first c (d ∷ s) = let rest = after_first c s in if d == c then some s else rest

unfoldable pub subsequence_match : Bytes → Bytes → Bool
subsequence_match s [] = true
subsequence_match s (c ∷ subseq) = elim (after_first c s) [
  | none ↦ false
  | some rest ↦ subsequence_match rest subseq
]

-- Numbers --------------------------------------------------------------------------------------

-- An `int` from the bits of an `unsigned int`.
unfoldable pub to_int : ℕ → ℤ
to_int n = if ltb n 2147483648 then pos n else negsuc (4294967295 - n)

-- The loop on the digits; `res` is unsigned and wraps.
unfoldable pub digits_loop : Bytes → ℕ → Option ℕ
digits_loop [] res = some res
digits_loop (c ∷ s) res =
    let rest = digits_loop s ((res * 10 + (c - 48)) % 4294967296) in
    if ltb c 48 || ltb 57 c then none else rest

-- `-res` on the unsigned number.
abbrev pub negated : ℕ → ℕ
negated res = (4294967296 - res) % 4294967296

unfoldable pub unsigned_digits : Bool → Bytes → Option ℤ
unsigned_digits negative [] = none
unsigned_digits negative (c ∷ s) = elim (digits_loop (c ∷ s) 0) [
  | none ↦ none
  | some res ↦ some (to_int (if negative then negated res else res))
]

unfoldable pub str_to_int_ifp : Bytes → Option ℤ
str_to_int_ifp [] = none
str_to_int_ifp (c ∷ s) = if c == 45 then unsigned_digits true s else unsigned_digits false (c ∷ s)

-- The decimal digits of a number, which std::to_chars writes.
unfoldable pub decimal : ℕ → ℕ → Bytes
decimal zero n = []
decimal (suc fuel) n = elim (ltb n 10) [
  | true ↦ (48 + n) ∷ []
  | false ↦ decimal fuel (n / 10) ++ ((48 + n % 10) ∷ [])
]

unfoldable pub to_string : ℤ → Bytes
to_string (pos n) = decimal (suc n) n
to_string (negsuc n) = 45 ∷ decimal (suc (suc n)) (suc n)
