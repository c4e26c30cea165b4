-- ===== src/Json/Errors.antt =====
-- Texts that the parser of JSON (src/json.cc: parse_json_impl) refuses or reads otherwise than they
-- were printed.
use kakoune.Prelude.{
  ℕ, zero, suc, ◌+◌, ◌*◌, ◌/◌, ◌%◌, ◌≤◌, ◌<◌, ◌≡◌, ◌⊎◌, refl, ap, ◌∙◌, inl, inr, Bool, true, false,
  ◌||◌, [], ◌∷◌, ◌++◌, append_assoc, leb, ◌==◌, if◌then◌else◌, arith, Bool-cases, All, length,
}
use kakoune.Prelude.Bytes.{Bytes, codes, bytes_equal}
use kakoune.Strings.{prefix_match}
use kakoune.Json.{
  boolean, string, Items, Fields, no_fields, Parsed, parsed, threw, on_parsed, too_deep,
  unable_to_parse, with_byte, is_blank, is_digit, skip_blanks, string_loop, parse_array, is_word,
  parse_at, parse_json_impl, items_loop, fields_loop, parse_json,
}
use kakoune.Json.Print.{hex_digit, escaped_byte, escaped, string_to_json, to_json, bool_to_json}
use kakoune.Json.Scan.{at_string, at_array}
use kakoune.Json.Reads.{at_first}

-- What the parser makes of a string that to_json has printed: it drops the backslash of an escape
-- and keeps the rest, so that a control character becomes the five bytes "u00XX".
as_read : Bytes → Bytes
as_read [] = []
as_read (c ∷ s) =
    let rest = as_read s in
    if leb c 31 then 117 ∷ 48 ∷ 48 ∷ hex_digit (c / 16) ∷ hex_digit (c % 16) ∷ rest else c ∷ rest

plain_byte :
    (c : ℕ) (s : Bytes)
    → (c == 92) ≡ false
    → (c == 34) ≡ false
    → string_loop false (c ∷ s) ≡ with_byte c (string_loop false s)
unfolding string_loop
plain_byte c s h k = rw (h, k)

hex_is_plain : (n : ℕ) → n < 16 → ((hex_digit n == 92) ≡ false) × ((hex_digit n == 34) ≡ false)
unfolding hex_digit
hex_is_plain n h = (ground arith, ground arith)

pair_read :
    (c : ℕ) (s rest : Bytes)
    → string_loop false (escaped s ++ (34 ∷ rest)) ≡ parsed (as_read s) rest
    → string_loop false (92 ∷ c ∷ (escaped s ++ (34 ∷ rest))) ≡ parsed (c ∷ as_read s) rest
unfolding string_loop
pair_read c s rest ih = rw ih

escape_read :
    (c : ℕ) (s rest : Bytes)
    → c < 32
    → string_loop false (escaped s ++ (34 ∷ rest)) ≡ parsed (as_read s) rest
    → string_loop false
        (92 ∷ 117 ∷ 48 ∷ 48 ∷ hex_digit (c / 16) ∷ hex_digit (c % 16) ∷ (escaped s ++ (34 ∷ rest)))
      ≡ parsed (117 ∷ 48 ∷ 48 ∷ hex_digit (c / 16) ∷ hex_digit (c % 16) ∷ as_read s) rest
unfolding string_loop
escape_read c s rest h ih =
    let (a, b) = hex_is_plain (c / 16) (omega arith) in
    let (d, e) = hex_is_plain (c % 16) (omega arith) in rw (a, b, d, e, ih)

string_loop-as_read :
    (s rest : Bytes) → string_loop false (escaped s ++ (34 ∷ rest)) ≡ parsed (as_read s) rest
unfolding escaped escaped_byte as_read
string_loop-as_read [] rest = unfold string_loop in refl
string_loop-as_read (c ∷ s) rest =
    let ih = string_loop-as_read s rest in
    elim (Bool-cases (leb c 31)) [
      | inl q ↦ rw q (escape_read c s rest (ground arith) ih)
      | inr q ↦ elim (Bool-cases (c == 92 || c == 34)) [
        | inl p ↦ rw (q, p) (pair_read c s rest ih)
        | inr p ↦
            rw (q, p)
              (plain_byte c (escaped s ++ (34 ∷ rest)) (ground arith) (ground arith)
                ∙ ap (with_byte c) ih)
      ]
    ]

as_read-length : (s : Bytes) → length s ≤ length (as_read s)
unfolding as_read
as_read-length [] = omega arith
as_read-length (c ∷ s) = ground (arith, as_read-length s)

-- A string with a control character in it.
abbrev pub HasControl : Bytes → Type 0
HasControl [] = ⊥
HasControl (c ∷ s) = (c < 32) ⊎ HasControl s

as_read-longer : (s : Bytes) → HasControl s → length s < length (as_read s)
unfolding as_read
as_read-longer [] h = absurd h
as_read-longer (c ∷ s) (inl h) = ground (arith, as_read-length s)
as_read-longer (c ∷ s) (inr h) = ground (arith, as_read-longer s h)

parse_json-string :
    (s rest : Bytes) → parse_json (string_to_json s ++ rest) ≡ parsed (string (as_read s)) rest
unfolding parse_json string_to_json is_blank
parse_json-string s rest =
    let text : Bytes = 34 ∷ ((escaped s ++ (34 ∷ [])) ++ rest) in
    let fuel = 2 * length ((escaped s ++ (34 ∷ [])) ++ rest) + 2 in
    ap (λ n. parse_json_impl n 0 text) (omega arith)
    ∙ at_first fuel 0 34 ((escaped s ++ (34 ∷ [])) ++ rest) refl
    ∙ at_string (items_loop fuel 0) (fields_loop fuel 0 no_fields) 0 (omega arith)
        ((escaped s ++ (34 ∷ [])) ++ rest)
    ∙ ap (λ t. on_parsed (string_loop false t) (λ value rest. parsed (string value) rest))
        (append_assoc (escaped s) (34 ∷ []) rest)
    ∙ ap (λ r. on_parsed r (λ value rest. parsed (string value) rest)) (string_loop-as_read s rest)

-- A string with a control character in it does not come back from what to_json prints for it: the
-- parser has no escapes by number, and reads another, longer string, up to the closing quote.
pub control_character_is_lost :
    (s rest : Bytes)
    → HasControl s
    → (t : Bytes) × (parse_json (string_to_json s ++ rest) ≡ parsed (string t) rest)
      × (length s < length t)
control_character_is_lost s rest h = (as_read s, parse_json-string s rest, as_read-longer s h)

abbrev pub AreBlank : Bytes → Type 0
AreBlank s = All (λ c. is_blank c ≡ true) s

skip_blanks-AreBlank : (s t : Bytes) → AreBlank s → skip_blanks (s ++ t) ≡ skip_blanks t
unfolding skip_blanks
skip_blanks-AreBlank [] t h = refl
skip_blanks-AreBlank (c ∷ s) t h = rw (h.0) (skip_blanks-AreBlank s t h.1)

boolean_refused :
    (fuel : ℕ) (b : Bool) (s : Bytes)
    → AreBlank s
    → parse_json_impl (suc fuel) 0 (s ++ to_json (boolean b)) ≡ threw unable_to_parse
unfolding parse_json_impl parse_at to_json bool_to_json skip_blanks is_blank is_digit is_word
    prefix_match bytes_equal
boolean_refused fuel true s h = rw (skip_blanks-AreBlank s (codes "true") h) refl
boolean_refused fuel false s h = rw (skip_blanks-AreBlank s (codes "false") h) refl

-- A boolean at the very end of the text is refused, with blanks before it or without.
pub boolean_at_end :
    (b : Bool) (s : Bytes)
    → AreBlank s
    → parse_json (s ++ to_json (boolean b)) ≡ threw unable_to_parse
unfolding parse_json
boolean_at_end b s h =
    ap (λ n. parse_json_impl n 0 (s ++ to_json (boolean b))) (omega arith)
    ∙ boolean_refused (2 * length (s ++ to_json (boolean b))) b s h

-- Opening brackets, one within the other.
unfoldable pub brackets : ℕ → Bytes → Bytes
brackets zero s = s
brackets (suc n) s = 91 ∷ brackets n s

brackets-length : (n : ℕ) (s : Bytes) → n ≤ length (brackets n s)
unfolding brackets
brackets-length zero s = omega arith
brackets-length (suc n) s = omega (arith, brackets-length n s)

inner :
    (fuel depth : ℕ) (s : Bytes)
    → parse_json_impl fuel (suc depth) (91 ∷ s) ≡ threw too_deep
    → parse_array (items_loop (suc fuel) depth) (91 ∷ s) ≡ threw too_deep
unfolding parse_array items_loop
inner fuel depth s e = rw e

at_limit :
    (items : Bytes → Parsed Items) (fields : Bytes → Parsed Fields) (depth : ℕ) (s : Bytes)
    → depth ≡ 100
    → parse_at items fields depth (91 ∷ s) ≡ threw too_deep
unfolding parse_at
at_limit items fields depth s h = rw h

nested :
    (k depth fuel : ℕ) (s : Bytes)
    → depth + k ≡ 100
    → 2 * k < fuel
    → parse_json_impl fuel depth (brackets (suc k) s) ≡ threw too_deep
unfolding brackets is_blank
nested k depth zero s h l = absurd (omega arith)
nested zero depth (suc fuel) s h l =
    at_first fuel depth 91 s refl
    ∙ at_limit (items_loop fuel depth) (fields_loop fuel depth no_fields) depth s (omega arith)
nested (suc k) depth (suc zero) s h l = absurd (omega arith)
nested (suc k) depth (suc (suc fuel)) s h l =
    at_first (suc fuel) depth 91 (91 ∷ brackets k s) refl
    ∙ at_array (items_loop (suc fuel) depth) (fields_loop (suc fuel) depth no_fields) depth
        (omega arith) (91 ∷ brackets k s)
    ∙ inner fuel depth (brackets k s) (nested k (suc depth) fuel s (omega arith) (omega arith))

-- A text that opens a hundred and one arrays, one within the other, is refused for its depth,
-- whatever follows.
nested_too_deep : (s : Bytes) → parse_json (brackets 101 s) ≡ threw too_deep
unfolding parse_json
nested_too_deep s =
    nested 100 0 (2 * length (brackets 101 s) + 1) s (omega arith)
      (omega (arith, brackets-length 101 s))
