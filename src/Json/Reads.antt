-- ===== src/Json/Reads.antt =====
-- Reading back the text of a number, a boolean and a string (src/json.cc), and which values can be
-- read back.
use kakoune.Prelude.{
  ℕ, zero, suc, ◌<◌, ◌≡◌, refl, sym, ap, ◌∙◌, Bool, true, false, ◌||◌, [], ◌∷◌, ◌++◌, append_assoc,
  ◌==◌, arith,
}
use kakoune.Prelude.Int.{ℤ}
use kakoune.Prelude.Bytes.{Bytes, codes, bytes_equal}
use kakoune.Strings.{to_string}
use kakoune.Strings.Numerals.{IsInt32}
use kakoune.Json.{
  Value, int, boolean, string, array, object, Items, no_items, item, Fields, no_fields, field,
  parsed, on_parsed, is_blank, is_digit, skip_blanks, string_loop, parse_at, parse_json_impl,
  items_loop, fields_loop,
}
use kakoune.Json.Print.{escaped, string_to_json, bool_to_json}
use kakoune.Json.Scan.{
  IsPrintable, Follows, to_string-IsNumeral, string_loop-escaped, at_string, at_boolean,
  parse_at-int,
}

unfoldable pub has_key : Bytes → Fields → Bool
has_key k no_fields = false
has_key k (field j v fs) = bytes_equal j k || has_key k fs

-- A value that the parser takes at a depth: not nested beyond its limit, numbers of 32 bits, no
-- control characters in strings, and no key twice in an object.
unfoldable mutual
  pub CanRead : ℕ → Value → Type 0
  CanRead depth (int i) = (depth < 100) × IsInt32 i
  CanRead depth (boolean b) = depth < 100
  CanRead depth (string s) = (depth < 100) × IsPrintable s
  CanRead depth (array xs) = (depth < 100) × ItemsCanRead (suc depth) xs
  CanRead depth (object fs) = (depth < 100) × FieldsCanRead (suc depth) fs

  pub ItemsCanRead : ℕ → Items → Type 0
  ItemsCanRead depth no_items = Unit
  ItemsCanRead depth (item v xs) = CanRead depth v × ItemsCanRead depth xs

  pub FieldsCanRead : ℕ → Fields → Type 0
  FieldsCanRead depth no_fields = Unit
  FieldsCanRead depth (field k v fs) =
      ((depth < 100) × IsPrintable k)
      × CanRead depth v
      × (has_key k fs ≡ false)
      × FieldsCanRead depth fs

-- A blank before a value is passed over.
pub value_blank :
    (fuel depth : ℕ) (s : Bytes)
    → parse_json_impl fuel depth (32 ∷ s) ≡ parse_json_impl fuel depth s
unfolding parse_json_impl skip_blanks is_blank
value_blank zero depth s = refl
value_blank (suc fuel) depth s = refl

pub items_blank :
    (fuel depth : ℕ) (s : Bytes) → items_loop fuel depth (32 ∷ s) ≡ items_loop fuel depth s
unfolding items_loop
items_blank zero depth s = refl
items_blank (suc fuel) depth s = rw (value_blank fuel (suc depth) s)

-- The parser stands at a byte that is no blank.
pub at_first :
    (fuel depth c : ℕ) (s : Bytes)
    → is_blank c ≡ false
    → parse_json_impl (suc fuel) depth (c ∷ s)
      ≡ parse_at (items_loop fuel depth) (fields_loop fuel depth no_fields) depth (c ∷ s)
unfolding parse_json_impl skip_blanks
at_first fuel depth c s h = rw h

-- A digit or a sign is no blank.
numeral_is_no_blank : (c : ℕ) → (is_digit c || c == 45) ≡ true → is_blank c ≡ false
unfolding is_digit is_blank
numeral_is_no_blank c h = ground arith

pub int_read :
    (fuel depth : ℕ) (i : ℤ) (rest : Bytes)
    → depth < 100
    → IsInt32 i
    → Follows rest
    → parse_json_impl (suc fuel) depth (to_string i ++ rest) ≡ parsed (int i) rest
int_read fuel depth i rest h k l =
    let t = to_string-IsNumeral i in
    ap (λ s. parse_json_impl (suc fuel) depth (s ++ rest)) t.is_cons
    ∙ at_first fuel depth t.first (t.others ++ rest) (numeral_is_no_blank t.first t.starts)
    ∙ ap
        (λ s. parse_at (items_loop fuel depth) (fields_loop fuel depth no_fields) depth (s ++ rest))
        (sym t.is_cons)
    ∙ parse_at-int (items_loop fuel depth) (fields_loop fuel depth no_fields) depth h i rest k l

pub boolean_read :
    (fuel depth : ℕ) (b : Bool) (c : ℕ) (s : Bytes)
    → depth < 100
    → parse_json_impl (suc fuel) depth (bool_to_json b ++ (c ∷ s)) ≡ parsed (boolean b) (c ∷ s)
boolean_read fuel depth true c s h =
    unfold bool_to_json is_blank in
    at_first fuel depth b't' (codes "rue" ++ (c ∷ s)) refl
    ∙ at_boolean (items_loop fuel depth) (fields_loop fuel depth no_fields) depth h true c s
boolean_read fuel depth false c s h =
    unfold bool_to_json is_blank in
    at_first fuel depth b'f' (codes "alse" ++ (c ∷ s)) refl
    ∙ at_boolean (items_loop fuel depth) (fields_loop fuel depth no_fields) depth h false c s

pub string_read :
    (fuel depth : ℕ) (s rest : Bytes)
    → depth < 100
    → IsPrintable s
    → parse_json_impl (suc fuel) depth (string_to_json s ++ rest) ≡ parsed (string s) rest
unfolding string_to_json is_blank
string_read fuel depth s rest h k =
    let text = append_assoc (escaped s) (34 ∷ []) rest in
    at_first fuel depth 34 ((escaped s ++ (34 ∷ [])) ++ rest) refl
    ∙ at_string (items_loop fuel depth) (fields_loop fuel depth no_fields) depth h
        ((escaped s ++ (34 ∷ [])) ++ rest)
    ∙ ap (λ t. on_parsed (string_loop false t) (λ value rest. parsed (string value) rest)) text
    ∙ ap (λ r. on_parsed r (λ value rest. parsed (string value) rest))
        (string_loop-escaped s rest k)
