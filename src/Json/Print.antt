-- ===== src/Json/Print.antt =====
-- Printing of values (src/json.hh, src/json.cc: to_json).
use kakoune.Prelude.{
  ℕ, ◌+◌, ◌/◌, ◌%◌, Bool, ◌||◌, List, [], ◌∷◌, ◌++◌, ltb, leb, ◌==◌, if◌then◌else◌,
}
use kakoune.Prelude.Bytes.{Bytes, codes}
use kakoune.Strings.{to_string, join}
use kakoune.Json.{
  Value, int, boolean, string, array, object, Items, no_items, item, Fields, no_fields, field,
}

unfoldable pub hex_digit : ℕ → ℕ
hex_digit n = if ltb n 10 then 48 + n else 87 + n

-- The bytes that to_json puts for a byte: `\\u{:04}` for a control character, a backslash before
-- a quote or a backslash.
unfoldable pub escaped_byte : ℕ → Bytes
escaped_byte c =
    if leb c 31
    then 92 ∷ 117 ∷ 48 ∷ 48 ∷ hex_digit (c / 16) ∷ hex_digit (c % 16) ∷ []
    else if c == 92 || c == 34
    then 92 ∷ c ∷ []
    else c ∷ []

unfoldable pub escaped : Bytes → Bytes
escaped [] = []
escaped (c ∷ s) = escaped_byte c ++ escaped s

unfoldable pub string_to_json : Bytes → Bytes
string_to_json s = 34 ∷ (escaped s ++ (34 ∷ []))

unfoldable pub bool_to_json : Bool → Bytes
bool_to_json b = if b then codes "true" else codes "false"

unfoldable mutual
  pub to_json : Value → Bytes
  to_json (int i) = to_string i
  to_json (boolean b) = bool_to_json b
  to_json (string s) = string_to_json s
  to_json (array xs) = 91 ∷ (join (items_to_json xs) (codes ", ") ++ (93 ∷ []))
  to_json (object fs) = 123 ∷ (join (fields_to_json fs) (codes ",") ++ (125 ∷ []))

  pub items_to_json : Items → List Bytes
  items_to_json no_items = []
  items_to_json (item v xs) = to_json v ∷ items_to_json xs

  pub fields_to_json : Fields → List Bytes
  fields_to_json no_fields = []
  fields_to_json (field k v fs) = (string_to_json k ++ (58 ∷ 32 ∷ to_json v)) ∷ fields_to_json fs
