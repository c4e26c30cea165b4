-- ===== src/Tests/JsonTexts.antt =====
-- Runs of the parser and the printer of JSON (the cases of test_json_parser and test_to_json in
-- src/json.cc among them), and the theorems applied to them.
use kakoune.Prelude.{ℕ, ◌<◌, ◌≡◌, refl, inl, true, false, [], ◌∷◌, ◌++◌, arith, length}
use kakoune.Prelude.Int.{pos}
use kakoune.Prelude.Bytes.{Bytes, codes}
use kakoune.Json.{
  Value, int, boolean, string, array, object, no_items, item, no_fields, field, parsed, parse_json,
  is_digit,
}
use kakoune.Json.Print.{to_json, string_to_json}
use kakoune.Json.Reads.{CanRead, has_key}
use kakoune.Json.RoundTrip.{parse_json-to_json}
use kakoune.Json.Fuel.{EndsBelow}
use kakoune.Json.Ends.{parse_json-EndsBelow}
use kakoune.Json.Errors.{control_character_is_lost}

-- {"a": [1, true]}
abbrev sample : Value
sample =
    object (field (codes "a") (array (item (int (pos 1)) (item (boolean true) no_items))) no_fields)

sample-CanRead : CanRead 0 sample
unfolding CanRead has_key
sample-CanRead = (
  omega arith,
  (
    (omega arith, (omega arith, tt)),
    (omega arith, ((omega arith, omega arith), (omega arith, tt))),
    refl,
    tt,
  ),
)

semicolon : is_digit 59 ≡ false
unfolding is_digit
semicolon = refl

parse_json-to_json_example : parse_json (to_json sample ++ codes ";") ≡ parsed sample (codes ";")
parse_json-to_json_example = parse_json-to_json sample (codes ";") sample-CanRead semicolon

parse_json-EndsBelow_example : EndsBelow (length (codes "[1, 2")) (parse_json (codes "[1, 2"))
parse_json-EndsBelow_example = parse_json-EndsBelow (codes "[1, 2")

control_character_is_lost_example :
    (t : Bytes) × (parse_json (string_to_json (27 ∷ []) ++ codes ",")
      ≡ parsed (string t) (codes ","))
    × (length {A = ℕ} (27 ∷ []) < length t)
control_character_is_lost_example =
    control_character_is_lost (27 ∷ []) (codes ",") (inl (omega arith))
