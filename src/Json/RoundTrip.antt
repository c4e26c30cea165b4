-- ===== src/Json/RoundTrip.antt =====
-- Printing a value and parsing it (src/json.cc, src/json.hh).
use kakoune.Prelude.{
  ℕ, zero, suc, ◌+◌, ◌*◌, ◌≤◌, ◌<◌, ◌≡◌, refl, sym, subst, ap, ◌∙◌, [], ◌∷◌, ◌++◌, arith, length,
  length-append,
}
use kakoune.Prelude.Bytes.{Bytes}
use kakoune.Json.{
  Value, int, boolean, string, array, object, Items, no_items, item, Fields, no_fields, field,
  parsed, parse_json_impl, items_loop, fields_loop, parse_json, insert_field,
}
use kakoune.Json.Print.{to_json, string_to_json}
use kakoune.Json.Scan.{Follows}
use kakoune.Json.Reads.{CanRead, ItemsCanRead, FieldsCanRead, int_read, boolean_read, string_read}
use kakoune.Json.Keys.{insert_all, NoKeyTwice, insert_all_lem}
use kakoune.Json.Texts.{
  Starts, Starts-append, items_text, fields_text, items_tail, fields_tail, items_text_split,
  fields_text_split, items_tail-Follows, fields_tail-Follows, to_json-Starts, string-Starts,
}
use kakoune.Json.Rounds.{
  array_read, object_read, array_length, object_length, empty_array, empty_object, item_round,
  last_item, later_item, field_round, last_field, later_field,
}

abbrev HasItem : Items → Type 0
HasItem no_items = ⊥
HasItem (item v xs) = Unit

abbrev HasField : Fields → Type 0
HasField no_fields = ⊥
HasField (field k v fs) = Unit

FieldsCanRead-NoKeyTwice : (depth : ℕ) (fs : Fields) → FieldsCanRead depth fs → NoKeyTwice fs
unfolding CanRead
FieldsCanRead-NoKeyTwice depth no_fields h = tt
FieldsCanRead-NoKeyTwice depth (field k v fs) h = (h.2, FieldsCanRead-NoKeyTwice depth fs h.3)

items_text-Starts :
    (v : Value) (xs : Items) (rest : Bytes) → Starts (items_text (item v xs) ++ (93 ∷ rest))
items_text-Starts v xs rest =
    subst Starts (sym (items_text_split v xs rest))
      (Starts-append (to_json v) (items_tail xs rest) (to_json-Starts v))

fields_text-Starts :
    (k : Bytes) (v : Value) (fs : Fields) (rest : Bytes)
    → Starts (fields_text (field k v fs) ++ (125 ∷ rest))
fields_text-Starts k v fs rest =
    subst Starts (sym (fields_text_split k v fs rest))
      (Starts-append (string_to_json k) _ (string-Starts k))

later_items_length :
    (v w : Value) (xs : Items) (rest : Bytes)
    → length (items_text (item v (item w xs)) ++ (93 ∷ rest))
      ≡ length (to_json v) + suc (suc (length (items_text (item w xs) ++ (93 ∷ rest))))
later_items_length v w xs rest =
    ap length (items_text_split v (item w xs) rest)
    ∙ length-append (to_json v) (items_tail (item w xs) rest)
    ∙ unfold items_tail in refl

value_in_items :
    (v : Value) (xs : Items) (rest : Bytes)
    → length (items_text (item v xs) ++ (93 ∷ rest)) ≡ length (to_json v ++ items_tail xs rest)
value_in_items v xs rest = ap length (items_text_split v xs rest)

-- The lengths of the parts of the text of the fields.
fields_length :
    (k : Bytes) (v : Value) (fs : Fields) (rest : Bytes)
    → (length (fields_text (field k v fs) ++ (125 ∷ rest))
        ≡ length (string_to_json k ++ (58 ∷ 32 ∷ (to_json v ++ fields_tail fs rest))))
      × (length (string_to_json k ++ (58 ∷ 32 ∷ (to_json v ++ fields_tail fs rest)))
          ≡ length (string_to_json k) + suc (suc (length (to_json v ++ fields_tail fs rest))))
      × (length (fields_tail fs rest) ≤ length (to_json v ++ fields_tail fs rest))
fields_length k v fs rest = (
  ap length (fields_text_split k v fs rest),
  length-append (string_to_json k) (58 ∷ 32 ∷ (to_json v ++ fields_tail fs rest)),
  omega (arith, length-append (to_json v) (fields_tail fs rest)),
)

fields_tail-length :
    (k : Bytes) (v : Value) (fs : Fields) (rest : Bytes)
    → length (fields_tail (field k v fs) rest)
      ≡ suc (length (fields_text (field k v fs) ++ (125 ∷ rest)))
unfolding fields_tail
fields_tail-length k v fs rest = refl

mutual
  unfolding CanRead to_json insert_all

  value_read :
      (v : Value) (fuel depth : ℕ) (rest : Bytes)
      → CanRead depth v
      → Follows rest
      → 2 * length (to_json v ++ rest) < fuel
      → parse_json_impl fuel depth (to_json v ++ rest) ≡ parsed v rest
  value_read v zero depth rest h k l = absurd (omega arith)
  value_read (int i) (suc fuel) depth rest h k l = int_read fuel depth i rest h.0 h.1 k
  value_read (boolean b) (suc fuel) depth [] h k l = absurd k
  value_read (boolean b) (suc fuel) depth (c ∷ rest) h k l = boolean_read fuel depth b c rest h
  value_read (string s) (suc fuel) depth rest h k l = string_read fuel depth s rest h.0 h.1
  value_read (array no_items) (suc fuel) depth rest h k l = empty_array fuel depth rest h.0
  value_read (array (item v xs)) (suc fuel) depth rest h k l =
      array_read fuel depth (item v xs) rest h.0
        (items_read (item v xs) fuel depth rest tt h.1
          (omega (arith, array_length (item v xs) rest)))
        (items_text-Starts v xs rest)
  value_read (object no_fields) (suc fuel) depth rest h k l = empty_object fuel depth rest h.0
  value_read (object (field key v fs)) (suc fuel) depth rest h k l =
      object_read fuel depth (field key v fs) rest h.0
        (fields_read (field key v fs) fuel depth no_fields rest tt h.1
            (omega (arith, object_length (field key v fs) rest))
          ∙ ap (λ gs. parsed gs rest)
              (insert_all_lem (field key v fs)
                (FieldsCanRead-NoKeyTwice (suc depth) (field key v fs) h.1)))
        (fields_text-Starts key v fs rest)

  items_read :
      (xs : Items) (fuel depth : ℕ) (rest : Bytes)
      → HasItem xs
      → ItemsCanRead (suc depth) xs
      → 2 * length (items_text xs ++ (93 ∷ rest)) + 1 < fuel
      → items_loop fuel depth (items_text xs ++ (93 ∷ rest)) ≡ parsed xs rest
  items_read xs zero depth rest n h l = absurd (omega arith)
  items_read no_items (suc fuel) depth rest n h l = absurd n
  items_read (item v no_items) (suc fuel) depth rest n h l =
      item_round fuel depth v no_items rest
        (value_read v fuel (suc depth) (items_tail no_items rest) h.0
          (items_tail-Follows no_items rest) (omega (arith, value_in_items v no_items rest)))
        (last_item (items_loop fuel depth) v rest)
  items_read (item v (item w xs)) (suc fuel) depth rest n h l =
      item_round fuel depth v (item w xs) rest
        (value_read v fuel (suc depth) (items_tail (item w xs) rest) h.0
          (items_tail-Follows (item w xs) rest) (omega (arith, value_in_items v (item w xs) rest)))
        (later_item fuel depth v w xs rest (
          items_read (item w xs) fuel depth rest tt h.1
            (omega (arith, later_items_length v w xs rest))))

  fields_read :
      (fs : Fields) (fuel depth : ℕ) (acc : Fields) (rest : Bytes)
      → HasField fs
      → FieldsCanRead (suc depth) fs
      → 2 * length (fields_text fs ++ (125 ∷ rest)) + 1 < fuel
      → fields_loop fuel depth acc (fields_text fs ++ (125 ∷ rest))
        ≡ parsed (insert_all acc fs) rest
  fields_read fs zero depth acc rest n h l = absurd (omega arith)
  fields_read fs (suc zero) depth acc rest n h l = absurd (omega arith)
  fields_read no_fields (suc (suc fuel)) depth acc rest n h l = absurd n
  fields_read (field k v no_fields) (suc (suc fuel)) depth acc rest n h l =
      field_round (suc fuel) depth acc k v no_fields (insert_field k v acc) rest
        (string_read fuel (suc depth) k (58 ∷ 32 ∷ (to_json v ++ fields_tail no_fields rest)) h.0.0
          h.0.1)
        (value_read v (suc fuel) (suc depth) (fields_tail no_fields rest) h.1
          (fields_tail-Follows no_fields rest) (omega (arith, fields_length k v no_fields rest)))
        (last_field (fields_loop (suc fuel) depth (insert_field k v acc)) (insert_field k v acc)
          rest)
  fields_read (field k v (field j w fs)) (suc (suc fuel)) depth acc rest n h l =
      field_round (suc fuel) depth acc k v (field j w fs)
        (insert_all (insert_field k v acc) (field j w fs)) rest
        (string_read fuel (suc depth) k (58 ∷ 32 ∷ (to_json v ++ fields_tail (field j w fs) rest))
          h.0.0 h.0.1)
        (value_read v (suc fuel) (suc depth) (fields_tail (field j w fs) rest) h.1
          (fields_tail-Follows (field j w fs) rest)
          (omega (arith, fields_length k v (field j w fs) rest)))
        (later_field (fields_loop (suc fuel) depth (insert_field k v acc)) (insert_field k v acc) j
            w fs rest
          ∙ fields_read (field j w fs) (suc fuel) depth (insert_field k v acc) rest tt h.3 (
              omega (arith, fields_length k v (field j w fs) rest, fields_tail-length j w fs rest)))

-- Parsing what to_json prints gives the value back, and stands right behind it, for a value that
-- the parser can take (not nested beyond its limit, numbers of 32 bits, no control characters in
-- strings, no key twice) and with a byte that is no digit behind it.
pub parse_json-to_json :
    (v : Value) (rest : Bytes)
    → CanRead 0 v
    → Follows rest
    → parse_json (to_json v ++ rest) ≡ parsed v rest
unfolding parse_json
parse_json-to_json v rest h k =
    value_read v (2 * length (to_json v ++ rest) + 1) 0 rest h k (omega arith)
