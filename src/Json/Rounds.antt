-- ===== src/Json/Rounds.antt =====
-- One round of the parser's loops (src/json.cc: parse_json_impl) on the text of an array and an
-- object.
use kakoune.Prelude.{ℕ, suc, ◌<◌, ◌≡◌, refl, ap, ◌∙◌, [], ◌∷◌, ◌++◌, append_assoc, length}
use kakoune.Prelude.Bytes.{Bytes, codes}
use kakoune.Strings.{join, join_loop}
use kakoune.Json.{
  Value, string, array, object, Items, no_items, item, Fields, no_fields, field, Parsed, parsed,
  is_blank, skip_blanks, parse_array, parse_object, next_item, next_field, insert_field,
  parse_field, parse_json_impl, items_loop, fields_loop,
}
use kakoune.Json.Print.{string_to_json, to_json, items_to_json, fields_to_json}
use kakoune.Json.Scan.{at_array, at_object}
use kakoune.Json.Reads.{value_blank, items_blank, at_first}
use kakoune.Json.Texts.{
  Starts, items_text, fields_text, items_tail, fields_tail, join-items, join-fields,
  items_text_split, fields_text_split,
}

-- The array and the object, given that their elements are read back.
pub array_read :
    (fuel depth : ℕ) (xs : Items) (rest : Bytes)
    → depth < 100
    → items_loop fuel depth (items_text xs ++ (93 ∷ rest)) ≡ parsed xs rest
    → Starts (items_text xs ++ (93 ∷ rest))
    → parse_json_impl (suc fuel) depth (to_json (array xs) ++ rest) ≡ parsed (array xs) rest
unfolding to_json is_blank parse_array
array_read fuel depth xs rest h e st =
    at_first fuel depth 91 ((join (items_to_json xs) (codes ", ") ++ (93 ∷ [])) ++ rest) refl
    ∙ at_array (items_loop fuel depth) (fields_loop fuel depth no_fields) depth h
        ((join (items_to_json xs) (codes ", ") ++ (93 ∷ [])) ++ rest)
    ∙ ap (λ t. parse_array (items_loop fuel depth) ((t ++ (93 ∷ [])) ++ rest)) (join-items xs)
    ∙ ap (parse_array (items_loop fuel depth)) (append_assoc (items_text xs) (93 ∷ []) rest)
    ∙ (rw (st.is_cons, st.no_bracket.0, ← st.is_cons, e) refl)

pub object_read :
    (fuel depth : ℕ) (fs : Fields) (rest : Bytes)
    → depth < 100
    → fields_loop fuel depth no_fields (fields_text fs ++ (125 ∷ rest)) ≡ parsed fs rest
    → Starts (fields_text fs ++ (125 ∷ rest))
    → parse_json_impl (suc fuel) depth (to_json (object fs) ++ rest) ≡ parsed (object fs) rest
unfolding to_json is_blank parse_object
object_read fuel depth fs rest h e st =
    at_first fuel depth 123 ((join (fields_to_json fs) (codes ",") ++ (125 ∷ [])) ++ rest) refl
    ∙ at_object (items_loop fuel depth) (fields_loop fuel depth no_fields) depth h
        ((join (fields_to_json fs) (codes ",") ++ (125 ∷ [])) ++ rest)
    ∙ ap (λ t. parse_object (fields_loop fuel depth no_fields) ((t ++ (125 ∷ [])) ++ rest))
        (join-fields fs)
    ∙ ap (parse_object (fields_loop fuel depth no_fields))
        (append_assoc (fields_text fs) (125 ∷ []) rest)
    ∙ (rw (st.is_cons, st.no_bracket.1, ← st.is_cons, e) refl)

pub array_length :
    (xs : Items) (rest : Bytes)
    → length (to_json (array xs) ++ rest) ≡ suc (length (items_text xs ++ (93 ∷ rest)))
unfolding to_json
array_length xs rest =
    ap (λ t. suc (length ((t ++ (93 ∷ [])) ++ rest))) (join-items xs)
    ∙ ap (λ t. suc (length t)) (append_assoc (items_text xs) (93 ∷ []) rest)

pub object_length :
    (fs : Fields) (rest : Bytes)
    → length (to_json (object fs) ++ rest) ≡ suc (length (fields_text fs ++ (125 ∷ rest)))
unfolding to_json
object_length fs rest =
    ap (λ t. suc (length ((t ++ (125 ∷ [])) ++ rest))) (join-fields fs)
    ∙ ap (λ t. suc (length t)) (append_assoc (fields_text fs) (125 ∷ []) rest)

pub empty_array :
    (fuel depth : ℕ) (rest : Bytes)
    → depth < 100
    → parse_json_impl (suc fuel) depth (to_json (array no_items) ++ rest)
      ≡ parsed (array no_items) rest
unfolding to_json is_blank parse_array join join_loop
empty_array fuel depth rest h =
    at_first fuel depth 91 (93 ∷ rest) refl
    ∙ at_array (items_loop fuel depth) (fields_loop fuel depth no_fields) depth h (93 ∷ rest)

pub empty_object :
    (fuel depth : ℕ) (rest : Bytes)
    → depth < 100
    → parse_json_impl (suc fuel) depth (to_json (object no_fields) ++ rest)
      ≡ parsed (object no_fields) rest
unfolding to_json is_blank parse_object join join_loop
empty_object fuel depth rest h =
    at_first fuel depth 123 (125 ∷ rest) refl
    ∙ at_object (items_loop fuel depth) (fields_loop fuel depth no_fields) depth h (125 ∷ rest)

-- One round on an element, given what the parser does on it and on the elements behind it.
pub item_round :
    (fuel depth : ℕ) (v : Value) (xs : Items) (rest : Bytes)
    → parse_json_impl fuel (suc depth) (to_json v ++ items_tail xs rest)
      ≡ parsed v (items_tail xs rest)
    → next_item v (items_loop fuel depth) (skip_blanks (items_tail xs rest))
      ≡ parsed (item v xs) rest
    → items_loop (suc fuel) depth (items_text (item v xs) ++ (93 ∷ rest)) ≡ parsed (item v xs) rest
unfolding items_loop
item_round fuel depth v xs rest e n = rw (items_text_split v xs rest, e) n

pub last_item :
    (loop : Bytes → Parsed Items) (v : Value) (rest : Bytes)
    → next_item v loop (skip_blanks (items_tail no_items rest)) ≡ parsed (item v no_items) rest
unfolding next_item items_tail skip_blanks is_blank
last_item loop v rest = refl

pub later_item :
    (fuel depth : ℕ) (v w : Value) (xs : Items) (rest : Bytes)
    → items_loop fuel depth (items_text (item w xs) ++ (93 ∷ rest)) ≡ parsed (item w xs) rest
    → next_item v (items_loop fuel depth) (skip_blanks (items_tail (item w xs) rest))
      ≡ parsed (item v (item w xs)) rest
unfolding next_item items_tail skip_blanks is_blank
later_item fuel depth v w xs rest e =
    rw (items_blank fuel depth (items_text (item w xs) ++ (93 ∷ rest)), e)

-- One round on a field, likewise.
pub field_round :
    (fuel depth : ℕ) (acc : Fields) (k : Bytes) (v : Value) (fs gs : Fields) (rest : Bytes)
    → parse_json_impl fuel
        (suc depth)
        (string_to_json k ++ (58 ∷ 32 ∷ (to_json v ++ fields_tail fs rest)))
      ≡ parsed (string k) (58 ∷ 32 ∷ (to_json v ++ fields_tail fs rest))
    → parse_json_impl fuel (suc depth) (to_json v ++ fields_tail fs rest)
      ≡ parsed v (fields_tail fs rest)
    → next_field
        (insert_field k v acc)
        (fields_loop fuel depth (insert_field k v acc))
        (skip_blanks (fields_tail fs rest))
      ≡ parsed gs rest
    → fields_loop (suc fuel) depth acc (fields_text (field k v fs) ++ (125 ∷ rest)) ≡ parsed gs rest
unfolding fields_loop parse_field skip_blanks is_blank
field_round fuel depth acc k v fs gs rest e e' n =
    rw
      (
        fields_text_split k v fs rest,
        e,
        value_blank fuel (suc depth) (to_json v ++ fields_tail fs rest),
        e',
      )
      n

pub last_field :
    (loop : Bytes → Parsed Fields) (acc : Fields) (rest : Bytes)
    → next_field acc loop (skip_blanks (fields_tail no_fields rest)) ≡ parsed acc rest
unfolding next_field fields_tail skip_blanks is_blank
last_field loop acc rest = refl

pub later_field :
    (loop : Bytes → Parsed Fields) (acc : Fields) (k : Bytes) (v : Value) (fs : Fields)
    (rest : Bytes)
    → next_field acc loop (skip_blanks (fields_tail (field k v fs) rest))
      ≡ loop (fields_text (field k v fs) ++ (125 ∷ rest))
unfolding next_field fields_tail skip_blanks is_blank
later_field loop acc k v fs rest = refl
