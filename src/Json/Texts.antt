-- ===== src/Json/Texts.antt =====
-- The text that to_json (src/json.hh, src/json.cc) gives for an array and an object, taken apart into
-- the first element and what stands behind it.
use kakoune.Prelude.{
  ℕ, ◌≡◌, refl, ap, ◌∙◌, true, false, ◌||◌, [], ◌∷◌, ◌++◌, append_assoc, ◌==◌, arith, is_empty,
}
use kakoune.Prelude.Bytes.{Bytes, codes}
use kakoune.Strings.{join, join_loop}
use kakoune.Strings.Join.{joined, join_lem}
use kakoune.Json.{
  Value, int, boolean, string, array, object, Items, no_items, item, Fields, no_fields, field,
  is_blank, is_digit,
}
use kakoune.Json.Print.{
  escaped, string_to_json, bool_to_json, to_json, items_to_json, fields_to_json,
}
use kakoune.Json.Scan.{Follows, to_string-IsNumeral}

-- A text with a first byte that is no blank and no closing bracket.
pub record Starts (s : Bytes) : Type 0 where
  pub first : ℕ
  pub others : Bytes
  pub is_cons : s ≡ first ∷ others
  pub no_blank : is_blank first ≡ false
  pub no_bracket : ((first == 93) ≡ false) × ((first == 125) ≡ false)

pub Starts-append : (s t : Bytes) → Starts s → Starts (s ++ t)
Starts-append s t h = record {
  first = h.first;
  others = h.others ++ t;
  is_cons = ap (◌++ t) h.is_cons;
  no_blank = h.no_blank;
  no_bracket = h.no_bracket;
}

bracket :
    (c : ℕ) (s : Bytes)
    → is_blank c ≡ false
    → (c == 93) ≡ false
    → (c == 125) ≡ false
    → Starts (c ∷ s)
bracket c s h k l = record {
  first = c;
  others = s;
  is_cons = refl;
  no_blank = h;
  no_bracket = (k, l);
}

pub string-Starts : (s : Bytes) → Starts (string_to_json s)
unfolding string_to_json is_blank
string-Starts s = bracket 34 (escaped s ++ (34 ∷ [])) refl refl refl

numeral_no_bracket :
    (c : ℕ)
    → (is_digit c || c == 45) ≡ true
    → (is_blank c ≡ false) × ((c == 93) ≡ false) × ((c == 125) ≡ false)
unfolding is_digit is_blank
numeral_no_bracket c h = (ground arith, ground arith, ground arith)

pub to_json-Starts : (v : Value) → Starts (to_json v)
unfolding to_json is_blank bool_to_json
to_json-Starts (int i) =
    let t = to_string-IsNumeral i in
    let (a, b, c) = numeral_no_bracket t.first t.starts in
    record {
      first = t.first;
      others = t.others;
      is_cons = t.is_cons;
      no_blank = a;
      no_bracket = (b, c);
    }
to_json-Starts (boolean true) = bracket b't' (codes "rue") refl refl refl
to_json-Starts (boolean false) = bracket b'f' (codes "alse") refl refl refl
to_json-Starts (string s) = string-Starts s
to_json-Starts (array xs) = bracket 91 _ refl refl refl
to_json-Starts (object fs) = bracket 123 _ refl refl refl

Starts-ne-nil : (s : Bytes) → Starts s → is_empty s ≡ false
Starts-ne-nil s h = ap is_empty h.is_cons

-- The text of the elements of an array, and of the fields of an object, that are not none.
unfoldable pub items_text : Items → Bytes
items_text no_items = []
items_text (item v xs) = to_json v ++ joined (codes ", ") (items_to_json xs)

pub field_text : Bytes → Value → Bytes
field_text k v = string_to_json k ++ (58 ∷ 32 ∷ to_json v)

unfoldable pub fields_text : Fields → Bytes
fields_text no_fields = []
fields_text (field k v fs) = field_text k v ++ joined (codes ",") (fields_to_json fs)

pub join-items : (xs : Items) → join (items_to_json xs) (codes ", ") ≡ items_text xs
unfolding items_text to_json
join-items no_items = unfold join join_loop in refl
join-items (item v xs) =
    join_lem (codes ", ") (to_json v) (items_to_json xs)
      (Starts-ne-nil (to_json v) (to_json-Starts v))

pub join-fields : (fs : Fields) → join (fields_to_json fs) (codes ",") ≡ fields_text fs
unfolding fields_text field_text to_json
join-fields no_fields = unfold join join_loop in refl
join-fields (field k v fs) =
    join_lem (codes ",") (string_to_json k ++ (58 ∷ 32 ∷ to_json v)) (fields_to_json fs)
      (Starts-ne-nil _ (Starts-append (string_to_json k) (58 ∷ 32 ∷ to_json v) (string-Starts k)))

-- What stands behind the first element.
unfoldable pub items_tail : Items → Bytes → Bytes
items_tail no_items rest = 93 ∷ rest
items_tail (item v xs) rest = 44 ∷ 32 ∷ (items_text (item v xs) ++ (93 ∷ rest))

unfoldable pub fields_tail : Fields → Bytes → Bytes
fields_tail no_fields rest = 125 ∷ rest
fields_tail (field k v fs) rest = 44 ∷ (fields_text (field k v fs) ++ (125 ∷ rest))

pub items_text_split :
    (v : Value) (xs : Items) (rest : Bytes)
    → items_text (item v xs) ++ (93 ∷ rest) ≡ to_json v ++ items_tail xs rest
unfolding items_text items_tail to_json joined
items_text_split v no_items rest = append_assoc (to_json v) [] (93 ∷ rest)
items_text_split v (item w xs) rest =
    append_assoc (to_json v) (44 ∷ 32 ∷ (to_json w ++ joined (codes ", ") (items_to_json xs)))
      (93 ∷ rest)

pub fields_text_split :
    (k : Bytes) (v : Value) (fs : Fields) (rest : Bytes)
    → fields_text (field k v fs) ++ (125 ∷ rest)
      ≡ string_to_json k ++ (58 ∷ 32 ∷ (to_json v ++ fields_tail fs rest))
unfolding fields_text fields_tail field_text to_json joined
fields_text_split k v no_fields rest =
    append_assoc (string_to_json k ++ (58 ∷ 32 ∷ to_json v)) [] (125 ∷ rest)
    ∙ append_assoc (string_to_json k) (58 ∷ 32 ∷ to_json v) (125 ∷ rest)
fields_text_split k v (field j w fs) rest =
    append_assoc (string_to_json k ++ (58 ∷ 32 ∷ to_json v))
      (44 ∷ ((string_to_json j ++ (58 ∷ 32 ∷ to_json w)) ++ joined (codes ",") (fields_to_json fs)))
      (125 ∷ rest)
    ∙ append_assoc (string_to_json k) (58 ∷ 32 ∷ to_json v) _

pub items_tail-Follows : (xs : Items) (rest : Bytes) → Follows (items_tail xs rest)
unfolding items_tail is_digit
items_tail-Follows no_items rest = refl
items_tail-Follows (item v xs) rest = refl

pub fields_tail-Follows : (fs : Fields) (rest : Bytes) → Follows (fields_tail fs rest)
unfolding fields_tail is_digit
fields_tail-Follows no_fields rest = refl
fields_tail-Follows (field k v fs) rest = refl
