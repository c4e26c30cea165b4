-- ===== src/Json.antt =====
-- JSON (src/json.hh, src/json.cc). A value that the parser can build is a tree; the printer is the
-- overloads of to_json put together on that tree.
pub mod Print
pub mod Scan
pub mod Reads
pub mod Keys
pub mod Texts
pub mod Rounds
pub mod RoundTrip
pub mod Fuel
pub mod Ends
pub mod Errors
use kakoune.Prelude.{
  ℕ, zero, suc, ◌+◌, ◌-◌, ◌*◌, ◌/◌, ◌%◌, Bool, true, false, ◌&&◌, ◌||◌, List, [], ◌∷◌, ◌++◌, Option,
  none, some, ltb, leb, ◌==◌, if◌then◌else◌, length, is_empty, drop,
}
use kakoune.Prelude.Int.{ℤ}
use kakoune.Prelude.Bytes.{Bytes, codes, bytes_equal}
use kakoune.Strings.{str_to_int_ifp, prefix_match}

mutual
  pub data Value : Type 0 where
    int : ℤ → Value
    boolean : Bool → Value
    string : Bytes → Value
    array : Items → Value
    object : Fields → Value

  pub data Items : Type 0 where
    no_items : Items
    item : Value → Items → Items

  pub data Fields : Type 0 where
    no_fields : Fields
    field : Bytes → Value → Fields → Fields

pub data JsonError : Type 0 where
  too_deep : JsonError
  not_a_number : JsonError
  unable_to_parse : JsonError
  unfinished_array : JsonError
  bad_array : JsonError
  unfinished_object : JsonError
  bad_object : JsonError
  expected_colon : JsonError
  bad_value_cast : JsonError

-- JsonResult: a value and the position behind it, or no value; or an exception. `exhausted` is
-- none of these: the fuel of the model ran out.
pub data Parsed (A : Type 0) : Type 0 where
  nothing : Parsed A
  parsed : A → Bytes → Parsed A
  threw : JsonError → Parsed A
  exhausted : Parsed A

abbrev pub on_parsed : {A B : Type 0} → Parsed A → (A → Bytes → Parsed B) → Parsed B
on_parsed nothing f = nothing
on_parsed (parsed a s) f = f a s
on_parsed (threw e) f = threw e
on_parsed exhausted f = exhausted

-- is_blank on one byte: the blanks beyond ASCII are no single bytes.
unfoldable pub is_blank : ℕ → Bool
is_blank c = c == 10 || (c == 13 || (c == 11 || (c == 9 || (c == 12 || c == 32))))

unfoldable pub is_digit : ℕ → Bool
is_digit c = leb 48 c && leb c 57

-- skip_while on blanks.
unfoldable pub skip_blanks : Bytes → Bytes
skip_blanks [] = []
skip_blanks (c ∷ s) = let rest = skip_blanks s in if is_blank c then rest else c ∷ s

-- The digits at the beginning of a text, and what follows them.
unfoldable pub span_digits : Bytes → Bytes × Bytes
span_digits [] = ([], [])
span_digits (c ∷ s) =
    let rest = span_digits s in if is_digit c then (c ∷ rest.0, rest.1) else ([], c ∷ s)

-- The branch on numbers; `c` is the digit or the sign.
unfoldable pub parse_number : ℕ → Bytes → Parsed Value
parse_number c s =
    let (digits, rest) = span_digits s in
    elim (str_to_int_ifp (c ∷ digits)) [ none ↦ threw not_a_number | some i ↦ parsed (int i) rest ]

abbrev pub with_byte : ℕ → Parsed Bytes → Parsed Bytes
with_byte c nothing = nothing
with_byte c (parsed s rest) = parsed (c ∷ s) rest
with_byte c (threw e) = threw e
with_byte c exhausted = exhausted

-- The loop on the bytes of a string, with its flag.
unfoldable pub string_loop : Bool → Bytes → Parsed Bytes
string_loop escaped [] = nothing
string_loop true (c ∷ s) = with_byte c (string_loop false s)
string_loop false (c ∷ s) =
    let escape = string_loop true s in
    let plain = with_byte c (string_loop false s) in
    if c == 92 then escape else if c == 34 then parsed [] s else plain

-- What follows an opening bracket; `loop` parses the elements.
unfoldable pub parse_array : (Bytes → Parsed Items) → Bytes → Parsed Value
parse_array loop [] = threw unfinished_array
parse_array loop (c ∷ s) =
    if c == 93
    then parsed (array no_items) s
    else on_parsed (loop (c ∷ s)) (λ items rest. parsed (array items) rest)

unfoldable pub parse_object : (Bytes → Parsed Fields) → Bytes → Parsed Value
parse_object loop [] = threw unfinished_object
parse_object loop (c ∷ s) =
    if c == 125
    then parsed (object no_fields) s
    else on_parsed (loop (c ∷ s)) (λ fields rest. parsed (object fields) rest)

-- `end - pos > n and StringView{pos, pos+n} == word`
unfoldable pub is_word : Bytes → Bytes → Bool
is_word word s = ltb (length word) (length s) && prefix_match s word

abbrev pub max_parsing_depth : ℕ
max_parsing_depth = 100

-- parse_json_impl behind the blanks.
unfoldable pub parse_at :
    (Bytes → Parsed Items) → (Bytes → Parsed Fields) → ℕ → Bytes → Parsed Value
parse_at items fields depth [] = nothing
parse_at items fields depth (c ∷ s) =
    if leb max_parsing_depth depth
    then threw too_deep
    else if is_digit c || c == 45
    then parse_number c s
    else if is_word (codes "true") (c ∷ s)
    then parsed (boolean true) (drop 3 s)
    else if is_word (codes "false") (c ∷ s)
    then parsed (boolean false) (drop 4 s)
    else if c == 34
    then on_parsed (string_loop false s) (λ value rest. parsed (string value) rest)
    else if c == 91
    then parse_array items s
    else if c == 123
    then parse_object fields s
    else threw unable_to_parse

-- The end of a round of the loop on an array, at what stands behind an element.
unfoldable pub next_item : Value → (Bytes → Parsed Items) → Bytes → Parsed Items
next_item v loop [] = nothing
next_item v loop (c ∷ s) =
    if c == 44
    then on_parsed (loop s) (λ items rest. parsed (item v items) rest)
    else if c == 93
    then parsed (item v no_items) s
    else threw bad_array

unfoldable pub next_field : Fields → (Bytes → Parsed Fields) → Bytes → Parsed Fields
next_field acc loop [] = nothing
next_field acc loop (c ∷ s) =
    if c == 44 then loop s else if c == 125 then parsed acc s else threw bad_object

-- HashMap::insert: a key that is there keeps its place.
unfoldable pub insert_field : Bytes → Value → Fields → Fields
insert_field k v no_fields = field k v no_fields
insert_field k v (field j w fields) =
    if bytes_equal j k then field k v fields else field j w (insert_field k v fields)

-- The rest of a round on an object, behind the name; `value` parses the element.
unfoldable pub parse_field :
    (Bytes → Parsed Value)
    → (Fields → Bytes → Parsed Fields)
    → Fields
    → Value
    → Bytes
    → Parsed Fields
parse_field value loop acc (string k) s = elim (skip_blanks s) [
  | [] ↦ nothing
  | c ∷ t ↦
      if c == 58
      then on_parsed (value t) (λ v rest.
        next_field (insert_field k v acc) (loop (insert_field k v acc)) (skip_blanks rest))
      else threw expected_colon
]
parse_field value loop acc (int i) s = threw bad_value_cast
parse_field value loop acc (boolean b) s = threw bad_value_cast
parse_field value loop acc (array xs) s = threw bad_value_cast
parse_field value loop acc (object fs) s = threw bad_value_cast

unfoldable mutual
  pub parse_json_impl : ℕ → ℕ → Bytes → Parsed Value
  parse_json_impl zero depth s = exhausted
  parse_json_impl (suc fuel) depth s =
      parse_at (items_loop fuel depth) (fields_loop fuel depth no_fields) depth (skip_blanks s)

  pub items_loop : ℕ → ℕ → Bytes → Parsed Items
  items_loop zero depth s = exhausted
  items_loop (suc fuel) depth s =
      on_parsed (parse_json_impl fuel (suc depth) s)
        (λ v rest. next_item v (items_loop fuel depth) (skip_blanks rest))

  pub fields_loop : ℕ → ℕ → Fields → Bytes → Parsed Fields
  fields_loop zero depth acc s = exhausted
  fields_loop (suc fuel) depth acc s = on_parsed (parse_json_impl fuel (suc depth) s) (λ name rest.
      parse_field (parse_json_impl fuel (suc depth)) (fields_loop fuel depth) acc name rest)

-- Two rounds for each byte are enough.
unfoldable pub parse_json : Bytes → Parsed Value
parse_json s = parse_json_impl (2 * length s + 1) 0 s
