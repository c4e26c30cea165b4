-- ===== src/Json/Keys.antt =====
-- The fields of an object with no key twice, inserted one by one (src/json.cc: parse_json_impl;
-- src/hash_map.hh: HashMap::insert).
use kakoune.Prelude.{◌≡◌, refl, sym, ap, ◌∙◌, inl, inr, true, false, ◌||◌, arith, Bool-cases}
use kakoune.Prelude.Bytes.{Bytes, bytes_equal, bytes_equal_lem, bytes_equal_refl}
use kakoune.Json.{Value, Fields, no_fields, field, insert_field}
use kakoune.Json.Reads.{has_key}

unfoldable pub insert_all : Fields → Fields → Fields
insert_all acc no_fields = acc
insert_all acc (field k v fs) = insert_all (insert_field k v acc) fs

abbrev pub NoKeyTwice : Fields → Type 0
NoKeyTwice no_fields = Unit
NoKeyTwice (field k v fs) = (has_key k fs ≡ false) × NoKeyTwice fs

append : Fields → Fields → Fields
append no_fields gs = gs
append (field k v fs) gs = field k v (append fs gs)

-- No key of the second is among the first.
abbrev AreNew : Fields → Fields → Type 0
AreNew acc no_fields = Unit
AreNew acc (field k v fs) = (has_key k acc ≡ false) × AreNew acc fs

insert_field-new :
    (k : Bytes) (v : Value) (acc : Fields)
    → has_key k acc ≡ false
    → insert_field k v acc ≡ append acc (field k v no_fields)
unfolding insert_field has_key append
insert_field-new k v no_fields h = refl
insert_field-new k v (field j w acc) h = elim (Bool-cases (bytes_equal j k)) [
  | inl q ↦ absurd (let bad : true ≡ false = rw q at h in cc)
  | inr q ↦ rw q (ap (field j w) (insert_field-new k v acc (rw q at h)))
]

has_key-append :
    (k : Bytes) (acc fs : Fields) → has_key k (append acc fs) ≡ (has_key k acc || has_key k fs)
unfolding has_key append
has_key-append k no_fields fs = refl
has_key-append k (field j w acc) fs = ground (arith, has_key-append k acc fs)

bytes_equal_sym : (s t : Bytes) → bytes_equal s t ≡ false → bytes_equal t s ≡ false
bytes_equal_sym s t h = elim (Bool-cases (bytes_equal t s)) [
  | inl q ↦
      let same = bytes_equal_lem t s q in
      let again : bytes_equal s t ≡ true = ap (bytes_equal s) same ∙ bytes_equal_refl s in
      absurd (cc)
  | inr q ↦ q
]

AreNew-append :
    (k : Bytes) (v : Value) (acc fs : Fields)
    → has_key k fs ≡ false
    → AreNew acc fs
    → AreNew (append acc (field k v no_fields)) fs
unfolding has_key
AreNew-append k v acc no_fields h n = tt
AreNew-append k v acc (field j w fs) h n =
    let other : bytes_equal j k ≡ false = ground arith in
    let later : has_key k fs ≡ false = ground arith in
    (
      has_key-append j acc (field k v no_fields) ∙ ground (arith, n.0, bytes_equal_sym j k other),
      AreNew-append k v acc fs later n.1,
    )

append_assoc_one :
    (acc fs : Fields) (k : Bytes) (v : Value)
    → append (append acc (field k v no_fields)) fs ≡ append acc (field k v fs)
unfolding append
append_assoc_one no_fields fs k v = refl
append_assoc_one (field j w acc) fs k v = ap (field j w) (append_assoc_one acc fs k v)

append-no_fields : (acc : Fields) → append acc no_fields ≡ acc
unfolding append
append-no_fields no_fields = refl
append-no_fields (field k v acc) = ap (field k v) (append-no_fields acc)

insert_all-append :
    (acc fs : Fields) → NoKeyTwice fs → AreNew acc fs → insert_all acc fs ≡ append acc fs
unfolding insert_all
insert_all-append acc no_fields h n = sym (append-no_fields acc)
insert_all-append acc (field k v fs) h n =
    ap (λ a. insert_all a fs) (insert_field-new k v acc n.0)
    ∙ insert_all-append (append acc (field k v no_fields)) fs h.1 (AreNew-append k v acc fs h.0 n.1)
    ∙ append_assoc_one acc fs k v

AreNew-no_fields : (fs : Fields) → AreNew no_fields fs
unfolding has_key
AreNew-no_fields no_fields = tt
AreNew-no_fields (field k v fs) = (refl, AreNew-no_fields fs)

-- Fields with different keys, inserted in order, come out as they were.
pub insert_all_lem : (fs : Fields) → NoKeyTwice fs → insert_all no_fields fs ≡ fs
insert_all_lem fs h = insert_all-append no_fields fs h (AreNew-no_fields fs) ∙ unfold append in refl
