-- ===== src/Json/Fuel.antt =====
-- The parser of JSON (src/json.cc: parse_json) comes to an end, and takes a byte at least for each
-- value.
use kakoune.Prelude.{
  ℕ, suc, ◌≤◌, ◌<◌, inl, inr, Bool, true, false, ◌||◌, [], ◌∷◌, leb, ◌==◌, if◌then◌else◌, arith,
  Bool-cases, Option-cases, length, length-drop,
}
use kakoune.Prelude.Bytes.{Bytes, codes}
use kakoune.Strings.{str_to_int_ifp}
use kakoune.Json.{
  Value, int, boolean, string, array, object, Items, Fields, Parsed, nothing, parsed, threw,
  exhausted, on_parsed, skip_blanks, span_digits, parse_number, with_byte, string_loop, parse_array,
  parse_object, is_word, parse_at, next_item, next_field, insert_field, parse_field, is_digit,
  max_parsing_depth, expected_colon,
}

-- The fuel did not run out, and what is left is shorter than `n`.
abbrev pub EndsBelow : {A : Type 0} → ℕ → Parsed A → Type 0
EndsBelow n nothing = Unit
EndsBelow n (parsed a rest) = length rest < n
EndsBelow n (threw e) = Unit
EndsBelow n exhausted = ⊥

pub EndsBelow-mono : {A : Type 0} (n m : ℕ) (p : Parsed A) → n ≤ m → EndsBelow n p → EndsBelow m p
EndsBelow-mono n m nothing h e = tt
EndsBelow-mono n m (parsed a rest) h e = omega (arith, e)
EndsBelow-mono n m (threw x) h e = tt
EndsBelow-mono n m exhausted h e = e

pub then-EndsBelow :
    {A B : Type 0} (n m : ℕ) (p : Parsed A) (f : A → Bytes → Parsed B)
    → EndsBelow n p
    → ((a : A) (rest : Bytes) → length rest < n → EndsBelow m (f a rest))
    → EndsBelow m (on_parsed p f)
then-EndsBelow n m nothing f e h = tt
then-EndsBelow n m (parsed a rest) f e h = h a rest e
then-EndsBelow n m (threw x) f e h = tt
then-EndsBelow n m exhausted f e h = e

pub skip_blanks-length : (s : Bytes) → length (skip_blanks s) ≤ length s
unfolding skip_blanks
skip_blanks-length [] = omega arith
skip_blanks-length (c ∷ s) = ground (arith, skip_blanks-length s)

span_digits-length : (s : Bytes) → length (span_digits s).1 ≤ length s
unfolding span_digits
span_digits-length [] = omega arith
span_digits-length (c ∷ s) = ground (arith, span_digits-length s)

parse_number-EndsBelow : (c : ℕ) (s : Bytes) → EndsBelow (suc (length s)) (parse_number c s)
unfolding parse_number
parse_number-EndsBelow c s = elim (Option-cases (str_to_int_ifp (c ∷ (span_digits s).0))) [
  | inl q ↦ rw (q, parse_number) tt
  | inr (i, q) ↦ rw (q, parse_number) (omega (arith, span_digits-length s))
]

with_byte-EndsBelow :
    (c n m : ℕ) (p : Parsed Bytes) → n ≤ m → EndsBelow n p → EndsBelow m (with_byte c p)
with_byte-EndsBelow c n m nothing h e = tt
with_byte-EndsBelow c n m (parsed a rest) h e = omega (arith, e)
with_byte-EndsBelow c n m (threw x) h e = tt
with_byte-EndsBelow c n m exhausted h e = e

string_loop-EndsBelow : (escaped : Bool) (s : Bytes) → EndsBelow (length s) (string_loop escaped s)
unfolding string_loop
string_loop-EndsBelow true [] = tt
string_loop-EndsBelow false [] = tt
string_loop-EndsBelow true (c ∷ s) =
    with_byte-EndsBelow c (length s) (suc (length s)) (string_loop false s) (omega arith)
      (string_loop-EndsBelow false s)
string_loop-EndsBelow false (c ∷ s) = elim (Bool-cases (c == 92)) [
  | inl q ↦ rw q (
      EndsBelow-mono (length s) (suc (length s)) (string_loop true s) (omega arith)
        (string_loop-EndsBelow true s))
  | inr q ↦ elim (Bool-cases (c == 34)) [
    | inl p ↦ rw (q, p) (omega arith)
    | inr p ↦
        rw (q, p)
          (with_byte-EndsBelow c (length s) (suc (length s)) (string_loop false s) (omega arith)
            (string_loop-EndsBelow false s))
  ]
]

-- A parser that ends below the length of what it is given, on texts shorter than `n`.
abbrev pub EndsOn : {A : Type 0} → ℕ → (Bytes → Parsed A) → Type 0
EndsOn n f = (s : Bytes) → length s < n → EndsBelow (length s) (f s)

parse_array-EndsBelow :
    (loop : Bytes → Parsed Items) (s : Bytes)
    → EndsOn (suc (length s)) loop
    → EndsBelow (suc (length s)) (parse_array loop s)
unfolding parse_array
parse_array-EndsBelow loop [] h = tt
parse_array-EndsBelow loop (c ∷ s) h = elim (Bool-cases (c == 93)) [
  | inl q ↦ rw q (omega arith)
  | inr q ↦ rw q (
      then-EndsBelow (suc (length s)) (suc (suc (length s))) (loop (c ∷ s)) _
        (h (c ∷ s) (omega arith)) (λ a rest k. omega arith))
]

parse_object-EndsBelow :
    (loop : Bytes → Parsed Fields) (s : Bytes)
    → EndsOn (suc (length s)) loop
    → EndsBelow (suc (length s)) (parse_object loop s)
unfolding parse_object
parse_object-EndsBelow loop [] h = tt
parse_object-EndsBelow loop (c ∷ s) h = elim (Bool-cases (c == 125)) [
  | inl q ↦ rw q (omega arith)
  | inr q ↦ rw q (
      then-EndsBelow (suc (length s)) (suc (suc (length s))) (loop (c ∷ s)) _
        (h (c ∷ s) (omega arith)) (λ a rest k. omega arith))
]

pub parse_at-EndsBelow :
    (items : Bytes → Parsed Items) (fields : Bytes → Parsed Fields) (depth : ℕ) (s : Bytes)
    → EndsOn (length s) items
    → EndsOn (length s) fields
    → EndsBelow (length s) (parse_at items fields depth s)
unfolding parse_at
parse_at-EndsBelow items fields depth [] h k = tt
parse_at-EndsBelow items fields depth (c ∷ s) h k =
    elim (Bool-cases (leb max_parsing_depth depth)) [
      | inl q ↦ rw q tt
      | inr q ↦ elim (Bool-cases (is_digit c || c == 45)) [
        | inl q1 ↦ rw (q, q1) (parse_number-EndsBelow c s)
        | inr q1 ↦ elim (Bool-cases (is_word (codes "true") (c ∷ s))) [
          | inl q2 ↦ rw (q, q1, q2) (omega (arith, length-drop 3 s))
          | inr q2 ↦ elim (Bool-cases (is_word (codes "false") (c ∷ s))) [
            | inl q3 ↦ rw (q, q1, q2, q3) (omega (arith, length-drop 4 s))
            | inr q3 ↦ elim (Bool-cases (c == 34)) [
              | inl q4 ↦
                  rw (q, q1, q2, q3, q4)
                    (then-EndsBelow (length s) (suc (length s)) (string_loop false s) _
                      (string_loop-EndsBelow false s) (λ a rest l. omega arith))
              | inr q4 ↦ elim (Bool-cases (c == 91)) [
                | inl q5 ↦ rw (q, q1, q2, q3, q4, q5) (parse_array-EndsBelow items s h)
                | inr q5 ↦ elim (Bool-cases (c == 123)) [
                  | inl q6 ↦ rw (q, q1, q2, q3, q4, q5, q6) (parse_object-EndsBelow fields s k)
                  | inr q6 ↦ rw (q, q1, q2, q3, q4, q5, q6) tt
                ]
              ]
            ]
          ]
        ]
      ]
    ]

pub next_item-EndsBelow :
    (v : Value) (loop : Bytes → Parsed Items) (s : Bytes)
    → EndsOn (length s) loop
    → EndsBelow (length s) (next_item v loop s)
unfolding next_item
next_item-EndsBelow v loop [] h = tt
next_item-EndsBelow v loop (c ∷ s) h = elim (Bool-cases (c == 44)) [
  | inl q ↦ rw q (
      then-EndsBelow (length s) (suc (length s)) (loop s) _ (h s (omega arith))
        (λ a rest k. omega arith))
  | inr q ↦ elim (Bool-cases (c == 93)) [ inl p ↦ rw (q, p) (omega arith) | inr p ↦ rw (q, p) tt ]
]

next_field-EndsBelow :
    (acc : Fields) (loop : Bytes → Parsed Fields) (s : Bytes)
    → EndsOn (length s) loop
    → EndsBelow (length s) (next_field acc loop s)
unfolding next_field
next_field-EndsBelow acc loop [] h = tt
next_field-EndsBelow acc loop (c ∷ s) h = elim (Bool-cases (c == 44)) [
  | inl q ↦
      rw q (EndsBelow-mono (length s) (suc (length s)) (loop s) (omega arith) (h s (omega arith)))
  | inr q ↦ elim (Bool-cases (c == 125)) [ inl p ↦ rw (q, p) (omega arith) | inr p ↦ rw (q, p) tt ]
]

-- Behind the colon.
pub parse_field-EndsBelow :
    (value : Bytes → Parsed Value) (loop : Fields → Bytes → Parsed Fields) (acc : Fields)
    (name : Value) (s : Bytes) (n : ℕ)
    → length s < n
    → EndsOn n value
    → ((fs : Fields) → EndsOn n (loop fs))
    → EndsBelow n (parse_field value loop acc name s)
unfolding parse_field
parse_field-EndsBelow value loop acc (string k) s n h hv hl =
    from (skip_blanks s) (omega (arith, skip_blanks-length s))
  where
    from :
        (t : Bytes)
        → length t < n
        → EndsBelow n (elim t [
          | [] ↦ nothing
          | c ∷ t ↦
              if c == 58
              then on_parsed (value t) (λ v rest.
                next_field (insert_field k v acc) (loop (insert_field k v acc)) (skip_blanks rest))
              else threw expected_colon
        ])
    from [] h = tt
    from (c ∷ t) h = elim (Bool-cases (c == 58)) [
      | inl q ↦ rw q (
          then-EndsBelow (length t) n (value t) _ (hv t (omega arith)) (λ v rest l.
            EndsBelow-mono (length (skip_blanks rest)) n _ (omega (arith, skip_blanks-length rest))
              (next_field-EndsBelow (insert_field k v acc) (loop (insert_field k v acc))
                (skip_blanks rest)
                (λ u m. hl (insert_field k v acc) u (omega (arith, skip_blanks-length rest))))))
      | inr q ↦ rw q tt
    ]
parse_field-EndsBelow value loop acc (int i) s n h hv hl = tt
parse_field-EndsBelow value loop acc (boolean b) s n h hv hl = tt
parse_field-EndsBelow value loop acc (array xs) s n h hv hl = tt
parse_field-EndsBelow value loop acc (object fs) s n h hv hl = tt
