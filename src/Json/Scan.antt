-- ===== src/Json/Scan.antt =====
-- What the parser of JSON (src/json.cc: parse_json_impl) does on the text of a string, a number
-- and a bracket.
use kakoune.Prelude.{
  ℕ, zero, suc, ◌+◌, ◌/◌, ◌%◌, ◌≤◌, ◌<◌, ◌≡◌, refl, sym, subst, ap, ◌∙◌, inl, inr, Bool, true,
  false, ◌&&◌, ◌||◌, [], ◌∷◌, ◌++◌, none, some, ltb, leb, ◌==◌, arith, Bool-cases, All, length,
}
use kakoune.Prelude.Int.{ℤ, pos, negsuc}
use kakoune.Prelude.Bytes.{Bytes, codes, bytes_equal}
use kakoune.Strings.{str_to_int_ifp, to_string, decimal, prefix_match}
use kakoune.Strings.Numerals.{IsInt32, decimal-Digits, str_to_int-to_string}
use kakoune.Json.{
  int, boolean, string, Items, Fields, Parsed, parsed, threw, not_a_number, on_parsed, is_digit,
  span_digits, parse_number, string_loop, parse_array, parse_object, is_word, parse_at,
}
use kakoune.Json.Print.{escaped_byte, escaped, bool_to_json}

-- A string without control characters.
abbrev pub IsPrintable : Bytes → Type 0
IsPrintable s = All (λ c. 31 < c) s

-- What may follow a value: a byte that is no digit.
abbrev pub Follows : Bytes → Type 0
Follows [] = ⊥
Follows (c ∷ s) = is_digit c ≡ false

-- The text of a string is read back, up to its closing quote.
pub string_loop-escaped :
    (s rest : Bytes) → IsPrintable s → string_loop false (escaped s ++ (34 ∷ rest)) ≡ parsed s rest
unfolding string_loop escaped escaped_byte
string_loop-escaped [] rest h = refl
string_loop-escaped (c ∷ s) rest h =
    let ih = string_loop-escaped s rest h.1 in
    let printable : leb c 31 ≡ false = ground (arith, h.0) in
    elim (Bool-cases (c == 92 || c == 34)) [
      | inl q ↦ rw (printable, q, ih)
      | inr q ↦
          let q1 : (c == 92) ≡ false = ground arith in
          let q2 : (c == 34) ≡ false = ground arith in rw (printable, q, q1, q2, ih)
    ]

abbrev pub AreDigits : Bytes → Type 0
AreDigits s = All (λ c. is_digit c ≡ true) s

AreDigits-append : (s t : Bytes) → AreDigits s → AreDigits t → AreDigits (s ++ t)
AreDigits-append [] t h k = k
AreDigits-append (c ∷ s) t h k = (h.0, AreDigits-append s t h.1 k)

decimal-AreDigits : (fuel n : ℕ) → n < fuel → AreDigits (decimal fuel n)
unfolding decimal is_digit
decimal-AreDigits zero n h = absurd (omega arith)
decimal-AreDigits (suc fuel) n h = elim (Bool-cases (ltb n 10)) [
  | inl q ↦ rw (q, decimal) (ground arith, tt)
  | inr q ↦
      let big : 10 ≤ n = ground arith in
      rw (q, decimal)
        (AreDigits-append (decimal fuel (n / 10)) ((48 + n % 10) ∷ [])
          (decimal-AreDigits fuel (n / 10) (omega arith)) (ground arith, tt))
]

span_digits-append :
    (s rest : Bytes) → AreDigits s → Follows rest → span_digits (s ++ rest) ≡ (s, rest)
unfolding span_digits
span_digits-append [] [] h k = absurd k
span_digits-append [] (c ∷ rest) h k = rw k
span_digits-append (c ∷ s) rest h k = rw (h.0, span_digits-append s rest h.1 k)

number_at :
    (c : ℕ) (s rest : Bytes) (i : ℤ)
    → AreDigits s
    → Follows rest
    → str_to_int_ifp (c ∷ s) ≡ some i
    → parse_number c (s ++ rest) ≡ parsed (int i) rest
unfolding parse_number
number_at c s rest i h k e =
    let split = span_digits-append s rest h k in from (span_digits (s ++ rest)) split
  where
    from :
        (r : Bytes × Bytes)
        → r ≡ (s, rest)
        → (elim (str_to_int_ifp (c ∷ r.0)) [
          | none ↦ threw not_a_number
          | some i ↦ parsed (int i) r.1
        ])
          ≡ parsed (int i) rest
    from r q = rw (ap (λ p. p.0) q, e, ap (λ p. p.1) q)

-- The text of a number: a digit or the sign, then digits.
pub record IsNumeral (s : Bytes) : Type 0 where
  pub first : ℕ
  pub others : Bytes
  pub is_cons : s ≡ first ∷ others
  pub starts : (is_digit first || first == 45) ≡ true
  pub digits : AreDigits others

pub to_string-IsNumeral : (i : ℤ) → IsNumeral (to_string i)
unfolding to_string
to_string-IsNumeral (pos n) =
    let d = decimal-Digits (suc n) n (omega arith) in
    let all = subst AreDigits d.is_cons (decimal-AreDigits (suc n) n (omega arith)) in
    record {
      first = d.first;
      others = d.others;
      is_cons = d.is_cons;
      starts = rw (all.0) refl;
      digits = all.1;
    }
to_string-IsNumeral (negsuc n) = record {
  first = 45;
  others = decimal (suc (suc n)) (suc n);
  is_cons = refl;
  starts = minus;
  digits = decimal-AreDigits (suc (suc n)) (suc n) (omega arith);
}
  where
    minus : (is_digit 45 || true) ≡ true
    minus = ground arith

module _ (items : Bytes → Parsed Items) (fields : Bytes → Parsed Fields) (depth : ℕ)
    (shallow : depth < 100) where
  not_too_deep : leb 100 depth ≡ false
  not_too_deep = ground arith

  and_false : (b : Bool) → (b && false) ≡ false
  and_false true = refl
  and_false false = refl

  is_word_other : (w c : ℕ) (ws s : Bytes) → (c == w) ≡ false → is_word (w ∷ ws) (c ∷ s) ≡ false
  unfolding is_word prefix_match bytes_equal
  is_word_other w c ws s h = rw h (and_false (ltb (suc (length ws)) (suc (length s))))

  at_number :
      (c : ℕ) (s : Bytes)
      → (is_digit c || c == 45) ≡ true
      → parse_at items fields depth (c ∷ s) ≡ parse_number c s
  unfolding parse_at
  at_number c s h = rw (not_too_deep, h)

  pub at_string :
      (s : Bytes)
      → parse_at items fields depth (34 ∷ s)
        ≡ on_parsed (string_loop false s) (λ value rest. parsed (string value) rest)
  unfolding parse_at is_digit
  at_string s = rw (
    not_too_deep,
    is_word_other b't' 34 (codes "rue") s refl,
    is_word_other b'f' 34 (codes "alse") s refl,
  )

  pub at_array : (s : Bytes) → parse_at items fields depth (91 ∷ s) ≡ parse_array items s
  unfolding parse_at is_digit
  at_array s = rw (
    not_too_deep,
    is_word_other b't' 91 (codes "rue") s refl,
    is_word_other b'f' 91 (codes "alse") s refl,
  )

  pub at_object : (s : Bytes) → parse_at items fields depth (123 ∷ s) ≡ parse_object fields s
  unfolding parse_at is_digit
  at_object s = rw (
    not_too_deep,
    is_word_other b't' 123 (codes "rue") s refl,
    is_word_other b'f' 123 (codes "alse") s refl,
  )

  pub at_boolean :
      (b : Bool) (c : ℕ) (s : Bytes)
      → parse_at items fields depth (bool_to_json b ++ (c ∷ s)) ≡ parsed (boolean b) (c ∷ s)
  unfolding parse_at is_digit bool_to_json is_word prefix_match bytes_equal
  at_boolean true c s =
      let long : ltb 4 (suc (suc (suc (suc (suc (length s)))))) ≡ true = ground arith in
      rw (not_too_deep, long)
  at_boolean false c s =
      let long : ltb 5 (suc (suc (suc (suc (suc (suc (length s))))))) ≡ true = ground arith in
      rw (not_too_deep, is_word_other b't' b'f' (codes "rue") (codes "alse" ++ (c ∷ s)) refl, long)

  -- A number is read back up to the first byte that is no digit.
  pub parse_at-int :
      (i : ℤ) (rest : Bytes)
      → IsInt32 i
      → Follows rest
      → parse_at items fields depth (to_string i ++ rest) ≡ parsed (int i) rest
  parse_at-int i rest h k =
      let t = to_string-IsNumeral i in
      let read : str_to_int_ifp (t.first ∷ t.others) ≡ some i =
        ap str_to_int_ifp (sym t.is_cons) ∙ str_to_int-to_string i h in
      ap (λ s. parse_at items fields depth (s ++ rest)) t.is_cons
      ∙ at_number t.first (t.others ++ rest) t.starts
      ∙ number_at t.first t.others rest i t.digits k read
