-- ===== src/Strings/Numerals.antt =====
-- Numerals (src/string_utils.cc: str_to_int_ifp; src/format.cc: to_string of an int).
use kakoune.Prelude.{
  ℕ, zero, suc, ◌+◌, ◌-◌, ◌*◌, ◌/◌, ◌%◌, ◌≤◌, ◌<◌, ◌≡◌, refl, sym, ap, ◌∙◌, inl, inr, Bool, true,
  false, ◌||◌, [], ◌∷◌, ◌++◌, append_assoc, append-nil, some, ltb, ◌==◌, if◌then◌else◌, arith,
  Bool-cases, ltb→lt,
}
use kakoune.Prelude.Int.{ℤ, pos, negsuc}
use kakoune.Prelude.Bytes.{Bytes}
use kakoune.Strings.{
  to_int, digits_loop, negated, unsigned_digits, str_to_int_ifp, decimal, to_string,
}

-- What an `int` of 32 bits can hold.
abbrev pub IsInt32 : ℤ → Type 0
IsInt32 (pos n) = n < 2147483648
IsInt32 (negsuc n) = n < 2147483648

digit_step :
    (d res n : ℕ) (s : Bytes)
    → d < 10
    → res * 10 + d ≡ n
    → n < 4294967296
    → digits_loop ((48 + d) ∷ s) res ≡ digits_loop s n
unfolding digits_loop
digit_step d res n s hd e h =
    let small : (ltb (48 + d) 48 || ltb 57 (48 + d)) ≡ false = ground arith in
    let value : (res * 10 + (48 + d - 48)) % 4294967296 ≡ n = omega arith in rw (small, value)

-- Reading the digits of a number in front of a string goes on behind them with that number.
pub digits_loop-decimal :
    (fuel n : ℕ) (s : Bytes)
    → n < fuel
    → n < 4294967296
    → digits_loop (decimal fuel n ++ s) 0 ≡ digits_loop s n
unfolding decimal
digits_loop-decimal zero n s h k = absurd (omega arith)
digits_loop-decimal (suc fuel) n s h k = elim (Bool-cases (ltb n 10)) [
  | inl q ↦ rw (q, decimal) (digit_step n 0 n s (ltb→lt n 10 q) (omega arith) k)
  | inr q ↦
      let big : 10 ≤ n = ground arith in
      let last : Bytes = (48 + n % 10) ∷ [] in
      let whole : n / 10 * 10 + n % 10 ≡ n = omega arith in
      rw (q, decimal)
        (ap (λ t. digits_loop t 0) (append_assoc (decimal fuel (n / 10)) last s)
          ∙ digits_loop-decimal fuel (n / 10) (last ++ s) (omega arith) (omega arith)
          ∙ digit_step (n % 10) (n / 10) n s (omega arith) whole k)
]

-- The numeral of a number starts with a digit.
pub record Digits (s : Bytes) : Type 0 where
  pub first : ℕ
  pub others : Bytes
  pub is_cons : s ≡ first ∷ others
  pub at_least : 48 ≤ first
  pub at_most : first ≤ 57

Digits-append : (s t : Bytes) → Digits s → Digits (s ++ t)
Digits-append s t d = record {
  first = d.first;
  others = d.others ++ t;
  is_cons = ap (◌++ t) d.is_cons;
  at_least = d.at_least;
  at_most = d.at_most;
}

pub decimal-Digits : (fuel n : ℕ) → n < fuel → Digits (decimal fuel n)
unfolding decimal
decimal-Digits zero n h = absurd (omega arith)
decimal-Digits (suc fuel) n h = elim (Bool-cases (ltb n 10)) [
  | inl q ↦
      rw (q, decimal)
        (record {
          first = 48 + n;
          others = [];
          is_cons = refl;
          at_least = omega arith;
          at_most = omega (arith, ltb→lt n 10 q);
        })
  | inr q ↦
      let big : 10 ≤ n = ground arith in
      rw (q, decimal)
        (Digits-append (decimal fuel (n / 10)) ((48 + n % 10) ∷ [])
          (decimal-Digits fuel (n / 10) (omega arith)))
]

pub digits_of-decimal : (n : ℕ) → n < 4294967296 → digits_loop (decimal (suc n) n) 0 ≡ some n
digits_of-decimal n h =
    ap (λ s. digits_loop s 0) (sym (append-nil (decimal (suc n) n)))
    ∙ digits_loop-decimal (suc n) n [] (omega arith) h
    ∙ unfold digits_loop in refl

-- The end of str_to_int_ifp on the numeral of a number.
unsigned_digits-decimal :
    (negative : Bool) (n : ℕ)
    → n < 4294967296
    → unsigned_digits negative (decimal (suc n) n)
      ≡ some (to_int (if negative then negated n else n))
unfolding unsigned_digits
unsigned_digits-decimal negative n h =
    let d = decimal-Digits (suc n) n (omega arith) in
    let value : digits_loop (d.first ∷ d.others) 0 ≡ some n =
      ap (λ s. digits_loop s 0) (sym d.is_cons) ∙ digits_of-decimal n h in
    rw (d.is_cons, value, unsigned_digits)

-- Reading the numeral of an `int` gives the number back, for every number of 32 bits, the least
-- one included.
pub str_to_int-to_string : (i : ℤ) → IsInt32 i → str_to_int_ifp (to_string i) ≡ some i
unfolding str_to_int_ifp to_string to_int
str_to_int-to_string (pos n) h =
    let d = decimal-Digits (suc n) n (omega arith) in
    let no_sign : (d.first == 45) ≡ false = ground (arith, d.at_least) in
    let read = unsigned_digits-decimal false n (omega arith) in
    let read' : unsigned_digits false (d.first ∷ d.others) ≡ some (to_int n) =
      ap (unsigned_digits false) (sym d.is_cons) ∙ read in
    rw (d.is_cons, no_sign) (read' ∙ ground arith)
str_to_int-to_string (negsuc n) h =
    unsigned_digits-decimal true (suc n) (omega arith) ∙ ground arith
