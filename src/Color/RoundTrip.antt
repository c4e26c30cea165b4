-- ===== src/Color/RoundTrip.antt =====
-- Colors that are printed and read again (src/color.cc).
use kakoune.Prelude.{
  ℕ, zero, suc, ◌+◌, ◌*◌, ◌/◌, ◌%◌, ◌≤◌, ◌<◌, ◌≡◌, refl, sym, ap, subst, ◌∙◌, inl, inr, ◌⊎◌, Bool,
  true, false, not, ◌||◌, ◌&&◌, List, [], ◌∷◌, ◌++◌, none, some, ltb, leb, ◌==◌, length, arith,
  Bool-cases, ltb→lt,
}
use kakoune.Prelude.Bytes.{Bytes, codes, bytes_equal, bytes_equal_refl}
use kakoune.Color.{
  Color, Result, ok, rgb, is_rgb, named, make_color, color_names, find_name, hval, channel,
  rgb_color, rgba_color, hex_color, char_at, str_to_color, hex_digit, hex, padded, name_at,
  to_string,
}

hval-hex_digit : (n : ℕ) → n < 16 → hval (hex_digit n) ≡ ok n
unfolding hval hex_digit
hval-hex_digit n h = ground arith

channel-digits : (n : ℕ) → n < 256 → channel (hex_digit (n / 16)) (hex_digit (n % 16)) ≡ ok n
unfolding channel
channel-digits n h =
    let high = hval-hex_digit (n / 16) (omega arith) in
    let low = hval-hex_digit (n % 16) (omega arith) in
    let value : (n / 16 * 16 + n % 16) % 256 ≡ n = omega arith in rw (high, low, value) refl

padded-hex : (n : ℕ) → padded (hex n) ≡ hex_digit (n / 16) ∷ hex_digit (n % 16) ∷ []
unfolding padded hex hex_digit
padded-hex n = elim (Bool-cases (ltb n 16)) [
  | inl q ↦
      let small = ltb→lt n 16 q in
      let high : n / 16 ≡ 0 = omega (arith, small) in
      let low : n % 16 ≡ n = omega (arith, small) in rw (q, high, low) refl
  | inr q ↦ rw q refl
]

-- A color with channels, as its constructor accepts it.
pub record IsRgb (c : Color) : Type 0 where
  pub alpha : rgb ≤ c.a
  pub alpha_byte : c.a < 256
  pub red_byte : c.r < 256
  pub green_byte : c.g < 256
  pub blue_byte : c.b < 256

abbrev pub IsNamed : Color → Type 0
IsNamed c = (i : ℕ) × ((i < rgb) × (c ≡ named i))

abbrev pub IsColor : Color → Type 0
IsColor c = IsNamed c ⊎ IsRgb c

is_in : Bytes → List Bytes → Bool
is_in name [] = false
is_in name (x ∷ names) = bytes_equal x name || is_in name names

are_distinct : List Bytes → Bool
are_distinct [] = true
are_distinct (name ∷ names) = not (is_in name names) && are_distinct names

at-differs :
    (name : Bytes) (names : List Bytes) (i : ℕ)
    → is_in name names ≡ false
    → i < length names
    → bytes_equal (name_at names i) name ≡ false
unfolding is_in name_at
at-differs name [] i f h = absurd (omega arith)
at-differs name (x ∷ names) zero f h = ground arith
at-differs name (x ∷ names) (suc i) f h = at-differs name names i (ground arith) (omega arith)

find_name-at :
    (names : List Bytes) (i k : ℕ)
    → are_distinct names ≡ true
    → i < length names
    → find_name names (name_at names i) k ≡ some (i + k)
unfolding are_distinct find_name name_at
find_name-at [] i k d h = absurd (omega arith)
find_name-at (name ∷ names) zero k d h =
    let same = bytes_equal_refl name in rw same (ap some (omega arith))
find_name-at (name ∷ names) (suc i) k d h =
    let fresh : is_in name names ≡ false = ground arith in
    let other = at-differs name names i fresh (omega arith) in
    rw other (find_name-at names i (suc k) (ground arith) (omega arith) ∙ ap some (omega arith))

str_to_color_name :
    (s : Bytes) (i : ℕ) → find_name color_names s 0 ≡ some i → str_to_color s ≡ ok (named i)
unfolding str_to_color
str_to_color_name s i e =
    ap (λ f. elim f as (λ x. Result Color) [ some i ↦ ok (named i) | none ↦ hex_color s ]) e

to_string_name : (i : ℕ) → i < rgb → to_string (named i) ≡ name_at color_names i
unfolding to_string is_rgb
to_string_name i h = let small : leb rgb i ≡ false = ground arith in rw small refl

name_round : (i : ℕ) → i < rgb → str_to_color (to_string (named i)) ≡ ok (named i)
unfolding bytes_equal are_distinct is_in
name_round i h =
    ap str_to_color (to_string_name i h)
    ∙ str_to_color_name (name_at color_names i) i
        (find_name-at color_names i 0 refl h ∙ ap some (omega arith))

rgb_round :
    (r g b : ℕ)
    → r < 256
    → g < 256
    → b < 256
    → str_to_color (codes "rgb:" ++ padded (hex r) ++ padded (hex g) ++ padded (hex b))
      ≡ ok (record { a = 255; r = r; g = g; b = b })
unfolding str_to_color find_name hex_color rgb_color char_at make_color bytes_equal
rgb_round r g b hr hg hb =
    rw
      (
        padded-hex r,
        padded-hex g,
        padded-hex b,
        channel-digits r hr,
        channel-digits g hg,
        channel-digits b hb,
      )
      refl

rgba_round :
    (r g b a : ℕ)
    → r < 256
    → g < 256
    → b < 256
    → a < 256
    → rgb ≤ a
    → str_to_color
        (codes "rgba:" ++ padded (hex r) ++ padded (hex g) ++ padded (hex b) ++ padded (hex a))
      ≡ ok (record { a = a; r = r; g = g; b = b })
unfolding str_to_color find_name hex_color rgba_color char_at make_color bytes_equal
rgba_round r g b a hr hg hb ha low =
    let enough : ltb a rgb ≡ false = ground arith in
    rw
      (
        padded-hex r,
        padded-hex g,
        padded-hex b,
        padded-hex a,
        channel-digits r hr,
        channel-digits g hg,
        channel-digits b hb,
        channel-digits a ha,
        enough,
      )
      refl

-- A color that is printed and read again comes back: a named one, and one with channels whose
-- alpha the constructor accepts.
pub str_to_color-to_string : (c : Color) → IsColor c → str_to_color (to_string c) ≡ ok c
unfolding to_string is_rgb
str_to_color-to_string c (inl (i, (h, e))) =
    subst (λ x. str_to_color (to_string x) ≡ ok x) (sym e) (name_round i h)
str_to_color-to_string c (inr v) =
    let large : leb rgb c.a ≡ true = ground (arith, v.alpha) in
    elim (Bool-cases (c.a == 255)) [
      | inl q ↦
          rw (large, q)
            (rgb_round c.r c.g c.b v.red_byte v.green_byte v.blue_byte
              ∙ ap (λ a. ok (record { a = a; r = c.r; g = c.g; b = c.b })) (ground arith))
      | inr q ↦
          rw (large, q)
            (rgba_round c.r c.g c.b c.a v.red_byte v.green_byte v.blue_byte v.alpha_byte v.alpha)
    ]
