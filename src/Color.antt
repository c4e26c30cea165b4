-- ===== src/Color.antt =====
-- Colors (src/color.hh, src/color.cc): their names, and how they are read and printed. A color holds
-- its alpha or, below RGB, the number of its name in the same member `a`.
pub mod RoundTrip
pub mod Reads
use kakoune.Prelude.{
  ℕ, zero, suc, ◌+◌, ◌-◌, ◌*◌, ◌/◌, ◌%◌, Bool, true, false, ◌&&◌, List, [], ◌∷◌, ◌++◌, Option, none,
  some, ltb, leb, ◌==◌, if◌then◌else◌, length, take,
}
use kakoune.Prelude.Bytes.{Bytes, codes, bytes_equal}

pub record Color : Type 0 where
  pub a : ℕ
  pub r : ℕ
  pub g : ℕ
  pub b : ℕ

pub data ColorError : Type 0 where
  low_alpha : ColorError
  invalid_digit : ℕ → ColorError
  unable_to_parse : ColorError

pub data Result {ℓ} (A : Type ℓ) : Type ℓ where
  ok : A → Result A
  err : ColorError → Result A

infixl 5 ◌>>=◌
abbrev pub ◌>>=◌ {ℓ κ} : {A : Type ℓ} {B : Type κ} → Result A → (A → Result B) → Result B
ok a >>= f = f a
err e >>= f = err e

abbrev pub rgb : ℕ
rgb = 17

unfoldable pub is_rgb : Color → Bool
is_rgb c = leb rgb c.a

-- The constructor from a name, and the one from channels with validate_alpha.
abbrev pub named : ℕ → Color
named n = record { a = n; r = 0; g = 0; b = 0 }

unfoldable pub make_color : ℕ → ℕ → ℕ → ℕ → Result Color
make_color r g b a = if ltb a rgb then err low_alpha else ok (record { a = a; r = r; g = g; b = b })

abbrev pub color_names : List Bytes
color_names =
    codes "default"
    ∷ codes "black"
    ∷ codes "red"
    ∷ codes "green"
    ∷ codes "yellow"
    ∷ codes "blue"
    ∷ codes "magenta"
    ∷ codes "cyan"
    ∷ codes "white"
    ∷ codes "bright-black"
    ∷ codes "bright-red"
    ∷ codes "bright-green"
    ∷ codes "bright-yellow"
    ∷ codes "bright-blue"
    ∷ codes "bright-magenta"
    ∷ codes "bright-cyan"
    ∷ codes "bright-white"
    ∷ []

unfoldable pub find_name : List Bytes → Bytes → ℕ → Option ℕ
find_name [] color i = none
find_name (name ∷ names) color i =
    let rest = find_name names color (suc i) in if bytes_equal color name then some i else rest

unfoldable pub hval : ℕ → Result ℕ
hval c =
    if leb 65 c && leb c 70
    then ok (10 + c - 65)
    else if leb 97 c && leb c 102
    then ok (10 + c - 97)
    else if leb 48 c && leb c 57
    then ok (c - 48)
    else err (invalid_digit c)

-- `(unsigned char)(hval(x) * 16 + hval(y))`
unfoldable pub channel : ℕ → ℕ → Result ℕ
channel x y = hval x >>= λ h. hval y >>= λ l. ok ((h * 16 + l) % 256)

-- color[i], for an index below the length.
unfoldable pub char_at : Bytes → ℕ → ℕ
char_at [] i = 0
char_at (c ∷ color) zero = c
char_at (c ∷ color) (suc i) = char_at color i

-- The branch for "rgb:rrggbb".
unfoldable pub rgb_color : Bytes → Result Color
rgb_color s = channel (char_at s 4) (char_at s 5) >>= λ r.
    channel (char_at s 6) (char_at s 7) >>= λ g.
    channel (char_at s 8) (char_at s 9) >>= λ b. make_color r g b 255

-- The branch for "rgba:rrggbbaa".
unfoldable pub rgba_color : Bytes → Result Color
rgba_color s = channel (char_at s 5) (char_at s 6) >>= λ r.
    channel (char_at s 7) (char_at s 8) >>= λ g. channel (char_at s 9) (char_at s 10) >>= λ b.
    channel (char_at s 11) (char_at s 12) >>= λ a. make_color r g b a

unfoldable pub hex_color : Bytes → Result Color
hex_color color =
    if length color == 10 && bytes_equal (take 4 color) (codes "rgb:")
    then rgb_color color
    else if length color == 13 && bytes_equal (take 5 color) (codes "rgba:")
    then rgba_color color
    else err unable_to_parse

unfoldable pub str_to_color : Bytes → Result Color
str_to_color color = elim (find_name color_names color 0) [
  | some i ↦ ok (named i)
  | none ↦ hex_color color
]

-- to_string of Hex for a byte, padded to two digits as `{:02}` asks.
unfoldable pub hex_digit : ℕ → ℕ
hex_digit n = if ltb n 10 then 48 + n else 87 + n

unfoldable pub hex : ℕ → Bytes
hex n = if ltb n 16 then hex_digit n ∷ [] else hex_digit (n / 16) ∷ hex_digit (n % 16) ∷ []

unfoldable pub padded : Bytes → Bytes
padded (d ∷ []) = 48 ∷ d ∷ []
padded s = s

unfoldable pub name_at : List Bytes → ℕ → Bytes
name_at [] i = []
name_at (name ∷ names) zero = name
name_at (name ∷ names) (suc i) = name_at names i

unfoldable pub to_string : Color → Bytes
to_string c =
    if is_rgb c
    then (if c.a == 255
        then codes "rgb:" ++ padded (hex c.r) ++ padded (hex c.g) ++ padded (hex c.b)
        else codes "rgba:"
          ++ padded (hex c.r)
          ++ padded (hex c.g)
          ++ padded (hex c.b)
          ++ padded (hex c.a))
    else name_at color_names c.a
