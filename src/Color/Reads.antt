-- ===== src/Color/Reads.antt =====
-- What is read as a color is one (src/color.cc).
use kakoune.Prelude.{
  ℕ, suc, ◌+◌, ◌<◌, ◌≡◌, refl, subst, inl, inr, Bool, true, false, ◌&&◌, List, [], ◌∷◌, some, ltb,
  if◌then◌else◌, length, take, ◌==◌, arith, Bool-cases, Option-cases,
}
use kakoune.Prelude.Bytes.{Bytes, codes, bytes_equal}
use kakoune.Color.{
  Color, unable_to_parse, Result, ok, err, ◌>>=◌, rgb, make_color, color_names, find_name, hval,
  channel, char_at, rgb_color, rgba_color, hex_color, str_to_color,
}
use kakoune.Color.RoundTrip.{IsRgb, IsColor}

abbrev Gives : {A : Type 0} → (A → Type 0) → Result A → Type 0
Gives P (ok a) = P a
Gives P (err e) = Unit

bind-Gives :
    {A B : Type 0} (P : A → Type 0) (Q : B → Type 0) (r : Result A) (f : A → Result B)
    → Gives P r
    → ((a : A) → P a → Gives Q (f a))
    → Gives Q (r >>= f)
bind-Gives P Q (ok a) f h k = k a h
bind-Gives P Q (err e) f h k = tt

Gives-anything : {A : Type 0} (r : Result A) → Gives (λ a. Unit) r
Gives-anything (ok a) = tt
Gives-anything (err e) = tt

if-Gives :
    {A : Type 0} (P : A → Type 0) (b : Bool) (x y : Result A)
    → Gives P x
    → Gives P y
    → Gives P (if b then x else y)
if-Gives P true x y h k = h
if-Gives P false x y h k = k

channel-Gives : (x y : ℕ) → Gives (λ n. n < 256) (channel x y)
unfolding channel
channel-Gives x y =
    bind-Gives (λ a. Unit) (λ n. n < 256) (hval x) _ (Gives-anything (hval x))
      (λ h _.
        bind-Gives (λ a. Unit) (λ n. n < 256) (hval y) _ (Gives-anything (hval y))
          (λ l _. omega arith))

make_color-Gives :
    (r g b a : ℕ) → r < 256 → g < 256 → b < 256 → a < 256 → Gives IsRgb (make_color r g b a)
unfolding make_color
make_color-Gives r g b a hr hg hb ha = elim (Bool-cases (ltb a rgb)) [
  | inl q ↦ rw q tt
  | inr q ↦ rw q (record {
    alpha = ground arith;
    alpha_byte = ha;
    red_byte = hr;
    green_byte = hg;
    blue_byte = hb;
  })
]

-- The next channel is a byte.
with_channel :
    (x y : ℕ) (f : ℕ → Result Color)
    → ((n : ℕ) → n < 256 → Gives IsRgb (f n))
    → Gives IsRgb (channel x y >>= f)
with_channel x y f k = bind-Gives (λ n. n < 256) IsRgb (channel x y) f (channel-Gives x y) k

rgb_color-Gives : (s : Bytes) → Gives IsRgb (rgb_color s)
unfolding rgb_color
rgb_color-Gives s = with_channel (char_at s 4) (char_at s 5) _ (λ r hr.
    with_channel (char_at s 6) (char_at s 7) _ (λ g hg.
      with_channel (char_at s 8) (char_at s 9) _
        (λ b hb. make_color-Gives r g b 255 hr hg hb (omega arith))))

rgba_color-Gives : (s : Bytes) → Gives IsRgb (rgba_color s)
unfolding rgba_color
rgba_color-Gives s = with_channel (char_at s 5) (char_at s 6) _ (λ r hr.
    with_channel (char_at s 7) (char_at s 8) _ (λ g hg.
      with_channel (char_at s 9) (char_at s 10) _ (λ b hb.
        with_channel (char_at s 11) (char_at s 12) _
          (λ a ha. make_color-Gives r g b a hr hg hb ha))))

hex_color-Gives : (s : Bytes) → Gives IsRgb (hex_color s)
unfolding hex_color
hex_color-Gives s =
    if-Gives IsRgb (length s == 10 && bytes_equal (take 4 s) (codes "rgb:")) (rgb_color s)
      (if length s == 13 && bytes_equal (take 5 s) (codes "rgba:")
        then rgba_color s
        else err unable_to_parse)
      (rgb_color-Gives s)
      (if-Gives IsRgb (length s == 13 && bytes_equal (take 5 s) (codes "rgba:")) (rgba_color s)
        (err unable_to_parse) (rgba_color-Gives s) tt)

find_name-lt :
    (names : List Bytes) (s : Bytes) (k i : ℕ) → find_name names s k ≡ some i → i < k + length names
unfolding find_name
find_name-lt [] s k i e = absurd (cc)
find_name-lt (name ∷ names) s k i e = elim (Bool-cases (bytes_equal s name)) [
  | inl q ↦ let found : some k ≡ some i = rw q at e in let same : k ≡ i = cc in omega (arith, same)
  | inr q ↦
      let later : find_name names s (suc k) ≡ some i = rw q at e in
      omega (arith, find_name-lt names s (suc k) i later)
]

str_to_color-Gives : (s : Bytes) → Gives IsColor (str_to_color s)
unfolding str_to_color
str_to_color-Gives s = elim (Option-cases (find_name color_names s 0)) [
  | inl q ↦ rw (q, str_to_color) (rgb_only (hex_color s) (hex_color-Gives s))
  | inr (i, q) ↦ rw (q, str_to_color) (inl (i, (find_name-lt color_names s 0 i q, refl)))
]
  where
    rgb_only : (r : Result Color) → Gives IsRgb r → Gives IsColor r
    rgb_only (ok c) h = inr h
    rgb_only (err e) h = tt

gives : (r : Result Color) (c : Color) → Gives IsColor r → r ≡ ok c → IsColor c
gives (ok d) c h e = subst IsColor (cc) h
gives (err x) c h e = absurd (cc)

-- What is read as a color is a name's number, or channels of a byte each with an alpha that the
-- constructor accepts.
pub str_to_color-IsColor : (s : Bytes) (c : Color) → str_to_color s ≡ ok c → IsColor c
str_to_color-IsColor s c e = gives (str_to_color s) c (str_to_color-Gives s) e
