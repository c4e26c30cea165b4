-- ===== src/Tests/Colors.antt =====
-- Colors read and printed (src/color.cc).
use kakoune.Prelude.{◌≡◌, refl, inr, arith}
use kakoune.Prelude.Bytes.{codes, bytes_equal}
use kakoune.Color.{
  Color, low_alpha, invalid_digit, ok, err, is_rgb, named, make_color, find_name, hval, channel,
  char_at, rgb_color, rgba_color, hex_color, str_to_color, hex_digit, hex, padded, to_string,
}
use kakoune.Color.RoundTrip.{IsRgb, IsColor, str_to_color-to_string}
use kakoune.Color.Reads.{str_to_color-IsColor}

abbrev orange : Color
orange = record { a = 255; r = 255; g = 165; b = 0 }

orange_prints : to_string orange ≡ codes "rgb:ffa500"
unfolding to_string is_rgb padded hex hex_digit
orange_prints = refl

orange_reads : str_to_color (codes "rgb:FFA500") ≡ ok orange
unfolding str_to_color find_name bytes_equal hex_color rgb_color rgba_color char_at channel hval
    make_color
orange_reads = refl

red_reads : str_to_color (codes "red") ≡ ok (named 2)
unfolding str_to_color find_name bytes_equal hex_color
red_reads = refl

low_alpha_fails : str_to_color (codes "rgba:ffa50010") ≡ err low_alpha
unfolding str_to_color find_name bytes_equal hex_color rgb_color rgba_color char_at channel hval
    make_color
low_alpha_fails = refl

digit_fails : str_to_color (codes "rgb:ffg500") ≡ err (invalid_digit 103)
unfolding str_to_color find_name bytes_equal hex_color rgb_color rgba_color char_at channel hval
    make_color
digit_fails = refl

orange-IsRgb : IsRgb orange
orange-IsRgb = record {
  alpha = omega arith;
  alpha_byte = omega arith;
  red_byte = omega arith;
  green_byte = omega arith;
  blue_byte = omega arith;
}

str_to_color-to_string_example : str_to_color (to_string orange) ≡ ok orange
str_to_color-to_string_example = str_to_color-to_string orange (inr orange-IsRgb)

str_to_color-IsColor_example : IsColor orange
str_to_color-IsColor_example = str_to_color-IsColor (codes "rgb:FFA500") orange orange_reads
