-- ===== src/Tests/Texts.antt =====
-- Runs on strings and UTF-8 (the cases of test_string in src/string_utils.cc among them), and the
-- theorems applied to them.
use kakoune.Prelude.{◌≡◌, refl, [], ◌∷◌, ◌++◌, true, false, some, arith}
use kakoune.Prelude.Int.{pos, negsuc}
use kakoune.Prelude.Bytes.{Bytes, codes, contains, bytes_equal}
use kakoune.Strings.{
  escape, unescape, indent, indent_loop, replace, replace_loop, prefix_match, shell_quote,
  subsequence_match, after_first, str_to_int_ifp, unsigned_digits, digits_loop, to_int, to_string,
  join, join_loop,
}
use kakoune.Strings.Numerals.{str_to_int-to_string}
use kakoune.Strings.Quote.{shell_word, blank, shell_word-shell_quote}
use kakoune.Utf8.{read_codepoint, read_codepoint_multibyte, dump, advance_forward}
use kakoune.Utf8.RoundTrip.{read_codepoint-dump}
use kakoune.Utf8.Moves.{encode, advance_forward-encode}

escaped_text : escape (codes "\\youpi:matin") (codes ":\\") 92 ≡ codes "\\\\youpi\\:matin"
unfolding escape contains
escaped_text = refl

unescaped_text : unescape (codes "\\\\youpi\\:matin") (codes ":\\") 92 ≡ codes "\\youpi:matin"
unfolding unescape contains
unescaped_text = refl

replaced_text :
    replace 20 (codes "tchou/tcha/tchi") (codes "/") (codes "!!") ≡ some (codes "tchou!!tcha!!tchi")
unfolding replace replace_loop prefix_match bytes_equal
replaced_text = refl

subsequence_found : subsequence_match (codes "tchou kanaky") (codes "tknky") ≡ true
unfolding subsequence_match after_first
subsequence_found = refl

subsequence_missing : subsequence_match (codes "tchou kanaky") (codes "tchou  kanaky") ≡ false
unfolding subsequence_match after_first
subsequence_missing = refl

zeros_read : str_to_int_ifp (codes "-0") ≡ some (pos 0)
unfolding str_to_int_ifp unsigned_digits digits_loop to_int
zeros_read = refl

indented : indent (codes "a\n\nb") (codes "  ") ≡ codes "  a\n  \n  b"
unfolding indent indent_loop
indented = refl

joined_text : join (codes "a" ∷ codes "b" ∷ []) (codes ", ") ≡ codes "a, b"
unfolding join join_loop
joined_text = refl

-- The euro sign.
euro_read : read_codepoint (226 ∷ 130 ∷ 172 ∷ 33 ∷ []) ≡ (8364, 33 ∷ [])
unfolding read_codepoint read_codepoint_multibyte
euro_read = refl

-- INT_MIN
str_to_int-to_string_example :
    str_to_int_ifp (to_string (negsuc 2147483647)) ≡ some (negsuc 2147483647)
str_to_int-to_string_example = str_to_int-to_string (negsuc 2147483647) (omega arith)

shell_word-shell_quote_example :
    (r : Bytes) × (shell_quote (codes "it's") ≡ some r)
    × (shell_word false (r ++ codes " x") ≡ some (codes "it's", codes " x"))
shell_word-shell_quote_example =
    shell_word-shell_quote (codes "it's") (codes " x") (blank (codes "x"))

read_codepoint-dump_example : read_codepoint (dump 128512 ++ codes "!") ≡ (128512, codes "!")
read_codepoint-dump_example = read_codepoint-dump 128512 (codes "!") (omega arith)

advance_forward-encode_example :
    advance_forward (encode (233 ∷ 8364 ∷ 97 ∷ [])) 2 ≡ encode (97 ∷ [])
advance_forward-encode_example = advance_forward-encode (233 ∷ 8364 ∷ 97 ∷ []) 2 (omega arith)
