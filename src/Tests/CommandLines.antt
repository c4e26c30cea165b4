-- ===== src/Tests/CommandLines.antt =====
-- Runs of the parser of command lines (src/command_manager.cc), and the theorems applied to them.
use kakoune.Prelude.{ℕ, ◌≡◌, ◌≢◌, refl, Bool, true, false, List, [], ◌∷◌, ◌++◌, some, arith}
use kakoune.Prelude.Bytes.{Bytes, codes, bytes_equal}
use kakoune.Strings.{escape}
use kakoune.Utf8.{read_codepoint}
use kakoune.Commands.{
  shell_expand, Token, ParseState, ok, err, unterminated_expand, parse_quoted, read_byte,
  parse_quoted_balanced, balanced_loop, parse_unquoted, skip_blanks_and_comments, skip_loop,
  is_ascii_horizontal_blank, is_command_separator, token_type, compute_coord, compute_coord_loop,
}
use kakoune.Coord.{coord}
use kakoune.Commands.Quoted.{IsQuoted, parse_quoted-IsQuoted}
use kakoune.Commands.Balanced.{byte, group, nothing, parse_quoted_balanced_lem}
use kakoune.Commands.Unquoted.{ending, ends, word_ends, parse_unquoted-escape}
use kakoune.Commands.Blanks.{Skips, skip_blanks_and_comments-Skips}
use kakoune.Commands.Reader.{
  read_token, token_at, parse_percent_token, delimited, percent_result, closing_of, lower_case,
}
use kakoune.Commands.Execute.{
  Outcome, done, threw, parse_failed, located, execute, locate, with_place,
}
use kakoune.Commands.Execute.Ends.{execute_total}
use kakoune.Commands.Execute.Words.{words, execute-words}

abbrev no_letters : ℕ → Bool
no_letters c = false

abbrev start : Bytes → ParseState
start s = record { str = s; pos = 0 }

percent_token :
    read_token no_letters (start (codes " %sh{a{b}c} x")) true
    ≡ ok (
      some (record { type = shell_expand; pos = 5; content = codes "a{b}c"; terminated = true }),
      record { str = codes " %sh{a{b}c} x"; pos = 11 },
    )
unfolding read_token token_at parse_percent_token delimited percent_result closing_of lower_case
    token_type bytes_equal skip_blanks_and_comments skip_loop is_ascii_horizontal_blank
    read_codepoint parse_quoted_balanced balanced_loop
percent_token = refl

unterminated_token :
    read_token no_letters (start (codes " %{a")) true
    ≡ err (unterminated_expand (coord 0 3) [] 123 125)
unfolding read_token token_at parse_percent_token delimited percent_result closing_of lower_case
    token_type bytes_equal skip_blanks_and_comments skip_loop is_ascii_horizontal_blank
    read_codepoint parse_quoted_balanced balanced_loop compute_coord compute_coord_loop
    is_command_separator
unterminated_token = refl

-- What is run is noted in the state.
abbrev noted : List Bytes → List (List Bytes) → Outcome (List (List Bytes)) ℕ (Unit {0})
noted params w = done tt (w ++ (params ∷ []))

abbrev no_expansion : Token → List (List Bytes) → Outcome (List (List Bytes)) ℕ (List Bytes)
no_expansion t w = done [] w

abbrev two_words : List Bytes
two_words = codes "b c" ∷ codes "it's" ∷ []

-- A command that executes a line which cannot be parsed: the error gets the place of the command.
abbrev refused : List Bytes → List (List Bytes) → Outcome (List (List Bytes)) ℕ (Unit {0})
refused params w = threw (parse_failed (unterminated_expand (coord 0 3) [] 123 125)) w

refused_in_place :
    execute no_letters no_expansion refused [] (words (codes "eval" ∷ [])) []
    ≡ some (
        threw
          (located
            (coord 1 3)
            (codes "eval")
            (parse_failed (unterminated_expand (coord 0 3) [] 123 125)))
          [])
unfolding locate with_place
refused_in_place = execute-words no_letters no_expansion refused [] (codes "eval") [] []

execute-words_example :
    execute no_letters no_expansion noted [] (words (codes "echo" ∷ two_words)) []
    ≡ some (locate (coord 0 2) (codes "echo") (noted (codes "echo" ∷ two_words) []))
execute-words_example = execute-words no_letters no_expansion noted [] (codes "echo") two_words []

execute_total_example :
    (r : Outcome (List (List Bytes)) ℕ (Unit {0})) × (execute no_letters no_expansion noted []
        (codes "a; b %{")
        []
      ≡ some r)
execute_total_example = execute_total no_letters no_expansion noted [] (codes "a; b %{") []

parse_quoted-IsQuoted_example :
    IsQuoted 39 (codes "it''s' x") (parse_quoted read_byte 39 (codes "it''s' x"))
parse_quoted-IsQuoted_example = parse_quoted-IsQuoted 39 (codes "it''s' x")

braces_apart : ◌≢◌ {A = ℕ} 123 125
braces_apart h = omega arith

parse_quoted_balanced_lem_example :
    parse_quoted_balanced 123 125 (codes "{a}" ++ (125 ∷ codes " x"))
    ≡ (record { content = codes "{a}"; terminated = true }, codes " x")
parse_quoted_balanced_lem_example =
    parse_quoted_balanced_lem 123 125 (codes "{a}") (codes " x") braces_apart
      (group (byte 97 (λ h. omega arith) (λ h. omega arith) nothing) nothing)

separator_ends : ends 59 ≡ true
unfolding is_command_separator is_ascii_horizontal_blank
separator_ends = refl

parse_unquoted-escape_example :
    parse_unquoted (escape (codes "a b") word_ends 92 ++ codes ";c") ≡ (codes "a b", codes ";c")
parse_unquoted-escape_example =
    parse_unquoted-escape (codes "a b") (codes ";c") (λ h. omega arith)
      (ending 59 (codes "c") separator_ends)

skip_blanks_and_comments-Skips_example :
    Skips (codes " \\\n # c\nd") (skip_blanks_and_comments (codes " \\\n # c\nd"))
skip_blanks_and_comments-Skips_example = skip_blanks_and_comments-Skips (codes " \\\n # c\nd")
