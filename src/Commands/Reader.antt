-- ===== src/Commands/Reader.antt =====
-- Reading of one token (src/command_manager.cc: parse_percent_token, CommandParser::read_token).
use kakoune.Prelude.{
  ℕ, ◌-◌, Bool, false, not, ◌&&◌, ◌||◌, [], ◌∷◌, Option, none, some, ltb, leb, ◌==◌, if◌then◌else◌,
  length, is_empty, take, drop,
}
use kakoune.Prelude.Bytes.{Bytes}
use kakoune.Strings.{backslash}
use kakoune.Utf8.{read_codepoint}
use kakoune.Commands.{
  TokenType, raw, raw_quoted, expand_string, command_separator, Token, ParseState, ParseResult,
  unterminated, unterminated_expand, expected_delimiter, Result, ok, err, ◌>>=◌, left, moved,
  is_command_separator, read_byte, parse_quoted, parse_quoted_balanced, parse_unquoted, token_type,
  starts_with, skip_blanks_and_comments, compute_coord,
}

-- The closing half of the pair that `opening` begins.
unfoldable pub closing_of : ℕ → Option ℕ
closing_of c =
    if c == b'('
    then some b')'
    else if c == b'['
    then some b']'
    else if c == b'{'
    then some b'}'
    else if c == b'<'
    then some b'>'
    else none

unfoldable pub lower_case : Bytes → Bytes
lower_case [] = []
lower_case (c ∷ s) = if leb b'a' c && leb c b'z' then c ∷ lower_case s else []

-- The two ends of parse_percent_token, which differ in the parser and in the delimiters that the
-- message shows.
unfoldable pub percent_result :
    ParseState
    → Bool
    → TokenType
    → Bytes
    → ℕ
    → ℕ
    → Bytes
    → ParseResult × Bytes
    → Result (Token × ParseState)
percent_result st throw type type_name opening closing start (quoted, s) =
    let byte_pos = length st.str - length start in
    if throw && not quoted.terminated
    then err (unterminated_expand (compute_coord (take byte_pos st.str)) type_name opening closing)
    else ok (
      record {
        type = type;
        pos = byte_pos;
        content = quoted.content;
        terminated = quoted.terminated;
      },
      moved st s,
    )

-- `return {}`
abbrev pub empty_token : Token
empty_token = record { type = raw; pos = 0; content = []; terminated = false }

unfoldable pub delimited :
    ParseState → Bool → TokenType → Bytes → ℕ → Bytes → Result (Token × ParseState)
delimited st throw type type_name opening start = elim (closing_of opening) [
  | some closing ↦
      percent_result st throw type type_name opening closing start
        (parse_quoted_balanced opening closing start)
  | none ↦
      percent_result st throw type type_name opening opening start
        (parse_quoted (if ltb opening 128 then read_byte else read_codepoint) opening start)
]

-- The branch of read_token on a quote.
unfoldable pub quoted_token : ParseState → Bool → ℕ → Bytes → Result (Token × ParseState)
quoted_token st throw c start =
    let (quoted, s) = parse_quoted read_byte c start in
    if throw && not quoted.terminated
    then err (unterminated c)
    else ok (
      record {
        type = if c == b'"' then expand_string else raw_quoted;
        pos = length st.str - length start;
        content = quoted.content;
        terminated = quoted.terminated;
      },
      moved st s,
    )

-- The last branch: a backslash before a quote or a percent sign is dropped.
unfoldable pub unquoted_start : ℕ → Bytes → Bytes
unquoted_start c s =
    if c == backslash && (starts_with b'%' s || (starts_with 39 s || starts_with b'"' s))
    then s
    else c ∷ s

unfoldable pub unquoted_token : ParseState → ℕ → Bytes → Token × ParseState
unquoted_token st c s =
    let (content, rest) = parse_unquoted (unquoted_start c s) in
    (
      record {
        type = raw;
        pos = length st.str - length (c ∷ s);
        content = content;
        terminated = false;
      },
      moved st rest,
    )

module _ (iswalpha : ℕ → Bool) where
  -- `s` holds the bytes behind the '%'.
  unfoldable pub parse_percent_token : ParseState → Bool → Bytes → Result (Token × ParseState)
  parse_percent_token st throw s =
      let type_name = lower_case s in
      let at = drop (length type_name) s in
      let (opening, start) = read_codepoint at in
      if is_empty at || iswalpha opening
      then (if throw then err (expected_delimiter type_name) else ok (empty_token, moved st start))
      else (token_type type_name throw >>= λ type. delimited st throw type type_name opening start)

  unfoldable pub token_at : ParseState → Bool → ℕ → Bytes → Result (Token × ParseState)
  token_at st throw c s =
      if c == b'"' || c == 39
      then quoted_token st throw c s
      else if c == b'%'
      then parse_percent_token st throw s
      else if is_command_separator c
      then ok (
        record {
          type = command_separator;
          pos = length st.str - length s;
          content = [];
          terminated = false;
        },
        moved st s,
      )
      else ok (unquoted_token st c s)

  unfoldable pub read_token : ParseState → Bool → Result (Option Token × ParseState)
  read_token st throw = elim (skip_blanks_and_comments (left st)) [
    | [] ↦ ok (none, moved st [])
    | c ∷ s ↦ token_at st throw c s >>= λ r. ok (some r.0, r.1)
  ]
