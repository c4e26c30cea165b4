-- ===== src/Commands.antt =====
-- The parser of command lines (src/command_manager.hh, src/command_manager.cc, up to
-- CommandParser::read_token, and expand_impl). A position is an offset into the string, and the
-- loops run on the bytes from there to the end. Whether a code point is a letter is asked of the C
-- library (iswalpha), a parameter here. A thrown parse_error is a value that holds what its
-- message shows.
pub mod Reader
pub mod Quoted
pub mod Balanced
pub mod Unquoted
pub mod Blanks
pub mod Progress
pub mod Expand
pub mod Execute
use kakoune.Prelude.{
  ℕ, zero, suc, ◌+◌, ◌-◌, Bool, true, false, not, ◌&&◌, ◌||◌, List, [], ◌∷◌, ◌++◌, Option, none,
  some, ltb, leb, ◌==◌, if◌then◌else◌, length, is_empty, get_or, take, drop,
}
use kakoune.Prelude.Bytes.{Bytes, codes, bytes_equal}
use kakoune.Coord.{BufferCoord, coord}
use kakoune.Lines.{newline, back}
use kakoune.Strings.{backslash}
use kakoune.Utf8.{read_codepoint}

pub data TokenType : Type 0 where
  raw : TokenType
  raw_quoted : TokenType
  expand_string : TokenType
  shell_expand : TokenType
  register_expand : TokenType
  option_expand : TokenType
  val_expand : TokenType
  arg_expand : TokenType
  file_expand : TokenType
  command_separator : TokenType

pub record Token : Type 0 where
  pub type : TokenType
  pub pos : ℕ
  pub content : Bytes
  pub terminated : Bool

pub record ParseState : Type 0 where
  pub str : Bytes
  pub pos : ℕ

pub record ParseResult : Type 0 where
  pub content : Bytes
  pub terminated : Bool

pub data ParseError : Type 0 where
  unterminated : ℕ → ParseError
  unterminated_expand : BufferCoord → Bytes → ℕ → ℕ → ParseError
  expected_delimiter : Bytes → ParseError
  unknown_expand : Bytes → ParseError

pub data Result {ℓ} (A : Type ℓ) : Type ℓ where
  ok : A → Result A
  err : ParseError → Result A

infixl 5 ◌>>=◌
abbrev pub ◌>>=◌ {ℓ κ} : {A : Type ℓ} {B : Type κ} → Result A → (A → Result B) → Result B
ok a >>= f = f a
err e >>= f = err e

-- The bytes from the position to the end, and the state at what is left of them.
abbrev pub left : ParseState → Bytes
left st = drop st.pos st.str

abbrev pub moved : ParseState → Bytes → ParseState
moved st s = record st { pos = length st.str - length s }

unfoldable pub is_command_separator : ℕ → Bool
is_command_separator c = c == b';' || c == newline

unfoldable pub is_ascii_horizontal_blank : ℕ → Bool
is_ascii_horizontal_blank c = c == 9 || (c == 12 || c == 32)

-- `bytes` in front of the content of a result.
abbrev pub with_content : Bytes → ParseResult × Bytes → ParseResult × Bytes
with_content bytes (r, s) = (record r { content = bytes ++ r.content }, s)

abbrev pub closed : Bytes → ParseResult × Bytes
closed s = (record { content = []; terminated = true }, s)

abbrev pub still_open : ParseResult × Bytes
still_open = (record { content = []; terminated = false }, [])

-- What lies between an iterator and a later one.
abbrev pub between : Bytes → Bytes → Bytes
between s t = take (length s - length t) s

-- The two instances of `read` in parse_quoted.
unfoldable pub read_byte : Bytes → ℕ × Bytes
read_byte [] = (0, [])
read_byte (c ∷ s) = (c, s)

unfoldable pub quoted_loop : ℕ → (Bytes → ℕ × Bytes) → ℕ → Bytes → ParseResult × Bytes
quoted_loop zero read delimiter s = still_open
quoted_loop (suc fuel) read delimiter [] = still_open
quoted_loop (suc fuel) read delimiter (b ∷ s) =
    let (c, t) = read (b ∷ s) in
    elim (c == delimiter) [
      | false ↦ with_content (between (b ∷ s) t) (quoted_loop fuel read delimiter t)
      | true ↦ elim (not (is_empty t) && (read t).0 == delimiter) [
        | false ↦ closed t
        | true ↦ with_content (between (b ∷ s) t) (quoted_loop fuel read delimiter (read t).1)
      ]
    ]

-- A round reads a byte at least, so the rounds are no more than the bytes.
unfoldable pub parse_quoted : (Bytes → ℕ × Bytes) → ℕ → Bytes → ParseResult × Bytes
parse_quoted read delimiter s = quoted_loop (suc (length s)) read delimiter s

abbrev pub level_after : ℕ → ℕ → ℕ → ℕ → ℕ
level_after opening closing c level =
    if c == opening then suc level else if c == closing then level - 1 else level

unfoldable pub balanced_loop : ℕ → ℕ → ℕ → Bytes → ParseResult × Bytes
balanced_loop opening closing level [] = still_open
balanced_loop opening closing level (c ∷ s) =
    let level' = level_after opening closing c level in
    let rest = with_content (c ∷ []) (balanced_loop opening closing level' s) in
    if level' == 0 then closed s else rest

unfoldable pub parse_quoted_balanced : ℕ → ℕ → Bytes → ParseResult × Bytes
parse_quoted_balanced opening closing s = balanced_loop opening closing 1 s

-- `segment` is what lies between `beg` and the position.
unfoldable pub unquoted_loop : Bytes → Bytes → Bytes → Bytes × Bytes
unquoted_loop str segment [] = (str ++ segment, [])
unquoted_loop str segment (c ∷ s) =
    let joined = str ++ segment in
    let escaped = unquoted_loop (take (length joined - 1) joined ++ (c ∷ [])) [] s in
    let plain = unquoted_loop str (segment ++ (c ∷ [])) s in
    if is_command_separator c || is_ascii_horizontal_blank c
    then (if back segment == backslash then escaped else (joined, c ∷ s))
    else plain

unfoldable pub parse_unquoted : Bytes → Bytes × Bytes
parse_unquoted s = unquoted_loop [] [] s

unfoldable pub token_type : Bytes → Bool → Result TokenType
token_type name throw_on_invalid =
    if is_empty name
    then ok raw_quoted
    else if bytes_equal name (codes "sh")
    then ok shell_expand
    else if bytes_equal name (codes "reg")
    then ok register_expand
    else if bytes_equal name (codes "opt")
    then ok option_expand
    else if bytes_equal name (codes "val")
    then ok val_expand
    else if bytes_equal name (codes "arg")
    then ok arg_expand
    else if bytes_equal name (codes "file")
    then ok file_expand
    else if bytes_equal name (codes "exp")
    then ok expand_string
    else if throw_on_invalid
    then err (unknown_expand name)
    else ok raw_quoted

-- The inner loop on a comment.
unfoldable pub comment_end : Bytes → Bytes
comment_end [] = []
comment_end (c ∷ s) = let rest = comment_end s in if c == newline then c ∷ s else rest

abbrev pub starts_with : ℕ → Bytes → Bool
starts_with c [] = false
starts_with c (d ∷ s) = d == c

unfoldable pub skip_loop : ℕ → Bytes → Bytes
skip_loop zero s = s
skip_loop (suc fuel) [] = []
skip_loop (suc fuel) (c ∷ s) = elim (is_ascii_horizontal_blank c) [
  | true ↦ skip_loop fuel s
  | false ↦ elim (c == backslash && starts_with newline s) [
    | true ↦ skip_loop fuel (drop 1 s)
    | false ↦ elim (c == b'#') [ true ↦ skip_loop fuel (comment_end s) | false ↦ c ∷ s ]
  ]
]

unfoldable pub skip_blanks_and_comments : Bytes → Bytes
skip_blanks_and_comments s = skip_loop (length s) s

unfoldable pub compute_coord_loop : BufferCoord → Bytes → BufferCoord
compute_coord_loop at [] = at
compute_coord_loop at (c ∷ s) =
    compute_coord_loop
      (if c == newline then coord (at.line + 1) 0 else coord at.line (at.column + 1)) s

unfoldable pub compute_coord : Bytes → BufferCoord
compute_coord s = compute_coord_loop (coord 0 0) s
