-- ===== src/Lines.antt =====
-- The line storage of a buffer and the functions on it (src/buffer.hh, buffer.inl.hh, buffer.cc):
-- a vector of lines, each a string of bytes that ends in a newline.
pub mod View
pub mod WellFormed
pub mod Insert
pub mod Erase
pub mod Navigate
use kakoune.Prelude.{
  ℕ, zero, suc, ◌+◌, ◌-◌, min, ◌≡◌, Bool, true, false, ◌&&◌, ◌||◌, List, [], ◌∷◌, ◌++◌, ltb, leb,
  ◌==◌, if◌then◌else◌, length, is_empty, get_or, set, take, drop,
}
use kakoune.Prelude.Int.{ℤ, pos, negsuc, sub_ℕ}
pub use kakoune.Prelude.Bytes.{Bytes}
use kakoune.Coord.{BufferCoord, coord, coord_lt, coord_le, coord_eq}

-- BufferLines: the shared StringData of each line is its text.
abbrev pub BufferLines : Type 0
BufferLines = List Bytes

-- '\n'
abbrev pub newline : ℕ
newline = 10

-- m_lines[line]; the empty string stands for a read out of bounds.
abbrev pub line_at : BufferLines → ℕ → Bytes
line_at ls i = get_or ls i []

-- StringView::back, with 0 on the empty string.
abbrev pub back : Bytes → ℕ
back [] = 0
back (c ∷ []) = c
back (c ∷ d ∷ r) = back (d ∷ r)

unfoldable pub end_coord : BufferLines → BufferCoord
end_coord ls = coord (length ls) 0

unfoldable pub back_coord : BufferLines → BufferCoord
back_coord ls = coord (length ls - 1) (length (line_at ls (length ls - 1)) - 1)

unfoldable pub is_valid : BufferLines → BufferCoord → Bool
is_valid ls c =
    (ltb c.line (length ls) && ltb c.column (length (line_at ls c.line)))
    || (c.line == length ls && c.column == 0)

unfoldable pub is_end : BufferLines → BufferCoord → Bool
unfolding end_coord coord_le
is_end ls c = coord_le (end_coord ls) c

unfoldable pub byte_at : BufferLines → BufferCoord → ℕ
byte_at ls c = get_or (line_at ls c.line) c.column 0

unfoldable pub next : BufferLines → BufferCoord → BufferCoord
next ls c =
    if ltb c.column (length (line_at ls c.line) - 1)
    then coord c.line (c.column + 1)
    else coord (c.line + 1) 0

unfoldable pub prev : BufferLines → BufferCoord → BufferCoord
prev ls c =
    if c.column == 0
    then coord (c.line - 1) (length (line_at ls (c.line - 1)) - 1)
    else coord c.line (c.column - 1)

unfoldable pub clamp : BufferLines → BufferCoord → BufferCoord
unfolding coord_lt back_coord
clamp ls c =
    let c' = if coord_lt (back_coord ls) c then back_coord ls else c in
    coord c'.line (min c'.column (length (line_at ls c'.line) - 1))

-- Buffer::advance for a positive count, with the column already added to it. The list holds the
-- lines from `line` on; past the last one the source returns {line_count, 0}.
unfoldable pub advance_forward : BufferLines → ℕ → ℕ → BufferCoord
advance_forward [] line count = coord line 0
advance_forward (x ∷ xs) line count = elim (ltb count (length x)) [
  | true ↦ coord line count
  | false ↦ advance_forward xs (suc line) (count - length x)
]

-- Buffer::advance for a negative count: `missing` is -count after the column has been added.
unfoldable pub advance_backward : BufferLines → ℕ → ℕ → BufferCoord
advance_backward ls zero missing = coord 0 0
advance_backward ls (suc line) missing =
    let len = length (line_at ls line) in
    elim (leb missing len) [
      | true ↦ coord line (len - missing)
      | false ↦ advance_backward ls line (missing - len)
    ]

unfoldable pub advance : BufferLines → BufferCoord → ℤ → BufferCoord
unfolding advance_forward advance_backward
advance ls c (pos zero) = c
advance ls c (pos (suc n)) = advance_forward (drop c.line ls) c.line (suc n + c.column)
advance ls c (negsuc n) =
    if leb (suc n) c.column
    then coord c.line (c.column - suc n)
    else advance_backward ls c.line (suc n - c.column)

-- The sum of the lengths of some lines.
abbrev pub total_length : BufferLines → ℕ
total_length [] = 0
total_length (x ∷ xs) = length x + total_length xs

-- Buffer::distance where begin ≤ end.
unfoldable pub distance_ordered : BufferLines → BufferCoord → BufferCoord → ℕ
distance_ordered ls b e =
    if b.line == e.line
    then e.column - b.column
    else (length (line_at ls b.line) - b.column)
      + total_length (take (e.line - suc b.line) (drop (suc b.line) ls))
      + e.column

unfoldable pub distance : BufferLines → BufferCoord → BufferCoord → ℤ
distance ls b e =
    if coord_lt e b then sub_ℕ 0 (distance_ordered ls e b) else pos (distance_ordered ls b e)

-- StringView::substr(from, length): a negative length takes the whole rest.
abbrev pub substr_to : Bytes → ℕ → ℕ → Bytes
substr_to s start end = if ltb end start then drop start s else take (end - start) (drop start s)

-- The loop of Buffer::string over the lines from `line` on; it stops after the last line.
unfoldable pub string_loop : BufferCoord → BufferCoord → ℕ → BufferLines → Bytes
string_loop b e line [] = []
string_loop b e line (x ∷ xs) =
    let start : ℕ = if line == b.line then b.column else 0 in
    let piece = if line == e.line then substr_to x start e.column else drop start x in
    let rest = string_loop b e (suc line) xs in if leb line e.line then piece ++ rest else []

unfoldable pub string : BufferLines → BufferCoord → BufferCoord → Bytes
unfolding string_loop
string ls b e = string_loop b e b.line (drop b.line ls)

-- The loop of Buffer::do_insert that cuts the content into lines, and the two cases behind it.
-- `first` is `start == 0` and `pending` is content.substr(start, i - start).
unfoldable pub cut_lines : Bool → Bytes → Bytes → Bytes → Bytes → BufferLines
cut_lines true prefix suffix pending [] = (prefix ++ (pending ++ suffix)) ∷ []
cut_lines false prefix suffix pending [] =
    if is_empty pending && is_empty suffix then [] else (pending ++ suffix) ∷ []
cut_lines first prefix suffix pending (c ∷ r) = elim (c == newline) [
  | true ↦
      ((if first then prefix else []) ++ (pending ++ c ∷ [])) ∷ cut_lines false prefix suffix [] r
  | false ↦ cut_lines first prefix suffix (pending ++ c ∷ []) r
]

-- append_lines of Buffer::do_insert
unfoldable pub appends_lines : BufferLines → BufferCoord → Bool
unfolding is_end back_coord byte_at
appends_lines ls c = is_end ls c && (is_empty ls || byte_at ls (back_coord ls) == newline)

-- prefix, suffix and new_lines of Buffer::do_insert
unfoldable pub insert_prefix : BufferLines → BufferCoord → Bytes
unfolding appends_lines
insert_prefix ls c = if appends_lines ls c then [] else take c.column (line_at ls c.line)

unfoldable pub insert_suffix : BufferLines → BufferCoord → Bytes
unfolding is_end
insert_suffix ls c = if is_end ls c then [] else drop c.column (line_at ls c.line)

unfoldable pub new_lines : BufferLines → BufferCoord → Bytes → BufferLines
unfolding cut_lines insert_prefix insert_suffix
new_lines ls c content = cut_lines true (insert_prefix ls c) (insert_suffix ls c) [] content

-- The lines after Buffer::do_insert: new lines come in before the position, the first of them in
-- place of the line there unless lines are appended.
unfoldable pub insert_lines : BufferLines → BufferCoord → Bytes → BufferLines
unfolding new_lines appends_lines
insert_lines ls c content =
    if is_empty content
    then ls
    else take c.line ls
      ++ (new_lines ls c content ++ drop (if appends_lines ls c then c.line else suc c.line) ls)

-- The end of the range that Buffer::do_insert returns.
unfoldable pub insert_end : BufferLines → BufferCoord → Bytes → BufferCoord
unfolding insert_lines new_lines insert_suffix is_end
insert_end ls c content =
    let ls' = insert_lines ls c content in
    let last_line = c.line + length (new_lines ls c content) - 1 in
    if is_empty content
    then c
    else if is_end ls c
    then coord (length ls') 0
    else coord last_line (length (line_at ls' last_line) - length (insert_suffix ls c))

-- The lines after Buffer::do_erase.
unfoldable pub erase_lines : BufferLines → BufferCoord → BufferCoord → BufferLines
unfolding coord_eq
erase_lines ls b e =
    let prefix = take b.column (line_at ls b.line) in
    let suffix = if e.line == length ls then [] else drop e.column (line_at ls e.line) in
    let kept = take b.line ls ++ drop e.line ls in
    if coord_eq b e
    then ls
    else if is_empty prefix && is_empty suffix
    then kept
    else set kept b.line (prefix ++ suffix)
