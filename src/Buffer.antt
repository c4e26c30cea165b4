-- ===== src/Buffer.antt =====
-- class Buffer (src/buffer.hh, buffer.cc): the lines, the undo tree, the log of changes, and the
-- methods that edit the text and move in the history.
--
-- A method that throws on a read-only buffer returns `read_only`. Hooks, options, names and file
-- times are left out; `committed` is left out of the history nodes.
pub mod Fields
pub mod Edit
pub mod Text
pub mod Around
pub mod Replace
use kakoune.Prelude.{
  ℕ, zero, suc, ◌+◌, ◌-◌, ◌≡◌, Bool, true, false, not, ◌&&◌, ◌||◌, List, [], ◌∷◌, ◌++◌, Option,
  none, some, ltb, leb, ◌==◌, if◌then◌else◌, length, is_empty, get_or, set, take,
}
use kakoune.Prelude.Int.{pos}
use kakoune.Prelude.Bytes.{bytes_equal}
use kakoune.Coord.{BufferCoord, coord, coord_le, coord_eq}
use kakoune.Lines.{
  Bytes, BufferLines, newline, back, end_coord, back_coord, is_end, prev, advance, string,
  insert_lines, insert_end, erase_lines,
}
use kakoune.Modification.{Modification, ChangeType, inserts, erases, inverse, inverses}

-- Buffer::Change
pub record Change : Type 0 where
  pub type : ChangeType
  pub begin : BufferCoord
  pub end : BufferCoord

-- Buffer::HistoryNode; `none` is HistoryId::Invalid.
pub record HistoryNode : Type 0 where
  pub parent : Option ℕ
  pub redo_child : Option ℕ
  pub undo_group : List Modification

-- The flags that the modelled methods read are fields of their own.
pub record Buffer : Type 0 where
  pub lines : BufferLines
  pub file : Bool
  pub new_file : Bool
  pub no_undo : Bool
  pub is_read_only : Bool
  pub history : List HistoryNode
  pub history_id : ℕ
  pub last_save_history_id : ℕ
  pub current_undo_group : List Modification
  pub changes : List Change

pub data Error : Type 0 where
  read_only : Error

pub data Result {ℓ} (A : Type ℓ) : Type ℓ where
  ok : A → Result A
  err : Error → Result A

infixl 5 ◌>>=◌
abbrev pub ◌>>=◌ {ℓ κ} : {A : Type ℓ} {B : Type κ} → Result A → (A → Result B) → Result B
ok a >>= f = f a
err e >>= f = err e

-- HistoryNode{HistoryId::Invalid}
abbrev pub root_node : HistoryNode
root_node = record { parent = none; redo_child = none; undo_group = [] }

-- m_history[id]
abbrev pub history_node : List HistoryNode → ℕ → HistoryNode
history_node hs id = get_or hs id root_node

abbrev pub next_history_id : Buffer → ℕ
next_history_id b = length b.history

-- The bits of Buffer::Flags that the modelled methods read.
pub record Flags : Type 0 where
  pub file : Bool
  pub new_file : Bool
  pub no_undo : Bool
  pub read_only : Bool

-- The constructor.
unfoldable pub new_buffer : Flags → BufferLines → Buffer
new_buffer flags lines = record {
  lines = lines;
  file = flags.file;
  new_file = flags.new_file;
  no_undo = flags.no_undo;
  is_read_only = flags.read_only;
  history = root_node ∷ [];
  history_id = 0;
  last_save_history_id = 0;
  current_undo_group = [];
  changes = record { type = inserts; begin = coord 0 0; end = coord (length lines) 0 } ∷ [];
}

abbrev pub throw_if_read_only {ℓ} : {A : Type ℓ} → Buffer → Result A → Result A
throw_if_read_only b r = if b.is_read_only then err read_only else r

-- m_changes.push_back
abbrev pub push_change : ChangeType → BufferCoord → BufferCoord → List Change → List Change
push_change t b e changes = changes ++ record { type = t; begin = b; end = e } ∷ []

unfoldable pub do_insert : Buffer → BufferCoord → Bytes → Buffer × (BufferCoord × BufferCoord)
do_insert b c content =
    let end = insert_end b.lines c content in
    if is_empty content then (b, (c, c)) else (
      record b {
        lines = insert_lines b.lines c content;
        changes = push_change inserts c end b.changes;
      },
      (c, end),
    )

unfoldable pub do_erase : Buffer → BufferCoord → BufferCoord → Buffer × BufferCoord
do_erase b begin end = if coord_eq begin end then (b, begin) else (
  record b {
    lines = erase_lines b.lines begin end;
    changes = push_change erases begin end b.changes;
  },
  begin,
)

-- The cases of apply_modification.
abbrev pub apply_typed_modification : ChangeType → Buffer → BufferCoord → Bytes → Buffer
apply_typed_modification inserts b c content = (do_insert b c content).0
apply_typed_modification erases b c content =
    (do_erase b c (advance b.lines c (pos (length content)))).0

unfoldable pub apply_modification : Buffer → Modification → Buffer
apply_modification b m = apply_typed_modification m.type b m.coord m.content

-- The loop over an undo group.
unfoldable pub apply_modifications : Buffer → List Modification → Buffer
apply_modifications b [] = b
apply_modifications b (m ∷ ms) = apply_modifications (apply_modification b m) ms

-- m_current_undo_group.push_back, if undo data is recorded
abbrev pub record_modification : ChangeType → BufferCoord → Bytes → Buffer → Buffer
record_modification t c content b = record b {
  current_undo_group =
      if b.no_undo
      then b.current_undo_group
      else b.current_undo_group ++ record { type = t; coord = c; content = content } ∷ [];
}

-- real_content of Buffer::insert
abbrev pub real_content : BufferLines → BufferCoord → Bytes → Bytes
real_content ls c content =
    if is_end ls c && not (back content == newline) then content ++ newline ∷ [] else content

unfoldable pub insert : Buffer → BufferCoord → Bytes → Result (Buffer × (BufferCoord × BufferCoord))
insert b c content = throw_if_read_only b (
    if is_empty content
    then ok (b, (c, c))
    else let real = real_content b.lines c content in
      ok (do_insert (record_modification inserts c real b) c real))

-- The end that Buffer::erase works with: the last newline goes only with a whole line.
unfoldable pub erase_end : BufferLines → BufferCoord → BufferCoord → BufferCoord
erase_end ls begin end =
    if is_end ls end
    then if not (begin.column == 0) || coord_eq begin (coord 0 0) then prev ls end else end_coord ls
    else end

unfoldable pub erase : Buffer → BufferCoord → BufferCoord → Result (Buffer × BufferCoord)
erase b begin end = throw_if_read_only b (
    let end' = erase_end b.lines begin end in
    if coord_le end' begin
    then ok (b, begin)
    else ok (do_erase (record_modification erases begin (string b.lines begin end') b) begin end'))

-- The branch of Buffer::replace that keeps the last newline.
unfoldable pub replace_to_end :
    Buffer → BufferCoord → Bytes → Result (Buffer × (BufferCoord × BufferCoord))
replace_to_end b begin content = do
  (b', at) ← erase b begin (back_coord b.lines)
  (b'', range) ← insert b' at (take (length content - 1) content)
  ok (b'', (range.0, end_coord b''.lines))

unfoldable pub replace :
    Buffer → BufferCoord → BufferCoord → Bytes → Result (Buffer × (BufferCoord × BufferCoord))
replace b begin end content = throw_if_read_only b (
    if bytes_equal (string b.lines begin end) content
    then ok (b, (begin, end))
    else if is_end b.lines end && (not (is_empty content) && back content == newline)
    then replace_to_end b begin content
    else erase b begin end >>= λ r. insert r.0 r.1 content)
