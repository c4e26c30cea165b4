-- ===== src/Modification.antt =====
-- Buffer::Modification (src/buffer.hh, buffer.cc): one insertion or removal, its inverse, and what
-- applying it does to the lines.
pub mod Laws
pub mod Inverse
use kakoune.Prelude.{ℕ, ◌≡◌, ◌≢◌, List, [], ◌∷◌, ◌++◌, length, take}
use kakoune.Prelude.Int.{pos}
use kakoune.Coord.{BufferCoord}
use kakoune.Lines.{Bytes, BufferLines, newline, back, advance, insert_lines, erase_lines}
use kakoune.Lines.View.{Valid, text_after}

-- Modification::Type, and Change::Type
pub data ChangeType : Type 0 where
  inserts erases : ChangeType

pub record Modification : Type 0 where
  pub type : ChangeType
  pub coord : BufferCoord
  pub content : Bytes

abbrev pub opposite : ChangeType → ChangeType
opposite inserts = erases
opposite erases = inserts

-- Modification::inverse
abbrev pub inverse : Modification → Modification
inverse m = record m { type = opposite m.type }

-- The end of the range that an erasing modification covers, by Buffer::advance.
unfoldable pub modification_end : BufferLines → BufferCoord → Bytes → BufferCoord
modification_end ls c content = advance ls c (pos (length content))

-- What Buffer::apply_modification does to the lines, by the type.
abbrev pub apply_typed : ChangeType → BufferLines → BufferCoord → Bytes → BufferLines
apply_typed inserts ls c content = insert_lines ls c content
apply_typed erases ls c content = erase_lines ls c (modification_end ls c content)

unfoldable pub apply_lines : BufferLines → Modification → BufferLines
apply_lines ls m = apply_typed m.type ls m.coord m.content

-- Where a modification may be applied: its coordinate is valid, an insertion at the end brings its
-- newline, the bytes to erase are those that stand there, and an erasure up to the end of the
-- buffer takes whole lines.
abbrev pub FitsTyped : ChangeType → BufferCoord → Bytes → BufferLines → Type 0
FitsTyped inserts c content ls = c.line ≡ length ls → back content ≡ newline
FitsTyped erases c content ls =
    (take (length content) (text_after ls c) ≡ content) × (text_after ls c ≡ content → c.column ≡ 0)

pub record Fits (m : Modification) (ls : BufferLines) : Type 0 where
  pub valid : Valid ls m.coord
  pub some_content : m.content ≢ []
  pub typed : FitsTyped m.type m.coord m.content ls

-- A group of modifications, applied in order, and undone in the reverse order.
unfoldable pub apply_group : BufferLines → List Modification → BufferLines
apply_group ls [] = ls
apply_group ls (m ∷ ms) = apply_group (apply_lines ls m) ms

-- `UndoGroup | reverse()`, each modification inverted.
unfoldable pub inverses : List Modification → List Modification
inverses [] = []
inverses (m ∷ ms) = inverses ms ++ inverse m ∷ []

-- The group leads from some lines to others, each modification applied where it fits.
abbrev pub Leads : BufferLines → List Modification → BufferLines → Type 0
Leads ls [] ls' = ls ≡ ls'
Leads ls (m ∷ ms) ls' = Fits m ls × Leads (apply_lines ls m) ms ls'
