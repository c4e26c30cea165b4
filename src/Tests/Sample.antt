-- ===== src/Tests/Sample.antt =====
-- A buffer of two lines, "hi" and "yo", new and after an insertion (src/buffer.cc).
use kakoune.Prelude.{◌≢◌, refl, true, false, [], ◌∷◌, arith}
use kakoune.Coord.{BufferCoord, coord}
use kakoune.Lines.{Bytes, BufferLines}
use kakoune.Lines.View.{Valid}
use kakoune.Lines.WellFormed.{WellFormed}
use kakoune.Buffer.{Buffer, Flags, new_buffer}
use kakoune.Buffer.Text.{inserted_buffer}

abbrev pub two_lines : BufferLines
two_lines = (104 ∷ 105 ∷ 10 ∷ []) ∷ (121 ∷ 111 ∷ 10 ∷ []) ∷ []

pub two_lines-WellFormed : WellFormed two_lines
two_lines-WellFormed =
    ((omega arith, (omega arith, refl)), ((omega arith, (omega arith, refl)), tt))

-- "a\nb", which cuts the line it is inserted in.
abbrev pub two_pieces : Bytes
two_pieces = 97 ∷ 10 ∷ 98 ∷ []

pub two_pieces-ne-nil : ◌≢◌ {A = Bytes} two_pieces []
two_pieces-ne-nil = λ q. cc

abbrev pub middle : BufferCoord
middle = coord 0 1

pub middle-Valid : Valid two_lines middle
middle-Valid = omega arith

abbrev pub flags : Flags
flags = record { file = true; new_file = false; no_undo = false; read_only = false }

abbrev pub start : Buffer
start = new_buffer flags two_lines

abbrev pub edited : Buffer
edited = inserted_buffer start middle two_pieces
