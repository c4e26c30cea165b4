-- ===== src/Changes/Track.antt =====
-- ForwardChangesTracker (src/changes.cc) follows positions through changes that come one behind the
-- other.
use kakoune.Prelude.{◌+◌, ◌-◌, ◌≡◌, refl, sym, ◌∙◌, false, List, [], ◌∷◌, arith}
use kakoune.Coord.{BufferCoord, coord_lt}
use kakoune.Lines.{BufferLines}
use kakoune.Lines.View.{Valid, text_after, text_before}
use kakoune.Lines.WellFormed.{WellFormed}
use kakoune.Lines.Navigate.Advance.{origin-Valid}
use kakoune.Modification.{ChangeType, inserts, erases}
use kakoune.Buffer.{Change}
use kakoune.Changes.{
  ForwardChangesTracker, new_tracker, get_old_coord, get_new_coord, update, update_all,
}
use kakoune.Changes.Shift.{shift, shift_lem}

-- What a change says, by its type, of the lines before and after it.
abbrev pub DescribesTyped :
    ChangeType → BufferCoord → BufferCoord → BufferLines → BufferLines → Type 0
DescribesTyped inserts begin end ls ls' =
    Valid ls begin × Valid ls' end × (text_after ls' end ≡ text_after ls begin)
DescribesTyped erases begin end ls ls' =
    Valid ls end
    × Valid ls' begin
    × (text_after ls' begin ≡ text_after ls end)
    × (coord_lt end begin ≡ false)

pub record Describes (c : Change) (ls ls' : BufferLines) : Type 0 where
  pub well_formed : WellFormed ls'
  pub same_before : text_before ls' c.begin ≡ text_before ls c.begin
  pub typed : DescribesTyped c.type c.begin c.end ls ls'
  pub in_order : coord_lt c.end c.begin ≡ false

-- The changes describe, one after the other, how the first lines become the last.
pub data Logged : BufferLines → List Change → BufferLines → Type 0 where
  unchanged : (ls : BufferLines) → Logged ls [] ls
  changed :
      (c : Change) (cs : List Change) (ls ls' ls'' : BufferLines)
      → Describes c ls ls'
      → Logged ls' cs ls''
      → Logged ls (c ∷ cs) ls''

-- Each change is not before the position of the one before it.
abbrev pub Forward : ForwardChangesTracker → List Change → Type 0
Forward t [] = Unit
Forward t (c ∷ cs) = (coord_lt c.begin t.cur_pos ≡ false) × Forward (update t c) cs

-- The tracker's positions have the same text behind them, one in the old lines, one in the new.
pub record Tracks (t : ForwardChangesTracker) (ls ls' : BufferLines) : Type 0 where
  pub old_valid : Valid ls t.old_pos
  pub cur_valid : Valid ls' t.cur_pos
  pub same : text_after ls t.old_pos ≡ text_after ls' t.cur_pos

pub coord_lt_trans :
    (a b c : BufferCoord) → coord_lt b a ≡ false → coord_lt c b ≡ false → coord_lt c a ≡ false
unfolding coord_lt
coord_lt_trans a b c h k = ground arith

module _ (ls : BufferLines) (w : WellFormed ls) where
  update_typed-Tracks :
      (type : ChangeType) (begin end : BufferCoord) (t : ForwardChangesTracker)
      (ls' ls'' : BufferLines)
      → WellFormed ls'
      → Tracks t ls ls'
      → DescribesTyped type begin end ls' ls''
      → coord_lt begin t.cur_pos ≡ false
      → Tracks (update t (record { type = type; begin = begin; end = end })) ls ls''
  unfolding update get_old_coord
  update_typed-Tracks inserts begin end t ls' ls'' w' k (v, v', e) h =
      let (p, q, _) =
        shift_lem ls' ls t.cur_pos t.old_pos begin w' w k.cur_valid k.old_valid (sym k.same) v h in
      record { old_valid = p; cur_valid = v'; same = q ∙ sym e }
  update_typed-Tracks erases begin end t ls' ls'' w' k (v, v', e, after) h =
      let (p, q, _) =
        shift_lem ls' ls t.cur_pos t.old_pos end w' w k.cur_valid k.old_valid (sym k.same) v
          (coord_lt_trans t.cur_pos begin end h after) in
      record { old_valid = p; cur_valid = v'; same = q ∙ sym e }

  update_all-Tracks :
      (t : ForwardChangesTracker) (cs : List Change) (ls' ls'' : BufferLines)
      → WellFormed ls'
      → Tracks t ls ls'
      → Logged ls' cs ls''
      → Forward t cs
      → Tracks (update_all t cs) ls ls'' × WellFormed ls''
  unfolding update_all
  update_all-Tracks t cs ls' ls'' w' k (unchanged _) f = (k, w')
  update_all-Tracks t cs ls' ls'' w' k (changed c rest _ ls1 _ d l) f =
      update_all-Tracks (update t c) rest ls1 ls'' d.well_formed
        (update_typed-Tracks c.type c.begin c.end t ls' ls1 w' k d.typed f.0) l f.1

new_tracker-Tracks : (ls : BufferLines) → WellFormed ls → Tracks new_tracker ls ls
new_tracker-Tracks ls w = record {
  old_valid = origin-Valid ls w;
  cur_valid = origin-Valid ls w;
  same = refl;
}

shift-shift : (b e c : BufferCoord) → coord_lt c b ≡ false → shift e b (shift b e c) ≡ c
unfolding coord_lt
shift-shift b e c h = λ i. record { line = line i; column = column i }
  where
    line : c.line + e.line - b.line + b.line - e.line ≡ c.line
    line = ground arith

    column : (shift e b (shift b e c)).column ≡ c.column
    column = ground arith

-- Changes that describe how well-formed lines become others, each not before the one before it, are
-- followed by a tracker from the start: any valid position that is not before its old position goes
-- to a valid position in the new lines with the same text behind it, and get_old_coord takes that
-- back to the position.
pub update_all_lem :
    (ls ls' : BufferLines) (cs : List Change) (c : BufferCoord)
    → WellFormed ls
    → Logged ls cs ls'
    → Forward new_tracker cs
    → Valid ls c
    → let t = update_all new_tracker cs in
      coord_lt c t.old_pos ≡ false
      → Valid ls' (get_new_coord t c)
        × (text_after ls' (get_new_coord t c) ≡ text_after ls c)
        × (get_old_coord t (get_new_coord t c) ≡ c)
unfolding get_new_coord get_old_coord
update_all_lem ls ls' cs c w l f v h =
    let t = update_all new_tracker cs in
    let (k, w') = update_all-Tracks ls w new_tracker cs ls ls' w (new_tracker-Tracks ls w) l f in
    let (p, q, _) =
      shift_lem ls ls' t.old_pos t.cur_pos c w w' k.old_valid k.cur_valid k.same v h in
    (p, q, shift-shift t.old_pos t.cur_pos c h)
