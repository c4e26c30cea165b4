-- ===== src/LineRangeSet.antt =====
-- struct LineRangeSet (src/line_modification.hh, line_modification.cc): ranges of lines in order.
--
-- The calls of on_new_range are returned as a list, in the order they are made. The searches with
-- std::lower_bound are on ranges in order, where it stops at the first one that does not satisfy the
-- test.
pub mod Add
pub mod Union
pub mod Remove
use kakoune.Prelude.{
  ℕ, zero, suc, min, max, ◌≡◌, Bool, true, false, ◌&&◌, ◌||◌, List, [], ◌∷◌, ◌++◌, ltb, leb,
  if◌then◌else◌,
}

-- Range<LineCount>
pub record LineRange : Type 0 where
  pub begin : ℕ
  pub end : ℕ

abbrev pub line_range : ℕ → ℕ → LineRange
line_range b e = record { begin = b; end = e }

-- The ranges before the first that does not end before the line, and the others.
unfoldable pub split_before : ℕ → List LineRange → List LineRange × List LineRange
split_before line [] = ([], [])
split_before line (r ∷ rs) =
    let rest = split_before line rs in if ltb r.end line then (r ∷ rest.0, rest.1) else ([], r ∷ rs)

-- What the loop of add_range has found.
pub record Merged : Type 0 where
  pub range : LineRange
  pub pos : ℕ
  pub new_ranges : List LineRange
  pub rest : List LineRange

-- on_new_range, where there is something new
abbrev pub gap : ℕ → ℕ → List LineRange
gap pos end = if ltb pos end then line_range pos end ∷ [] else []

unfoldable pub merge_loop : LineRange → ℕ → List LineRange → Merged
merge_loop range pos [] = record { range = range; pos = pos; new_ranges = []; rest = [] }
merge_loop range pos (r ∷ rs) =
    let merged = merge_loop (line_range (min range.begin r.begin) (max range.end r.end)) r.end rs in
    if leb r.begin range.end
    then record merged { new_ranges = gap pos r.begin ++ merged.new_ranges }
    else record { range = range; pos = pos; new_ranges = []; rest = r ∷ rs }

-- insert_at == end() or insert_at->begin > range.end
abbrev pub starts_behind : List LineRange → ℕ → Bool
starts_behind [] line = true
starts_behind (r ∷ rs) line = ltb line r.begin

-- What add_range does at the place that the search found, with the new ranges.
abbrev pub add_at : List LineRange × List LineRange → LineRange → List LineRange × List LineRange
add_at split range =
    let merged = merge_loop range range.begin split.1 in
    if starts_behind split.1 range.end then (split.0 ++ range ∷ split.1, range ∷ []) else (
      split.0 ++ merged.range ∷ merged.rest,
      merged.new_ranges ++ gap merged.pos merged.range.end,
    )

unfoldable pub add_range : List LineRange → LineRange → List LineRange × List LineRange
add_range set range = add_at (split_before range.begin set) range

-- The lambda of remove_range.
abbrev pub inside : ℕ → LineRange → Bool
inside line range = leb range.begin line && ltb line range.end

-- The body of the loop of remove_range: what the range at the iterator becomes, with what is
-- inserted before it.
abbrev pub cut_range : LineRange → LineRange → LineRange
cut_range range r =
    let begin = if inside r.begin range then range.end else r.begin in
    let end = if inside r.end range then range.begin else r.end in line_range begin end

abbrev pub kept_range : LineRange → List LineRange
kept_range r = if leb r.end r.begin then [] else r ∷ []

abbrev pub removed_from : LineRange → LineRange → List LineRange
removed_from range r =
    if ltb r.begin range.begin && leb range.end r.end
    then line_range r.begin range.begin ∷ kept_range (cut_range range (line_range range.end r.end))
    else kept_range (cut_range range r)

unfoldable pub remove_loop : LineRange → List LineRange → List LineRange
remove_loop range [] = []
remove_loop range (r ∷ rs) =
    let rest = remove_loop range rs in
    if leb r.begin range.end then removed_from range r ++ rest else r ∷ rs

unfoldable pub remove_range : List LineRange → LineRange → List LineRange
remove_range set range =
    let split = split_before range.begin set in
    if starts_behind split.1 range.end then set else split.0 ++ remove_loop range split.1

-- Whether a line is in a range, and in one of some ranges.
unfoldable pub contains : List LineRange → ℕ → Bool
contains [] line = false
contains (r ∷ rs) line = inside line r || contains rs line
