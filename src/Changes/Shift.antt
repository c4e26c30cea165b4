-- ===== src/Changes/Shift.antt =====
-- Where two positions have the same text behind them, the positions behind them correspond
-- (get_old_coord and get_new_coord of src/changes.cc).
use kakoune.Prelude.{
  ℕ, zero, suc, ◌+◌, ◌-◌, ◌≤◌, ◌≡◌, refl, sym, ap, subst, ◌∙◌, false, [], ◌∷◌, ◌++◌, arith, drop,
  drop-nil, length-drop, ◌↔◌, ◌==◌, if◌then◌else◌,
}
use kakoune.Coord.{BufferCoord, coord, coord_lt}
use kakoune.Lines.{Bytes, BufferLines}
use kakoune.Lines.View.{text, after, IsAt, Valid, text_after}
use kakoune.Lines.WellFormed.{WellFormed, IsLine-drop, text_injective}

-- The lines from a position on, the first of them from its column.
abbrev pub tail : BufferLines → ℕ → ℕ → BufferLines
tail [] l col = []
tail (x ∷ xs) zero col = drop col x ∷ xs
tail (x ∷ xs) (suc l) col = tail xs l col

text-tail : (ls : BufferLines) (l col : ℕ) → text (tail ls l col) ≡ after ls l col
text-tail [] l col = refl
text-tail (x ∷ xs) zero col = refl
text-tail (x ∷ xs) (suc l) col = text-tail xs l col

tail-WellFormed :
    (ls : BufferLines) (l col : ℕ) → WellFormed ls → IsAt ls l col → WellFormed (tail ls l col)
tail-WellFormed [] l col w v = tt
tail-WellFormed (x ∷ xs) zero col w v = (IsLine-drop col x v w.0, w.1)
tail-WellFormed (x ∷ xs) (suc l) col w v = tail-WellFormed xs l col w.1 v

drop-drop : (a b n : ℕ) (x : Bytes) → n ≡ b + a → drop a (drop b x) ≡ drop n x
drop-drop a zero n x e = ap (λ k. drop k x) (omega arith)
drop-drop a (suc b) zero x e = absurd (omega arith)
drop-drop a (suc b) (suc n) [] e = drop-nil a
drop-drop a (suc b) (suc n) (y ∷ x) e = drop-drop a b n x (omega arith)

-- The column in the tail of a column that is `d` lines behind.
abbrev rest_column : ℕ → ℕ → ℕ → ℕ
rest_column zero col from = col - from
rest_column (suc d) col from = col

-- A position `d` lines behind another is one of the tail, and has the same text behind it.
tail-after :
    (ls : BufferLines) (l from d col j : ℕ)
    → j ≡ l + d
    → (d ≡ 0 → from ≤ col)
    → after ls j col ≡ after (tail ls l from) d (rest_column d col from)
tail-after [] l from d col j e h = refl
tail-after (x ∷ xs) zero from zero col zero e h =
    ap (λ t. t ++ text xs) (sym (drop-drop (col - from) from col x (omega (arith, h refl))))
tail-after (x ∷ xs) zero from zero col (suc j) e h = absurd (omega arith)
tail-after (x ∷ xs) zero from (suc d) col zero e h = absurd (omega arith)
tail-after (x ∷ xs) zero from (suc d) col (suc j) e h = ap (λ n. after xs n col) (omega arith)
tail-after (x ∷ xs) (suc l) from d col zero e h = absurd (omega arith)
tail-after (x ∷ xs) (suc l) from d col (suc j) e h = tail-after xs l from d col j (omega arith) h

tail-IsAt :
    (ls : BufferLines) (l from d col j : ℕ)
    → j ≡ l + d
    → IsAt ls l from
    → (d ≡ 0 → from ≤ col)
    → IsAt ls j col ↔ IsAt (tail ls l from) d (rest_column d col from)
tail-IsAt [] l from zero col j e v h = (λ k. (refl, omega arith), λ k. (omega arith, omega arith))
tail-IsAt [] l from (suc d) col j e v h = (λ k. absurd (omega arith), λ k. absurd (omega arith))
tail-IsAt (x ∷ xs) zero from zero col zero e v h =
    (λ k. omega (arith, length-drop from x, h refl), λ k. omega (arith, length-drop from x, h refl))
tail-IsAt (x ∷ xs) zero from zero col (suc j) e v h = absurd (omega arith)
tail-IsAt (x ∷ xs) zero from (suc d) col zero e v h = absurd (omega arith)
tail-IsAt (x ∷ xs) zero from (suc d) col (suc j) e v h =
    let same : j ≡ d = omega arith in
    (subst (λ n. IsAt xs n col) same, subst (λ n. IsAt xs n col) (sym same))
tail-IsAt (x ∷ xs) (suc l) from d col zero e v h = absurd (omega arith)
tail-IsAt (x ∷ xs) (suc l) from d col (suc j) e v h = tail-IsAt xs l from d col j (omega arith) v h

-- The position that stands to `e` as `c` stands to `b`.
abbrev pub shift : BufferCoord → BufferCoord → BufferCoord → BufferCoord
shift b e c =
    coord (c.line + e.line - b.line)
      (if b.line == c.line then c.column + e.column - b.column else c.column)

shift_column :
    (b e c : BufferCoord) (d : ℕ)
    → coord_lt c b ≡ false
    → c.line ≡ b.line + d
    → rest_column d (shift b e c).column e.column ≡ rest_column d c.column b.column
unfolding coord_lt
shift_column b e c zero h q = ground arith
shift_column b e c (suc d) h q = ground arith

pub shift_not_before :
    (b e c : BufferCoord) → coord_lt c b ≡ false → coord_lt (shift b e c) e ≡ false
unfolding coord_lt
shift_not_before b e c h = ground arith

-- In well-formed lines, where two valid positions have the same text behind them, a valid position
-- that is not before the first one corresponds to a valid position that is not before the second,
-- again with the same text behind it.
pub shift_lem :
    (ls ls' : BufferLines) (b e c : BufferCoord)
    → WellFormed ls
    → WellFormed ls'
    → Valid ls b
    → Valid ls' e
    → text_after ls b ≡ text_after ls' e
    → Valid ls c
    → coord_lt c b ≡ false
    → Valid ls' (shift b e c)
      × (text_after ls' (shift b e c) ≡ text_after ls c)
      × (coord_lt (shift b e c) e ≡ false)
unfolding coord_lt
shift_lem ls ls' b e c w w' vb ve same vc h =
    let d = c.line - b.line in
    let at : c.line ≡ b.line + d = ground arith in
    let at' : (shift b e c).line ≡ e.line + d = ground arith in
    let in_line : d ≡ 0 → b.column ≤ c.column = ground arith in
    let in_line' : d ≡ 0 → e.column ≤ (shift b e c).column = ground arith in
    let tails : tail ls b.line b.column ≡ tail ls' e.line e.column =
      text_injective _ _ (tail-WellFormed ls b.line b.column w vb)
        (tail-WellFormed ls' e.line e.column w' ve)
        (text-tail ls b.line b.column ∙ same ∙ sym (text-tail ls' e.line e.column)) in
    let column = shift_column b e c d h at in
    let t' = tail ls' e.line e.column in
    let k = rest_column d c.column b.column in
    (
      (tail-IsAt ls' e.line e.column d (shift b e c).column (shift b e c).line at' ve in_line').1 (
          subst (IsAt t' d) (sym column) (
            subst (λ ts. IsAt ts d k) tails
              ((tail-IsAt ls b.line b.column d c.column c.line at vb in_line).0 vc))),
      tail-after ls' e.line e.column d (shift b e c).column (shift b e c).line at' in_line'
          ∙ ap (after t' d) column
          ∙ ap (λ ts. after ts d k) (sym tails)
          ∙ sym (tail-after ls b.line b.column d c.column c.line at in_line),
      shift_not_before b e c h,
    )
