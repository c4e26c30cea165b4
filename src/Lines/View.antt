-- ===== src/Lines/View.antt =====
-- The text that the lines of a buffer hold (src/buffer.cc), cut at a coordinate into what stands
-- before and what stands after it.
use kakoune.Prelude.{
  ℕ, zero, suc, ◌+◌, ◌<◌, ◌≡◌, refl, ap, ◌∙◌, ◌↔◌, ◌⊎◌, inl, inr, true, [], ◌∷◌, ◌++◌, append_assoc,
  arith, length, take, drop, length-append, take-nil, sym, length-take, take-append-drop,
}
use kakoune.Coord.{BufferCoord, coord}
use kakoune.Lines.{Bytes, BufferLines, line_at, is_valid, total_length}

-- All the bytes of the buffer, in order.
abbrev pub text : BufferLines → Bytes
text [] = []
text (x ∷ xs) = x ++ text xs

abbrev pub before : BufferLines → ℕ → ℕ → Bytes
before [] l col = []
before (x ∷ xs) zero col = take col x
before (x ∷ xs) (suc l) col = x ++ before xs l col

abbrev pub after : BufferLines → ℕ → ℕ → Bytes
after [] l col = []
after (x ∷ xs) zero col = drop col x ++ text xs
after (x ∷ xs) (suc l) col = after xs l col

-- The coordinate of a byte, or the end coordinate.
abbrev pub IsAt : BufferLines → ℕ → ℕ → Type 0
IsAt [] l col = (l ≡ 0) × (col ≡ 0)
IsAt (x ∷ xs) zero col = col < length x
IsAt (x ∷ xs) (suc l) col = IsAt xs l col

abbrev pub Valid : BufferLines → BufferCoord → Type 0
Valid ls c = IsAt ls c.line c.column

abbrev pub text_before : BufferLines → BufferCoord → Bytes
text_before ls c = before ls c.line c.column

abbrev pub text_after : BufferLines → BufferCoord → Bytes
text_after ls c = after ls c.line c.column

pub text-append : (xs ys : BufferLines) → text (xs ++ ys) ≡ text xs ++ text ys
text-append [] ys = refl
text-append (x ∷ xs) ys = simp (text-append xs ys, append_assoc)

pub length-text : (xs : BufferLines) → length (text xs) ≡ total_length xs
length-text [] = refl
length-text (x ∷ xs) = omega (arith, length-append x (text xs), length-text xs)

pub before-append-after :
    (ls : BufferLines) (l col : ℕ) → before ls l col ++ after ls l col ≡ text ls
before-append-after [] l col = refl
before-append-after (x ∷ xs) zero col =
    rw (← append_assoc (take col x) (drop col x) (text xs), take-append-drop col x)
before-append-after (x ∷ xs) (suc l) col =
    append_assoc x (before xs l col) (after xs l col) ∙ ap (x ++◌) (before-append-after xs l col)

-- The test of the source agrees with the predicate.
is_valid-true : (ls : BufferLines) (l col : ℕ) → is_valid ls (coord l col) ≡ true → IsAt ls l col
unfolding is_valid
is_valid-true [] l col h = ground arith
is_valid-true (x ∷ xs) zero col h = ground arith
is_valid-true (x ∷ xs) (suc l) col h = is_valid-true xs l col (ground arith)

IsAt-is_valid : (ls : BufferLines) (l col : ℕ) → IsAt ls l col → is_valid ls (coord l col) ≡ true
unfolding is_valid
IsAt-is_valid [] l col h = ground arith
IsAt-is_valid (x ∷ xs) zero col h = ground arith
IsAt-is_valid (x ∷ xs) (suc l) col h = ground (arith, IsAt-is_valid xs l col h)

-- is_valid is true exactly at the coordinate of a byte and at the end coordinate.
pub is_valid_iff : (ls : BufferLines) (c : BufferCoord) → (is_valid ls c ≡ true) ↔ Valid ls c
is_valid_iff ls c = (is_valid-true ls c.line c.column, IsAt-is_valid ls c.line c.column)

-- A valid coordinate is the end, or stands in a line.
pub IsAt-cases :
    (ls : BufferLines) (l col : ℕ)
    → IsAt ls l col
    → ((l ≡ length ls) × (col ≡ 0)) ⊎ ((l < length ls) × (col < length (line_at ls l)))
IsAt-cases [] l col h = inl h
IsAt-cases (x ∷ xs) zero col h = inr (omega arith, h)
IsAt-cases (x ∷ xs) (suc l) col h = elim (IsAt-cases xs l col h) [
  | inl (p, q) ↦ inl (omega arith, q)
  | inr (p, q) ↦ inr (omega arith, q)
]

pub IsAt-end : (ls : BufferLines) → IsAt ls (length ls) 0
IsAt-end [] = (refl, refl)
IsAt-end (x ∷ xs) = IsAt-end xs

pub before-end : (ls : BufferLines) (col : ℕ) → before ls (length ls) col ≡ text ls
before-end [] col = refl
before-end (x ∷ xs) col = ap (x ++◌) (before-end xs col)

pub after-end : (ls : BufferLines) (col : ℕ) → after ls (length ls) col ≡ []
after-end [] col = refl
after-end (x ∷ xs) col = after-end xs col

-- The number of bytes before a coordinate.
pub length-before :
    (ls : BufferLines) (l col : ℕ)
    → IsAt ls l col
    → length (before ls l col) ≡ total_length (take l ls) + col
length-before [] zero col h = omega arith
length-before [] (suc l) col h = omega arith
length-before (x ∷ xs) zero col h = omega (arith, length-take col x)
length-before (x ∷ xs) (suc l) col h =
    omega (arith, length-append x (before xs l col), length-before xs l col h)

-- Two valid coordinates with as many bytes before them are one.
pub IsAt-unique :
    (ls : BufferLines) (l col l' col' : ℕ)
    → IsAt ls l col
    → IsAt ls l' col'
    → length (before ls l col) ≡ length (before ls l' col')
    → (l ≡ l') × (col ≡ col')
IsAt-unique [] l col l' col' h h' e = omega arith
IsAt-unique (x ∷ xs) zero col zero col' h h' e =
    omega (arith, length-take col x, length-take col' x)
IsAt-unique (x ∷ xs) zero col (suc l') col' h h' e =
    absurd (omega (arith, length-take col x, length-append x (before xs l' col')))
IsAt-unique (x ∷ xs) (suc l) col zero col' h h' e =
    absurd (omega (arith, length-take col' x, length-append x (before xs l col)))
IsAt-unique (x ∷ xs) (suc l) col (suc l') col' h h' e =
    let (p, q) =
      IsAt-unique xs l col l' col' h h'
        (omega (arith, length-append x (before xs l col), length-append x (before xs l' col'))) in
    (omega arith, q)

-- A coordinate in the lines that follow some others.
pub before-append :
    (xs ys : BufferLines) (l col : ℕ)
    → l ≡ length xs
    → before (xs ++ ys) l col ≡ text xs ++ before ys 0 col
before-append [] ys zero col e = refl
before-append [] ys (suc l) col e = absurd (omega arith)
before-append (x ∷ xs) ys zero col e = absurd (omega arith)
before-append (x ∷ xs) ys (suc l) col e =
    ap (x ++◌) (before-append xs ys l col (omega arith))
    ∙ sym (append_assoc x (text xs) (before ys 0 col))

pub IsAt-append :
    (xs ys : BufferLines) (l col : ℕ) → l ≡ length xs → IsAt ys 0 col → IsAt (xs ++ ys) l col
IsAt-append [] ys zero col e h = h
IsAt-append [] ys (suc l) col e h = absurd (omega arith)
IsAt-append (x ∷ xs) ys zero col e h = absurd (omega arith)
IsAt-append (x ∷ xs) ys (suc l) col e h = IsAt-append xs ys l col (omega arith) h

pub before-take :
    (ls : BufferLines) (l col : ℕ) → before ls l col ≡ text (take l ls) ++ take col (line_at ls l)
before-take [] zero col = sym (take-nil col)
before-take [] (suc l) col = sym (take-nil col)
before-take (x ∷ xs) zero col = refl
before-take (x ∷ xs) (suc l) col =
    ap (x ++◌) (before-take xs l col)
    ∙ sym (append_assoc x (text (take l xs)) (take col (line_at xs l)))

pub after-drop : (ls : BufferLines) (l col : ℕ) → after ls l col ≡ after (drop l ls) 0 col
after-drop ls zero col = refl
after-drop [] (suc l) col = refl
after-drop (x ∷ xs) (suc l) col = after-drop xs l col

pub drop_cons :
    (ls : BufferLines) (l : ℕ) → l < length ls → drop l ls ≡ line_at ls l ∷ drop (suc l) ls
drop_cons [] l h = absurd (omega arith)
drop_cons (x ∷ xs) zero h = refl
drop_cons (x ∷ xs) (suc l) h = drop_cons xs l (omega arith)
