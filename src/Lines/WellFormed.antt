-- ===== src/Lines/WellFormed.antt =====
-- Well-formed lines (Buffer::check_invariant in src/buffer.cc): each line is not empty, ends in a
-- newline, and has no other newline in it. Such lines are determined by their text.
use kakoune.Prelude.{
  ℕ, zero, suc, ◌<◌, ◌≡◌, ◌≢◌, refl, sym, ◌∙◌, List, [], ◌∷◌, ◌++◌, arith, length, take, drop, All,
  append-nil,
}
use kakoune.Lines.{Bytes, BufferLines, newline, back, line_at}
use kakoune.Lines.View.{text, after, IsAt}

abbrev pub IsLine : Bytes → Type 0
IsLine [] = ⊥
IsLine (c ∷ []) = c ≡ newline
IsLine (c ∷ d ∷ r) = (c ≢ newline) × IsLine (d ∷ r)

-- Bytes without a newline.
abbrev pub NoNewline : Bytes → Type 0
NoNewline = All (λ c. c ≢ newline)

abbrev pub WellFormed : BufferLines → Type 0
WellFormed = All IsLine

module _ {ℓ κ} {A : Type ℓ} (P : A → Type κ) where
  pub All-append : (xs ys : List A) → All P xs → All P ys → All P (xs ++ ys)
  All-append [] ys h k = k
  All-append (x ∷ xs) ys h k = (h.0, All-append xs ys h.1 k)

  pub All-take : (n : ℕ) (xs : List A) → All P xs → All P (take n xs)
  All-take zero xs h = tt
  All-take (suc n) [] h = tt
  All-take (suc n) (x ∷ xs) h = (h.0, All-take n xs h.1)

  pub All-drop : (n : ℕ) (xs : List A) → All P xs → All P (drop n xs)
  All-drop zero xs h = h
  All-drop (suc n) [] h = tt
  All-drop (suc n) (x ∷ xs) h = All-drop n xs h.1

pub IsLine-append : (xs ys : Bytes) → NoNewline xs → IsLine ys → IsLine (xs ++ ys)
IsLine-append [] ys h k = k
IsLine-append (x ∷ []) [] h k = absurd k
IsLine-append (x ∷ []) (y ∷ ys) h k = (h.0, k)
IsLine-append (x ∷ x' ∷ xs) ys h k = (h.0, IsLine-append (x' ∷ xs) ys h.1 k)

pub IsLine-drop : (n : ℕ) (xs : Bytes) → n < length xs → IsLine xs → IsLine (drop n xs)
IsLine-drop zero xs h k = k
IsLine-drop (suc n) [] h k = absurd k
IsLine-drop (suc n) (x ∷ []) h k = absurd (omega arith)
IsLine-drop (suc n) (x ∷ y ∷ xs) h k = IsLine-drop n (y ∷ xs) (omega arith) k.1

pub NoNewline-take : (n : ℕ) (xs : Bytes) → n < length xs → IsLine xs → NoNewline (take n xs)
NoNewline-take zero xs h k = tt
NoNewline-take (suc n) [] h k = absurd k
NoNewline-take (suc n) (x ∷ []) h k = absurd (omega arith)
NoNewline-take (suc n) (x ∷ y ∷ xs) h k = (k.0, NoNewline-take n (y ∷ xs) (omega arith) k.1)

pub length-line-pos : (x : Bytes) → IsLine x → 0 < length x
length-line-pos [] h = absurd h
length-line-pos (c ∷ r) h = omega arith

pub line_at-IsLine :
    (ls : BufferLines) (l : ℕ) → l < length ls → WellFormed ls → IsLine (line_at ls l)
line_at-IsLine [] l h w = absurd (omega arith)
line_at-IsLine (x ∷ xs) zero h w = w.0
line_at-IsLine (x ∷ xs) (suc l) h w = line_at-IsLine xs l (omega arith) w.1

-- The first line of a text is found by its newline.
line_cancel :
    (x y : Bytes) {a b : Bytes} → IsLine x → IsLine y → x ++ a ≡ y ++ b → (x ≡ y) × (a ≡ b)
line_cancel [] y h k e = absurd h
line_cancel (c ∷ r) [] h k e = absurd k
line_cancel (c ∷ []) (d ∷ []) h k e = (cc, cc)
line_cancel (c ∷ []) (d ∷ d' ∷ s) h k e = absurd (k.0 (cc))
line_cancel (c ∷ c' ∷ r) (d ∷ []) h k e = absurd (h.0 (cc))
line_cancel (c ∷ c' ∷ r) (d ∷ d' ∷ s) {a} {b} h k e =
    let tails : (c' ∷ r) ++ a ≡ (d' ∷ s) ++ b = cc in
    let (p, q) = line_cancel (c' ∷ r) (d' ∷ s) h.1 k.1 tails in (cc, q)

line_ne_nil : (x a : Bytes) → IsLine x → x ++ a ≢ []
line_ne_nil [] a h e = h
line_ne_nil (c ∷ r) a h e = cc

-- Well-formed lines with the same text are the same lines.
pub text_injective :
    (ls ls' : BufferLines) → WellFormed ls → WellFormed ls' → text ls ≡ text ls' → ls ≡ ls'
text_injective [] [] w w' e = refl
text_injective [] (y ∷ ys) w w' e = absurd (line_ne_nil y _ w'.0 (sym e))
text_injective (x ∷ xs) [] w w' e = absurd (line_ne_nil x _ w.0 e)
text_injective (x ∷ xs) (y ∷ ys) w w' e =
    let (p, q) = line_cancel x y w.0 w'.0 e in let rest = text_injective xs ys w.1 w'.1 q in cc

pub back-append : (xs ys : Bytes) → ys ≢ [] → back (xs ++ ys) ≡ back ys
back-append [] ys h = refl
back-append (x ∷ []) [] h = absurd (h refl)
back-append (x ∷ []) (y ∷ ys) h = refl
back-append (x ∷ x' ∷ xs) ys h = back-append (x' ∷ xs) ys h

pub back-line : (x : Bytes) → IsLine x → back x ≡ newline
back-line [] h = absurd h
back-line (c ∷ []) h = h
back-line (c ∷ d ∷ r) h = back-line (d ∷ r) h.1

-- The text of a buffer that has lines ends in a newline.
pub back-text : (ls : BufferLines) → WellFormed ls → text ls ≢ [] → back (text ls) ≡ newline
back-text [] w h = absurd (h refl)
back-text (x ∷ []) w h = rw (append-nil x) (back-line x w.0)
back-text (x ∷ y ∷ ys) w h =
    back-append x (text (y ∷ ys)) (line_ne_nil y _ w.1.0)
    ∙ back-text (y ∷ ys) w.1 (line_ne_nil y _ w.1.0)

-- So does what stands after a coordinate.
pub back-after :
    (ls : BufferLines) (l col : ℕ)
    → WellFormed ls
    → IsAt ls l col
    → after ls l col ≢ []
    → back (after ls l col) ≡ newline
back-after [] l col w h ne = absurd (ne refl)
back-after (x ∷ xs) zero col w h ne = back-text (drop col x ∷ xs) (IsLine-drop col x h w.0, w.1) ne
back-after (x ∷ xs) (suc l) col w h ne = back-after xs l col w.1 h ne

-- What stands after a coordinate is empty at the end only.
pub after-ne-nil :
    (ls : BufferLines) (l col : ℕ)
    → WellFormed ls
    → l < length ls
    → IsAt ls l col
    → after ls l col ≢ []
after-ne-nil [] l col w lt h = absurd (omega arith)
after-ne-nil (x ∷ xs) zero col w lt h = line_ne_nil (drop col x) _ (IsLine-drop col x h w.0)
after-ne-nil (x ∷ xs) (suc l) col w lt h = after-ne-nil xs l col w.1 (omega arith) h
