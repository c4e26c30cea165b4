-- ===== src/Utf8.antt =====
-- UTF-8 (src/utf8.hh). An iterator is the list of the bytes from it to the end, or an index into
-- the string where the code walks backward. A mask of the high bits of a byte is a quotient here
-- and one of the low bits a remainder; `|` joins disjoint bits, and is a sum. Code points are
-- 32-bit unsigned numbers, and invalid input is passed on (InvalidPolicy::Pass).
pub mod RoundTrip
pub mod Moves
use kakoune.Prelude.{
  ℕ, zero, suc, ◌+◌, ◌-◌, ◌*◌, ◌/◌, ◌%◌, Bool, true, false, not, List, [], ◌∷◌, ltb, leb, ◌==◌,
  if◌then◌else◌, get_or,
}
use kakoune.Prelude.Bytes.{Bytes}

-- (c & 0xC0) != 0x80
unfoldable pub is_character_start : ℕ → Bool
is_character_start c = not (c / 64 == 2)

-- A byte of the high half as a `char`, made a Codepoint: the sign is extended.
abbrev pub sign_extended : ℕ → ℕ
sign_extended b = 4294967040 + b

abbrev pub third_byte : ℕ → Bytes → ℕ × Bytes
third_byte cp [] = (cp, [])
third_byte cp (d ∷ s) = (cp + d % 64, s)

abbrev pub third_and_fourth : ℕ → Bytes → ℕ × Bytes
third_and_fourth cp [] = (cp, [])
third_and_fourth cp (d ∷ s) = third_byte (cp + d % 64 * 64) s

unfoldable pub read_codepoint_multibyte : ℕ → Bytes → ℕ × Bytes
read_codepoint_multibyte b [] = (sign_extended b, [])
read_codepoint_multibyte b (c ∷ s) =
    if b / 32 == 6
    then (b % 32 * 64 + c % 64, s)
    else if b / 16 == 14
    then third_byte (b % 16 * 4096 + c % 64 * 64) s
    else if b / 8 == 30
    then third_and_fourth (b % 8 * 262144 + c % 64 * 4096) s
    else (sign_extended b, c ∷ s)

unfoldable pub read_codepoint : Bytes → ℕ × Bytes
read_codepoint [] = (4294967295, [])
read_codepoint (b ∷ s) = if b / 128 == 0 then (b, s) else read_codepoint_multibyte b s

-- codepoint_size of the first byte.
unfoldable pub size_of_byte : ℕ → ℕ
size_of_byte b =
    if b / 128 == 0
    then 1
    else if b / 32 == 6
    then 2
    else if b / 16 == 14
    then 3
    else if b / 8 == 30
    then 4
    else 1

-- codepoint_size of the code point.
unfoldable pub codepoint_size : ℕ → ℕ
codepoint_size cp =
    if leb cp 127
    then 1
    else if leb cp 2047
    then 2
    else if leb cp 65535
    then 3
    else if leb cp 1114111
    then 4
    else 0

unfoldable pub dump : ℕ → Bytes
dump cp =
    if leb cp 127
    then cp ∷ []
    else if leb cp 2047
    then (192 + cp / 64) ∷ (128 + cp % 64) ∷ []
    else if leb cp 65535
    then (224 + cp / 4096) ∷ (128 + cp / 64 % 64) ∷ (128 + cp % 64) ∷ []
    else if leb cp 1114111
    then (240 + cp / 262144) ∷ (128 + cp / 4096 % 64) ∷ (128 + cp / 64 % 64) ∷ (128 + cp % 64) ∷ []
    else []

-- The loop of to_next and of `finish`.
unfoldable pub finish : Bytes → Bytes
finish [] = []
finish (c ∷ s) = let rest = finish s in if is_character_start c then c ∷ s else rest

unfoldable pub to_next : Bytes → Bytes
to_next [] = []
to_next (c ∷ s) = finish s

-- advance by a count of characters that is not negative.
unfoldable pub advance_forward : Bytes → ℕ → Bytes
advance_forward [] d = []
advance_forward (c ∷ s) zero = c ∷ s
advance_forward (c ∷ s) (suc d) = advance_forward (to_next (c ∷ s)) d

unfoldable pub distance : Bytes → ℕ
distance [] = 0
distance (c ∷ s) = (if is_character_start c then 1 else 0) + distance s

-- The index of the first byte of the character that holds the byte at an index.
unfoldable pub character_start : Bytes → ℕ → ℕ
character_start s zero = 0
character_start s (suc i) =
    let before = character_start s i in
    if is_character_start (get_or s (suc i) 0) then suc i else before

unfoldable pub to_previous : Bytes → ℕ → ℕ
to_previous s zero = 0
to_previous s (suc i) = character_start s i
