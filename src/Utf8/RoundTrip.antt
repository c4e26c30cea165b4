-- ===== src/Utf8/RoundTrip.antt =====
-- Encoding and decoding of one code point (src/utf8.hh: dump, read_codepoint, codepoint_size).
use kakoune.Prelude.{
  ℕ, ◌≤◌, ◌+◌, ◌/◌, ◌%◌, ◌≡◌, refl, ap, ◌∙◌, inl, inr, true, false, [], ◌∷◌, ◌++◌, leb, arith,
  length, Bool-cases, All, get_or,
}
use kakoune.Prelude.Bytes.{Bytes}
use kakoune.Utf8.{
  read_codepoint, read_codepoint_multibyte, size_of_byte, codepoint_size, dump, is_character_start,
}

-- A code point of Unicode.
abbrev pub IsCodepoint : ℕ → Type 0
IsCodepoint cp = cp ≤ 1114111

-- What dump writes is read back as the same code point, with the reader right behind it.
pub read_codepoint-dump :
    (cp : ℕ) (rest : Bytes) → IsCodepoint cp → read_codepoint (dump cp ++ rest) ≡ (cp, rest)
unfolding read_codepoint read_codepoint_multibyte dump
read_codepoint-dump cp rest h = elim (Bool-cases (leb cp 127)) [
  | inl q ↦ rw q (ground arith)
  | inr q ↦ elim (Bool-cases (leb cp 2047)) [
    | inl q2 ↦ rw (q, q2) (ground arith)
    | inr q2 ↦ elim (Bool-cases (leb cp 65535)) [
      | inl q3 ↦ rw (q, q2, q3) (ground arith)
      | inr q3 ↦ elim (Bool-cases (leb cp 1114111)) [
        | inl q4 ↦ rw (q, q2, q3, q4) (ground arith)
        | inr q4 ↦ absurd (ground arith)
      ]
    ]
  ]
]

-- Bytes inside a character.
abbrev pub AreInside : Bytes → Type 0
AreInside s = All (λ c. is_character_start c ≡ false) s

-- The bytes of one character: a first byte that tells their number, and bytes inside.
pub record IsCharacter (s : Bytes) : Type 0 where
  pub first : ℕ
  pub others : Bytes
  pub is_cons : s ≡ first ∷ others
  pub starts : is_character_start first ≡ true
  pub inside : AreInside others
  pub size : size_of_byte first ≡ length s

inside_byte : (n : ℕ) → is_character_start (128 + n % 64) ≡ false
unfolding is_character_start
inside_byte n = ground arith

pub dump-IsCharacter : (cp : ℕ) → IsCodepoint cp → IsCharacter (dump cp)
unfolding dump size_of_byte is_character_start
dump-IsCharacter cp h = elim (Bool-cases (leb cp 127)) [
  | inl q ↦ rw q (record {
    first = cp;
    others = [];
    is_cons = refl;
    starts = ground arith;
    inside = tt;
    size = ground arith;
  })
  | inr q ↦ elim (Bool-cases (leb cp 2047)) [
    | inl q2 ↦
        rw (q, q2)
          (record {
            first = 192 + cp / 64;
            others = (128 + cp % 64) ∷ [];
            is_cons = refl;
            starts = ground arith;
            inside = (ground arith, tt);
            size = ground arith;
          })
    | inr q2 ↦ elim (Bool-cases (leb cp 65535)) [
      | inl q3 ↦
          rw (q, q2, q3)
            (record {
              first = 224 + cp / 4096;
              others = (128 + cp / 64 % 64) ∷ (128 + cp % 64) ∷ [];
              is_cons = refl;
              starts = ground arith;
              inside = (ground arith, (ground arith, tt));
              size = ground arith;
            })
      | inr q3 ↦
          let q4 : leb cp 1114111 ≡ true = ground arith in
          rw (q, q2, q3, q4)
            (record {
              first = 240 + cp / 262144;
              others = (128 + cp / 4096 % 64) ∷ (128 + cp / 64 % 64) ∷ (128 + cp % 64) ∷ [];
              is_cons = refl;
              starts = ground arith;
              inside = (ground arith, (ground arith, (ground arith, tt)));
              size = ground arith;
            })
    ]
  ]
]

-- Both ways to tell the size of a character, from its code point and from its first byte, give
-- the number of bytes that dump writes.
pub codepoint_size-dump :
    (cp : ℕ)
    → IsCodepoint cp
    → (codepoint_size cp ≡ length (dump cp))
      × (size_of_byte (get_or (dump cp) 0 0) ≡ length (dump cp))
unfolding codepoint_size
codepoint_size-dump cp h =
    let c = dump-IsCharacter cp h in
    (unfold dump in ground arith, ap (λ s. size_of_byte (get_or s 0 0)) c.is_cons ∙ c.size)
