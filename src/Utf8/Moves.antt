-- ===== src/Utf8/Moves.antt =====
-- Moving by characters in a text of whole characters (src/utf8.hh: to_next, advance, distance,
-- to_previous, character_start).
use kakoune.Prelude.{
  ℕ, zero, suc, ◌+◌, ◌-◌, ◌≤◌, ◌<◌, ◌≡◌, refl, sym, ap, ◌∙◌, true, false, List, [], ◌∷◌, ◌++◌,
  arith, length, drop, drop-nil, get_or, All,
}
use kakoune.Prelude.Bytes.{Bytes}
use kakoune.Utf8.{
  is_character_start, dump, finish, to_next, advance_forward, distance, character_start,
  to_previous, codepoint_size,
}
use kakoune.Utf8.RoundTrip.{IsCodepoint, AreInside, dump-IsCharacter, codepoint_size-dump}

-- The text of a list of code points.
unfoldable pub encode : List ℕ → Bytes
encode [] = []
encode (cp ∷ cps) = dump cp ++ encode cps

abbrev pub AreCodepoints : List ℕ → Type 0
AreCodepoints cps = All IsCodepoint cps

finish-inside : (t rest : Bytes) → AreInside t → finish (t ++ rest) ≡ finish rest
unfolding finish
finish-inside [] rest h = refl
finish-inside (c ∷ t) rest h = rw (h.0) (finish-inside t rest h.1)

finish-encode : (cps : List ℕ) → AreCodepoints cps → finish (encode cps) ≡ encode cps
unfolding encode finish
finish-encode [] h = refl
finish-encode (cp ∷ cps) h = let c = dump-IsCharacter cp h.0 in rw (c.is_cons, c.starts)

to_next-encode :
    (cp : ℕ) (cps : List ℕ)
    → IsCodepoint cp
    → AreCodepoints cps
    → to_next (encode (cp ∷ cps)) ≡ encode cps
unfolding encode to_next
to_next-encode cp cps h k =
    let c = dump-IsCharacter cp h in
    rw (c.is_cons) (finish-inside c.others (encode cps) c.inside ∙ finish-encode cps k)

advance_nil : (n : ℕ) → advance_forward [] n ≡ []
unfolding advance_forward
advance_nil n = refl

advance_zero : (s : Bytes) → advance_forward s 0 ≡ s
unfolding advance_forward
advance_zero [] = refl
advance_zero (c ∷ s) = refl

advance_suc :
    (cp : ℕ) (cps : List ℕ) (n : ℕ)
    → IsCodepoint cp
    → advance_forward (encode (cp ∷ cps)) (suc n) ≡ advance_forward (to_next (encode (cp ∷ cps))) n
unfolding encode advance_forward
advance_suc cp cps n h = let c = dump-IsCharacter cp h in rw (c.is_cons)

-- In a text of whole characters, advance by `n` characters drops the first `n` of them.
pub advance_forward-encode :
    (cps : List ℕ) (n : ℕ)
    → AreCodepoints cps
    → advance_forward (encode cps) n ≡ encode (drop n cps)
advance_forward-encode [] n h = unfold encode in advance_nil n ∙ ap encode (sym (drop-nil n))
advance_forward-encode (cp ∷ cps) zero h = advance_zero (encode (cp ∷ cps))
advance_forward-encode (cp ∷ cps) (suc n) h =
    advance_suc cp cps n h.0
    ∙ ap (λ s. advance_forward s n) (to_next-encode cp cps h.0 h.1)
    ∙ advance_forward-encode cps n h.1

distance-inside : (t rest : Bytes) → AreInside t → distance (t ++ rest) ≡ distance rest
unfolding distance
distance-inside [] rest h = refl
distance-inside (c ∷ t) rest h = rw (h.0) (omega (arith, distance-inside t rest h.1))

-- distance counts the characters of a text of whole characters.
pub distance-encode : (cps : List ℕ) → AreCodepoints cps → distance (encode cps) ≡ length cps
unfolding encode distance
distance-encode [] h = refl
distance-encode (cp ∷ cps) h =
    let c = dump-IsCharacter cp h.0 in
    let others = distance-inside c.others (encode cps) c.inside in
    rw (c.is_cons, c.starts) (omega (arith, others, distance-encode cps h.1))

-- Walking back over bytes inside a character ends at its first byte.
walk_back :
    (s : Bytes) (i k : ℕ)
    → is_character_start (get_or s i 0) ≡ true
    → ((j : ℕ) → i < j → j ≤ i + k → is_character_start (get_or s j 0) ≡ false)
    → character_start s (i + k) ≡ i
unfolding character_start
walk_back s zero zero h inside = refl
walk_back s (suc i) zero h inside = let e : suc i + 0 ≡ suc i = omega arith in rw e (rw h)
walk_back s i (suc k) h inside =
    let e : i + suc k ≡ suc (i + k) = omega arith in
    let skips = inside (suc (i + k)) (omega arith) (omega arith) in
    rw (e, skips) (walk_back s i k h (λ j a b. inside j a (omega arith)))

get_or-append_right :
    (xs ys : Bytes) (i d : ℕ) → get_or (xs ++ ys) (length xs + i) d ≡ get_or ys i d
get_or-append_right [] ys i d = ap (λ j. get_or ys j d) (omega arith)
get_or-append_right (x ∷ xs) ys i d =
    let e : suc (length xs) + i ≡ suc (length xs + i) = omega arith in
    rw e (get_or-append_right xs ys i d)

get_or-inside :
    (t rest : Bytes) (j : ℕ)
    → AreInside t
    → j < length t
    → is_character_start (get_or (t ++ rest) j 0) ≡ false
get_or-inside [] rest j h k = absurd (omega arith)
get_or-inside (c ∷ t) rest zero h k = h.0
get_or-inside (c ∷ t) rest (suc j) h k = get_or-inside t rest j h.1 (omega arith)

module _ (before others rest : Bytes) (first : ℕ) where
  abbrev around : Bytes
  around = before ++ (first ∷ (others ++ rest))

  first_starts :
      is_character_start first ≡ true → is_character_start (get_or around (length before) 0) ≡ true
  first_starts h =
      ap (λ i. is_character_start (get_or around i 0)) at
      ∙ ap is_character_start (get_or-append_right before (first ∷ (others ++ rest)) 0 0)
      ∙ h
    where
      at : length before ≡ length before + 0
      at = omega arith

  others_inside :
      AreInside others
      → (j : ℕ) → length before < j
      → j ≤ length before + length others
      → is_character_start (get_or around j 0) ≡ false
  others_inside h j a b =
      let at : j ≡ length before + suc (j - length before - 1) = omega arith in
      ap (λ i. is_character_start (get_or around i 0)) at
      ∙ ap is_character_start
          (get_or-append_right before (first ∷ (others ++ rest)) (suc (j - length before - 1)) 0)
      ∙ get_or-inside others rest (j - length before - 1) h (omega arith)

  back_over :
      is_character_start first ≡ true
      → AreInside others
      → to_previous around (suc (length before + length others)) ≡ length before
  unfolding to_previous
  back_over h k =
      walk_back around (length before) (length others) (first_starts h) (others_inside k)

-- From right behind a character, whatever stands before it and after it, to_previous goes to the
-- character's first byte.
pub to_previous-dump :
    (before rest : Bytes) (cp : ℕ)
    → IsCodepoint cp
    → to_previous (before ++ (dump cp ++ rest)) (length before + codepoint_size cp) ≡ length before
to_previous-dump before rest cp h =
    let c = dump-IsCharacter cp h in
    let size : codepoint_size cp ≡ suc (length c.others) =
      (codepoint_size-dump cp h).0 ∙ ap length c.is_cons in
    let at : length before + codepoint_size cp ≡ suc (length before + length c.others) =
      omega (arith, size) in
    rw (c.is_cons, at) (back_over before c.others rest c.first c.starts c.inside)
