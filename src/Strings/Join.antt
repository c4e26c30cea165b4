-- ===== src/Strings/Join.antt =====
-- Joining strings (src/string_utils.hh: join).
use kakoune.Prelude.{
  ◌≡◌, refl, sym, ◌∙◌, false, List, [], ◌∷◌, ◌++◌, append_assoc, append-nil, is_empty,
}
use kakoune.Prelude.Bytes.{Bytes}
use kakoune.Strings.{join_loop, join}

-- The parts, each with the joiner before it.
unfoldable pub joined : Bytes → List Bytes → Bytes
joined joiner [] = []
joined joiner (s ∷ ss) = joiner ++ (s ++ joined joiner ss)

is_empty-append : (s t : Bytes) → is_empty s ≡ false → is_empty (s ++ t) ≡ false
is_empty-append [] t h = absurd (cc)
is_empty-append (x ∷ s) t h = refl

join_loop-joined :
    (joiner res : Bytes) (ss : List Bytes)
    → is_empty res ≡ false
    → join_loop joiner res ss ≡ res ++ joined joiner ss
unfolding join_loop joined
join_loop-joined joiner res [] h = sym (append-nil res)
join_loop-joined joiner res (s ∷ ss) h = rw h (
    join_loop-joined joiner ((res ++ joiner) ++ s) ss
      (is_empty-append (res ++ joiner) s (is_empty-append res joiner h))
    ∙ append_assoc (res ++ joiner) s (joined joiner ss)
    ∙ append_assoc res joiner (s ++ joined joiner ss))

-- The joiner stands between the parts when the first is not empty.
pub join_lem :
    (joiner s : Bytes) (ss : List Bytes)
    → is_empty s ≡ false
    → join (s ∷ ss) joiner ≡ s ++ joined joiner ss
unfolding join join_loop
join_lem joiner s ss h = join_loop-joined joiner s ss h
