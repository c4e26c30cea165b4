-- ===== src/Commands/Balanced.antt =====
-- Strings between brackets that nest (src/command_manager.cc: parse_quoted_balanced).
use kakoune.Prelude.{
  ℕ, suc, ◌≡◌, ◌≢◌, refl, sym, ap, ◌∙◌, true, false, [], ◌∷◌, ◌++◌, append_assoc, append-nil, ◌==◌,
  arith,
}
use kakoune.Prelude.Bytes.{Bytes}
use kakoune.Commands.{
  ParseResult, parse_quoted_balanced, balanced_loop, level_after, with_content, closed,
}

-- Text in which each bracket has its partner.
pub data Balanced (opening closing : ℕ) : Bytes → Type 0 where
  nothing : Balanced opening closing []
  byte :
      (c : ℕ) {s : Bytes}
      → c ≢ opening
      → c ≢ closing
      → Balanced opening closing s
      → Balanced opening closing (c ∷ s)
  group :
      {s u : Bytes}
      → Balanced opening closing s
      → Balanced opening closing u
      → Balanced opening closing (opening ∷ (s ++ (closing ∷ u)))

module _ (opening closing : ℕ) where
  step :
      (level level' c : ℕ) (s : Bytes)
      → level_after opening closing c (suc level) ≡ suc level'
      → balanced_loop opening closing (suc level) (c ∷ s)
        ≡ with_content (c ∷ []) (balanced_loop opening closing (suc level') s)
  unfolding balanced_loop
  step level level' c s h = let more : (suc level' == 0) ≡ false = ground arith in rw (h, more)

  -- A balanced text leaves the level where it was.
  loop-Balanced :
      {s : Bytes} (level : ℕ) (t : Bytes)
      → opening ≢ closing
      → Balanced opening closing s
      → balanced_loop opening closing (suc level) (s ++ t)
        ≡ with_content s (balanced_loop opening closing (suc level) t)
  loop-Balanced level t h nothing = refl
  loop-Balanced level t h (byte c {s} h1 h2 m) =
      step level level c (s ++ t) (ground arith)
      ∙ ap (with_content (c ∷ [])) (loop-Balanced level t h m)
  loop-Balanced level t h (group {s} {u} m n) =
      step level (suc level) opening ((s ++ (closing ∷ u)) ++ t) (ground arith)
      ∙ ap (λ x. with_content (opening ∷ []) (balanced_loop opening closing (suc (suc level)) x))
          (append_assoc s (closing ∷ u) t)
      ∙ ap (with_content (opening ∷ [])) (
          loop-Balanced (suc level) (closing ∷ (u ++ t)) h m
          ∙ ap (with_content s) (
              step (suc level) level closing (u ++ t) (ground arith)
              ∙ ap (with_content (closing ∷ [])) (loop-Balanced level t h n)))
      ∙ regroup s u (balanced_loop opening closing (suc level) t)
    where
      regroup :
          (s u : Bytes) (r : ParseResult × Bytes)
          → with_content
              (opening ∷ [])
              (with_content s (with_content (closing ∷ []) (with_content u r)))
            ≡ with_content (opening ∷ (s ++ (closing ∷ u))) r
      regroup s u (r, rest) =
          ap (λ x. (record { content = opening ∷ x; terminated = r.terminated }, rest))
            (sym (append_assoc s (closing ∷ u) r.content))

  closes :
      (t : Bytes) → opening ≢ closing → balanced_loop opening closing 1 (closing ∷ t) ≡ closed t
  unfolding balanced_loop
  closes t h = let last : level_after opening closing closing 1 ≡ 0 = ground arith in rw last

-- A balanced text with the closing bracket behind it is read whole and terminated, and the parser
-- stands right behind the bracket; the two brackets are different bytes.
pub parse_quoted_balanced_lem :
    (opening closing : ℕ) (s rest : Bytes)
    → opening ≢ closing
    → Balanced opening closing s
    → parse_quoted_balanced opening closing (s ++ (closing ∷ rest))
      ≡ (record { content = s; terminated = true }, rest)
unfolding parse_quoted_balanced
parse_quoted_balanced_lem opening closing s rest h m =
    loop-Balanced opening closing 0 (closing ∷ rest) h m
    ∙ ap (with_content s) (closes opening closing rest h)
    ∙ ap (λ x. (record { content = x; terminated = true }, rest)) (append-nil s)
