-- ===== src/Commands/Expand.antt =====
-- Expansions inside a string (src/command_manager.cc: expand_impl).
use kakoune.Prelude.{
  ℕ, zero, suc, Bool, true, false, [], ◌∷◌, ◌++◌, ◌==◌, ◌≡◌, ◌<◌, refl, inl, inr, arith, Bool-cases,
  if◌then◌else◌, length, drop,
}
use kakoune.Prelude.Bytes.{Bytes, contains}
use kakoune.Commands.{Token, ParseState, Result, ok, ◌>>=◌, left, starts_with}
use kakoune.Strings.{double_up}
use kakoune.Commands.Reader.{parse_percent_token}

module _ (iswalpha : ℕ → Bool) where
  -- expand_impl, with expand_token and the postprocessing as one function on tokens; the fuel
  -- bounds the rounds.
  unfoldable pub expand_loop : (Token → Result Bytes) → ℕ → ParseState → Bytes → Result Bytes
  expand_loop expand_token zero st s = ok []
  expand_loop expand_token (suc fuel) st [] = ok []
  expand_loop expand_token (suc fuel) st (c ∷ s) = elim (c == b'%') [
    | false ↦ expand_loop expand_token fuel st s >>= λ r. ok (c ∷ r)
    | true ↦ elim (starts_with b'%' s) [
      | true ↦ expand_loop expand_token fuel st (drop 1 s) >>= λ r. ok (c ∷ r)
      | false ↦ parse_percent_token iswalpha st true s >>= λ t. expand_token t.0 >>= λ text.
          expand_loop expand_token fuel st (left t.1) >>= λ r. ok (text ++ r)
    ]
  ]

  unfoldable pub expand : (Token → Result Bytes) → Bytes → Result Bytes
  expand expand_token s = expand_loop expand_token (suc (length s)) (record { str = s; pos = 0 }) s

double_up-percent :
    (c : ℕ) (s : Bytes)
    → double_up (c ∷ s) (b'%' ∷ [])
      ≡ (if c == b'%' then c ∷ c ∷ double_up s (b'%' ∷ []) else c ∷ double_up s (b'%' ∷ []))
unfolding double_up contains
double_up-percent c s = ground arith

module _ (iswalpha : ℕ → Bool) (expand_token : Token → Result Bytes) where
  pair :
      (fuel : ℕ) (st : ParseState) (c d : ℕ) (s : Bytes)
      → (c == b'%') ≡ true
      → (d == b'%') ≡ true
      → expand_loop iswalpha expand_token (suc fuel) st (c ∷ d ∷ s)
        ≡ (expand_loop iswalpha expand_token fuel st s >>= λ r. ok (c ∷ r))
  unfolding expand_loop
  pair fuel st c d s h k = rw (h, expand_loop, k)

  single :
      (fuel : ℕ) (st : ParseState) (c : ℕ) (s : Bytes)
      → (c == b'%') ≡ false
      → expand_loop iswalpha expand_token (suc fuel) st (c ∷ s)
        ≡ (expand_loop iswalpha expand_token fuel st s >>= λ r. ok (c ∷ r))
  unfolding expand_loop
  single fuel st c s h = rw (h, expand_loop)

  expand_loop-double_up :
      (fuel : ℕ) (st : ParseState) (s : Bytes)
      → length s < fuel
      → expand_loop iswalpha expand_token fuel st (double_up s (b'%' ∷ [])) ≡ ok s
  expand_loop-double_up zero st s h = absurd (omega arith)
  expand_loop-double_up (suc fuel) st [] h = unfold double_up expand_loop in refl
  expand_loop-double_up (suc fuel) st (c ∷ s) h =
      let ih = expand_loop-double_up fuel st s (omega arith) in
      let rest = double_up s (b'%' ∷ []) in
      elim (Bool-cases (c == b'%')) [
        | inl q ↦ rw (double_up-percent c s, q, pair fuel st c c rest q q, ih)
        | inr q ↦ rw (double_up-percent c s, q, single fuel st c rest q, ih)
      ]

  -- A text in which each percent sign is doubled expands to the text itself, whatever the
  -- expansions would give.
  pub expand-double_up : (s : Bytes) → expand iswalpha expand_token (double_up s (b'%' ∷ [])) ≡ ok s
  unfolding expand
  expand-double_up s =
      expand_loop-double_up (suc (length (double_up s (b'%' ∷ []))))
        (record { str = double_up s (b'%' ∷ []); pos = 0 }) s (double_up-length s)
    where
      double_up-length : (s : Bytes) → length s < suc (length (double_up s (b'%' ∷ [])))
      double_up-length [] = omega arith
      double_up-length (c ∷ s) = ground (arith, double_up-percent c s, double_up-length s)
