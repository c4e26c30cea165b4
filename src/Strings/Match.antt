-- ===== src/Strings/Match.antt =====
-- Matching of subsequences (src/string_utils.cc: subsequence_match).
use kakoune.Prelude.{
  ℕ, ◌≡◌, refl, sym, subst, ◌↔◌, inl, inr, true, false, [], ◌∷◌, some, ◌==◌, ==_iff, arith,
  Bool-cases, Option-cases,
}
use kakoune.Prelude.Bytes.{Bytes}
use kakoune.Strings.{after_first, subsequence_match}

-- The first string comes out of the second by leaving bytes out.
pub data Subsequence : Bytes → Bytes → Type 0 where
  stop : {s : Bytes} → Subsequence [] s
  skip : {a s : Bytes} {d : ℕ} → Subsequence a s → Subsequence a (d ∷ s)
  keep : {a s : Bytes} {c d : ℕ} → d ≡ c → Subsequence a s → Subsequence (c ∷ a) (d ∷ s)

after_first-Subsequence :
    (c : ℕ) (a s rest : Bytes)
    → after_first c s ≡ some rest
    → Subsequence a rest
    → Subsequence (c ∷ a) s
unfolding after_first
after_first-Subsequence c a [] rest h m = absurd (cc)
after_first-Subsequence c a (d ∷ s) rest h m = elim (Bool-cases (d == c)) [
  | inl q ↦
      let same : s ≡ rest = ground arith in
      keep ((==_iff d c).0 q) (subst (Subsequence a) (sym same) m)
  | inr q ↦ skip (after_first-Subsequence c a s rest (rw q at h) m)
]

-- A subsequence goes on behind the first match of its first byte.
Subsequence-weaken : {a s : Bytes} (c : ℕ) → Subsequence (c ∷ a) s → Subsequence a s
Subsequence-weaken c (skip m) = skip (Subsequence-weaken c m)
Subsequence-weaken c (keep e m) = skip m

Subsequence-after_first :
    {a : Bytes} (c : ℕ) (s : Bytes)
    → Subsequence (c ∷ a) s
    → (rest : Bytes) × (after_first c s ≡ some rest) × Subsequence a rest
unfolding after_first
Subsequence-after_first c [] m = elim m [ ]
Subsequence-after_first c (d ∷ s) (skip m) = elim (Bool-cases (d == c)) [
  | inl q ↦ (s, rw q, Subsequence-weaken c m)
  | inr q ↦ let (rest, e, m') = Subsequence-after_first c s m in (rest, rw q e, m')
]
Subsequence-after_first c (d ∷ s) (keep e m) = (s, rw ((==_iff d c).1 e), m)

matches_sound : (a s : Bytes) → subsequence_match s a ≡ true → Subsequence a s
unfolding subsequence_match
matches_sound [] s h = stop
matches_sound (c ∷ a) s h = elim (Option-cases (after_first c s)) [
  | inl q ↦ let bad : false ≡ true = rw (q, subsequence_match) at h in absurd (cc)
  | inr (rest, q) ↦
      after_first-Subsequence c a s rest q (matches_sound a rest (rw (q, subsequence_match) at h))
]

matches_complete : (a s : Bytes) → Subsequence a s → subsequence_match s a ≡ true
unfolding subsequence_match
matches_complete [] s m = refl
matches_complete (c ∷ a) s m =
    let (rest, e, m') = Subsequence-after_first c s m in
    rw (e, subsequence_match) (matches_complete a rest m')

-- subsequence_match answers true exactly when the second string can be got from the first by
-- leaving bytes out.
pub subsequence_match_iff : (s a : Bytes) → (subsequence_match s a ≡ true) ↔ Subsequence a s
subsequence_match_iff s a = (matches_sound a s, matches_complete a s)
