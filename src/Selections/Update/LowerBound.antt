-- ===== src/Selections/Update/LowerBound.antt =====
-- The search of update_forward (src/changes.hh) for the first range that reaches the changes.
use kakoune.Prelude.{
  ℕ, zero, suc, ◌+◌, ◌-◌, ◌/◌, ◌≤◌, ◌<◌, ◌≡◌, ap, ◌∙◌, ◌==◌, ==_iff, inl, inr, true, false, List,
  length, arith, Bool-cases,
}
use kakoune.Coord.{BufferCoord}
use kakoune.Selections.{Selection}
use kakoune.Selections.Update.{is_below, lower_bound_loop, lower_bound}

module _ (begin : BufferCoord) (sels : List Selection) where
  -- What is before a range that is below is below.
  abbrev pub IsSplit : Type 0
  IsSplit = (i j : ℕ) → i < j → is_below begin sels j ≡ true → is_below begin sels i ≡ true

  -- The first ranges are below, the others are not.
  pub record SplitsAt (n : ℕ) : Type 0 where
    pub inside : n ≤ length sels
    pub before : (i : ℕ) → i < n → is_below begin sels i ≡ true
    pub after : (i : ℕ) → n ≤ i → i < length sels → is_below begin sels i ≡ false

  below_middle :
      (j i : ℕ) → IsSplit → is_below begin sels j ≡ true → i < suc j → is_below begin sels i ≡ true
  below_middle j i split q h = elim (Bool-cases (i == j)) [
    | inl e ↦ let same : i ≡ j = (==_iff i j).0 e in ap (is_below begin sels) same ∙ q
    | inr e ↦ split i j (ground arith) q
  ]

  above_middle :
      (j i : ℕ) → IsSplit → is_below begin sels j ≡ false → j ≤ i → is_below begin sels i ≡ false
  above_middle j i split q h = elim (Bool-cases (is_below begin sels i)) [
    | inl b ↦ absurd (contradicts b)
    | inr b ↦ b
  ]
    where
      contradicts : is_below begin sels i ≡ true → ⊥
      contradicts b = elim (Bool-cases (i == j)) [
        | inl e ↦
            let same : is_below begin sels i ≡ is_below begin sels j =
              ap (is_below begin sels) ((==_iff i j).0 e) in
            cc
        | inr e ↦ let below = split j i (ground arith) b in cc
      ]

  lower_bound_loop-SplitsAt :
      (fuel first len : ℕ)
      → IsSplit
      → len ≤ fuel
      → first + len ≤ length sels
      → ((i : ℕ) → i < first → is_below begin sels i ≡ true)
      → ((i : ℕ) → first + len ≤ i → i < length sels → is_below begin sels i ≡ false)
      → SplitsAt (lower_bound_loop fuel begin sels first len)
  unfolding lower_bound_loop
  lower_bound_loop-SplitsAt zero first len split f fits before after = record {
    inside = omega (arith, fits);
    before = before;
    after = λ i h k. after i (omega (arith, f)) k;
  }
  lower_bound_loop-SplitsAt (suc fuel) first zero split f fits before after = record {
    inside = omega (arith, fits);
    before = before;
    after = λ i h k. after i (omega arith) k;
  }
  lower_bound_loop-SplitsAt (suc fuel) first (suc len) split f fits before after =
      let half = suc len / 2 in
      elim (Bool-cases (is_below begin sels (first + half))) [
        | inl q ↦
            rw (q, lower_bound_loop)
              (lower_bound_loop-SplitsAt fuel (suc (first + half)) (len - half) split
                (omega (arith, f)) (omega (arith, fits))
                (λ i h. below_middle (first + half) i split q h)
                (λ i h k. after i (omega (arith, h)) k))
        | inr q ↦
            rw (q, lower_bound_loop)
              (lower_bound_loop-SplitsAt fuel first half split (omega (arith, f))
                (omega (arith, fits)) before (λ i h k. above_middle (first + half) i split q h))
      ]

  -- On ranges of which those below stand first, the search gives how many they are.
  pub lower_bound-SplitsAt : IsSplit → SplitsAt (lower_bound begin sels)
  unfolding lower_bound
  lower_bound-SplitsAt split =
      lower_bound_loop-SplitsAt (length sels) 0 (length sels) split (omega arith) (omega arith)
        (λ i h. absurd (omega (arith, h))) (λ i h k. absurd (omega (arith, h, k)))
