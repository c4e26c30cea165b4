-- ===== src/JumpList/Forget.antt =====
-- What is left of the list of jumps when a buffer goes (src/context.cc: JumpList::forget_buffer).
use kakoune.Prelude.{
  ℕ, zero, suc, ◌+◌, ◌-◌, ◌≤◌, ◌<◌, ◌≡◌, refl, ap, subst, ◌∙◌, inl, inr, false, List, [], ◌∷◌, some,
  ltb, ◌==◌, if◌then◌else◌, length, arith, Bool-cases,
}
use kakoune.JumpList.{JumpOps, JumpList, jump_at, forget_loop, forget_jumps}
use kakoune.JumpList.Bounds.{IsBounded}

module _ {J : Type 0} (ops : JumpOps J) (buffer : ℕ) where
  -- The jumps into other buffers, in order.
  unfoldable pub elsewhere : List J → List J
  elsewhere [] = []
  elsewhere (j ∷ jumps) =
      let rest = elsewhere jumps in if ops.buffer j == buffer then rest else j ∷ rest

  forget_loop-elsewhere :
      (i current : ℕ) (jumps : List J)
      → (forget_loop ops buffer i current jumps).1 ≡ elsewhere jumps
  unfolding forget_loop elsewhere
  forget_loop-elsewhere i current [] = refl
  forget_loop-elsewhere i current (j ∷ jumps) = elim (Bool-cases (ops.buffer j == buffer)) [
    | inl q ↦ rw q (forget_loop-elsewhere i _ jumps)
    | inr q ↦ rw q (ap (λ rest. j ∷ rest) (forget_loop-elsewhere (suc i) current jumps))
  ]

  moved-le :
      (i current n : ℕ)
      → current ≤ i + suc n
      → (if ltb i current then current - 1 else if i == current then i + suc n - 1 else current)
        ≤ i + n
  moved-le i current n h = ground arith

  forget_loop-le :
      (i current : ℕ) (jumps : List J)
      → current ≤ i + length jumps
      → (forget_loop ops buffer i current jumps).0
        ≤ i + length (forget_loop ops buffer i current jumps).1
  unfolding forget_loop
  forget_loop-le i current [] h = h
  forget_loop-le i current (j ∷ jumps) h = elim (Bool-cases (ops.buffer j == buffer)) [
    | inl q ↦ rw q (forget_loop-le i _ jumps (moved-le i current (length jumps) h))
    | inr q ↦ rw q (omega (arith, forget_loop-le (suc i) current jumps (omega (arith, h))))
  ]

  -- An index below the loop's is not moved.
  moved-before :
      (i current n : ℕ)
      → current < i
      → (if ltb i current then current - 1 else if i == current then i + suc n - 1 else current)
        ≡ current
  moved-before i current n h = ground arith

  forget_loop-before :
      (i current : ℕ) (jumps : List J)
      → current < i
      → (forget_loop ops buffer i current jumps).0 ≡ current
  unfolding forget_loop
  forget_loop-before i current [] h = refl
  forget_loop-before i current (j ∷ jumps) h = elim (Bool-cases (ops.buffer j == buffer)) [
    | inl q ↦ rw (q, moved-before i current (length jumps) h) (forget_loop-before i current jumps h)
    | inr q ↦ rw q (forget_loop-before (suc i) current jumps (omega arith))
  ]

  moved-after :
      (i k n : ℕ)
      → (if ltb i (i + suc k)
          then i + suc k - 1
          else if i == i + suc k
          then i + suc n - 1
          else i + suc k)
        ≡ i + k
  moved-after i k n = ground arith

  -- The current jump stays current, if it is into another buffer.
  abbrev Follows : ℕ → J → ℕ × List J → Type 0
  Follows i j r = (n : ℕ) × ((r.0 ≡ i + n) × (jump_at ops r.1 n ≡ some j))

  forget_loop-Follows :
      (i k : ℕ) (jumps : List J) (j : J)
      → jump_at ops jumps k ≡ some j
      → (ops.buffer j == buffer) ≡ false
      → Follows i j (forget_loop ops buffer i (i + k) jumps)
  unfolding forget_loop jump_at
  forget_loop-Follows i k [] j e f = absurd (cc)
  forget_loop-Follows i zero (x ∷ jumps) j e f =
      let same : x ≡ j = cc in
      let q : (ops.buffer x == buffer) ≡ false = ap (λ y. ops.buffer y == buffer) same ∙ f in
      let stays : (forget_loop ops buffer (suc i) (i + 0) jumps).0 ≡ i + 0 =
        forget_loop-before (suc i) (i + 0) jumps (omega arith) in
      rw q (0, (stays, ap some same))
  forget_loop-Follows i (suc k) (x ∷ jumps) j e f = elim (Bool-cases (ops.buffer x == buffer)) [
    | inl q ↦ rw (q, moved-after i k (length jumps)) (forget_loop-Follows i k jumps j e f)
    | inr q ↦
        let shift : suc i + k ≡ i + suc k = omega arith in
        let (n, (p, found)) =
          subst (λ m. Follows (suc i) j (forget_loop ops buffer (suc i) m jumps)) shift
            (forget_loop-Follows (suc i) k jumps j e f) in
        let behind : suc i + n ≡ i + suc n = omega arith in rw q (suc n, (p ∙ behind, found))
  ]

  -- Forgetting a buffer keeps the jumps into other buffers in their order, and no others; the
  -- current index stays within the list or just behind it, and a current jump into another buffer
  -- stays the current one.
  pub forget_jumps_lem :
      (l : JumpList J)
      → IsBounded l
      → ((forget_jumps ops buffer l).jumps ≡ elsewhere l.jumps)
        × IsBounded (forget_jumps ops buffer l)
        × ((j : J)
            → jump_at ops l.jumps l.current ≡ some j
            → (ops.buffer j == buffer) ≡ false
            → jump_at ops (forget_jumps ops buffer l).jumps (forget_jumps ops buffer l).current
              ≡ some j)
  unfolding forget_jumps
  forget_jumps_lem l h = (
    forget_loop-elsewhere 0 l.current l.jumps,
    subst (λ n. (forget_loop ops buffer 0 l.current l.jumps).0 ≤ n) (omega arith)
        (forget_loop-le 0 l.current l.jumps (omega (arith, h))),
    λ j e f. follows j (
        subst (λ m. Follows 0 j (forget_loop ops buffer 0 m l.jumps)) (omega arith)
          (forget_loop-Follows 0 l.current l.jumps j e f)),
  )
    where
      follows :
          (j : J)
          → Follows 0 j (forget_loop ops buffer 0 l.current l.jumps)
          → jump_at ops
              (forget_loop ops buffer 0 l.current l.jumps).1
              (forget_loop ops buffer 0 l.current l.jumps).0
            ≡ some j
      follows j (n, (p, found)) =
          let same : n ≡ (forget_loop ops buffer 0 l.current l.jumps).0 = omega (arith, p) in
          subst (λ m. jump_at ops (forget_loop ops buffer 0 l.current l.jumps).1 m ≡ some j) same
            found
