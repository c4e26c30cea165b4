-- ===== src/JumpList/Bounds.antt =====
-- The current index of the list of jumps (src/context.cc) stays within the list, or just behind it.
use kakoune.Prelude.{
  ℕ, zero, suc, ◌+◌, ◌-◌, ◌≤◌, ◌<◌, ◌≡◌, refl, ap, Bool, true, false, not, ◌&&◌, List, [], ◌∷◌,
  Option, none, some, ltb, ◌==◌, if◌then◌else◌, length, arith,
}
use kakoune.JumpList.{
  JumpOps, JumpList, Jumped, jumped, refused, out_of_range, push_at, push_jump, jump_at, update_at,
  jump_to, jump_forward, step_back, should_push, jump_backward,
}

abbrev pub IsBounded : {J : Type 0} → JumpList J → Type 0
IsBounded l = l.current ≤ length l.jumps

module _ {J : Type 0} (ops : JumpOps J) where
  -- The jump that is given is the current one of the list; an error leaves the list bounded; no
  -- access is outside of it.
  abbrev pub IsSafe : Jumped J → Type 0
  IsSafe (jumped l j) = (l.current < length l.jumps) × (jump_at ops l.jumps l.current ≡ some j)
  IsSafe (refused l) = IsBounded l
  IsSafe out_of_range = ⊥

  if-IsSafe :
      (b : Bool) (x y : Jumped J)
      → (b ≡ true → IsSafe x)
      → (b ≡ false → IsSafe y)
      → IsSafe (if b then x else y)
  if-IsSafe true x y h k = h refl
  if-IsSafe false x y h k = k refl

  at-some : (jumps : List J) (n : ℕ) → n < length jumps → (j : J) × (jump_at ops jumps n ≡ some j)
  unfolding jump_at
  at-some [] n h = absurd (omega arith)
  at-some (j ∷ jumps) zero h = (j, refl)
  at-some (j ∷ jumps) (suc n) h = at-some jumps n (omega arith)

  at-lt : (jumps : List J) (n : ℕ) (j : J) → jump_at ops jumps n ≡ some j → n < length jumps
  unfolding jump_at
  at-lt [] n j e = absurd (cc)
  at-lt (x ∷ jumps) zero j e = omega arith
  at-lt (x ∷ jumps) (suc n) j e = omega (arith, at-lt jumps n j e)

  update_at-at :
      (jumps : List J) (n : ℕ) (j : J)
      → jump_at ops jumps n ≡ some j
      → (n < length (update_at ops jumps n))
        × (jump_at ops (update_at ops jumps n) n ≡ some (ops.update j))
  unfolding jump_at update_at
  update_at-at [] n j e = absurd (cc)
  update_at-at (x ∷ jumps) zero j e =
      let same : x ≡ j = cc in (omega arith, ap (λ y. some (ops.update y)) same)
  update_at-at (x ∷ jumps) (suc n) j e =
      let (small, found) = update_at-at jumps n j e in (omega (arith, small), found)

  jump_to-IsSafe : (n : ℕ) (jumps : List J) → n < length jumps → IsSafe (jump_to ops n jumps)
  unfolding jump_to
  jump_to-IsSafe n jumps h =
      let (j, e) = at-some jumps n h in rw (e, jump_to) (update_at-at jumps n j e)

  -- A jump forward from such a list is safe as well.
  jump_forward-IsSafe :
      (count : ℕ) (l : JumpList J) → IsBounded l → IsSafe (jump_forward ops count l)
  unfolding jump_forward
  jump_forward-IsSafe count l h =
      if-IsSafe (not (l.current == length l.jumps) && ltb (l.current + count) (length l.jumps)) _ _
        (λ q. jump_to-IsSafe (l.current + count) l.jumps (ground arith)) (λ q. h)

  step_back-IsSafe :
      (steps : ℕ) (l : JumpList J)
      → IsBounded l
      → l.current < length l.jumps + steps
      → IsSafe (step_back ops steps l)
  unfolding step_back
  step_back-IsSafe steps l h k =
      if-IsSafe (ltb l.current steps) _ _ (λ q. h)
        (λ q. jump_to-IsSafe (l.current - steps) l.jumps (ground arith))

  push_jump-current :
      (jump : J) (l : JumpList J)
      → (push_jump ops jump none l).current ≡ length (push_jump ops jump none l).jumps
  unfolding push_jump push_at
  push_jump-current jump l = refl

  not_pushed :
      (selections : J) (found : Option J)
      → should_push ops selections found ≡ false
      → (j : J) × (found ≡ some j)
  unfolding should_push
  not_pushed selections none q = absurd (cc)
  not_pushed selections (some j) q = (j, refl)

  -- A jump back from a list whose current index is within it or just behind it makes no access
  -- outside of the list: it gives the jump that is then the current one of the list, or it is
  -- refused and leaves such a list.
  pub jump_backward-IsSafe :
      (selections : J) (count : ℕ) (l : JumpList J)
      → IsBounded l
      → IsSafe (jump_backward ops selections count l)
  unfolding jump_backward
  jump_backward-IsSafe selections count l h =
      if-IsSafe (should_push ops selections (jump_at ops l.jumps l.current)) _ _
        (λ q.
          let e = push_jump-current selections l in
          step_back-IsSafe (count + 1) (push_jump ops selections none l) (omega (arith, e))
            (omega (arith, e)))
        (λ q. step_back-IsSafe count l h (inside q))
    where
      inside :
          should_push ops selections (jump_at ops l.jumps l.current) ≡ false
          → l.current < length l.jumps + count
      inside q =
          let (j, e) = not_pushed selections (jump_at ops l.jumps l.current) q in
          omega (arith, at-lt l.jumps l.current j e)
