-- ===== src/JumpList.antt =====
-- The list of jumps of a context (src/context.hh, src/context.cc: JumpList). A jump is a list of
-- selections; of it the list uses operator==, the buffer it is in, and update, which are arguments.
-- The status line that a jump prints is left out.
pub mod Bounds
pub mod Forget
use kakoune.Prelude.{
  ℕ, zero, suc, ◌+◌, ◌-◌, Bool, true, false, not, ◌&&◌, List, [], ◌∷◌, ◌++◌, Option, none, some,
  ltb, ◌==◌, if◌then◌else◌, length, take,
}

-- What the list asks of a jump: operator==, the buffer's identity, SelectionList::update.
pub record JumpOps (J : Type 0) : Type 0 where
  pub equal : J → J → Bool
  pub buffer : J → ℕ
  pub update : J → J

pub record JumpList (J : Type 0) : Type 0 where
  pub jumps : List J
  pub current : ℕ

-- A jump, an error, or an access outside of the vector.
pub data Jumped (J : Type 0) : Type 0 where
  jumped : JumpList J → J → Jumped J
  refused : JumpList J → Jumped J
  out_of_range : Jumped J

module _ {J : Type 0} (ops : JumpOps J) where
  unfoldable pub remove_jump : J → List J → List J
  remove_jump jump [] = []
  remove_jump jump (j ∷ jumps) =
      let rest = remove_jump jump jumps in if ops.equal j jump then rest else j ∷ rest

  unfoldable pub push_at : J → ℕ → List J → JumpList J
  push_at jump current jumps =
      let kept = if current == length jumps then jumps else take (suc current) jumps in
      let all = remove_jump jump kept ++ (jump ∷ []) in record { jumps = all; current = length all }

  unfoldable pub push_jump : J → Option ℕ → JumpList J → JumpList J
  push_jump jump none l = push_at jump l.current l.jumps
  push_jump jump (some index) l = push_at jump index l.jumps

  unfoldable pub jump_at : List J → ℕ → Option J
  jump_at [] n = none
  jump_at (j ∷ jumps) zero = some j
  jump_at (j ∷ jumps) (suc n) = jump_at jumps n

  unfoldable pub update_at : List J → ℕ → List J
  update_at [] n = []
  update_at (j ∷ jumps) zero = ops.update j ∷ jumps
  update_at (j ∷ jumps) (suc n) = j ∷ update_at jumps n

  -- `m_current = n; SelectionList& res = m_jumps[m_current]; res.update(); return res;`
  unfoldable pub jump_to : ℕ → List J → Jumped J
  jump_to n jumps = elim (jump_at jumps n) [
    | none ↦ out_of_range
    | some j ↦ jumped (record { jumps = update_at jumps n; current = n }) (ops.update j)
  ]

  unfoldable pub jump_forward : ℕ → JumpList J → Jumped J
  jump_forward count l =
      if not (l.current == length l.jumps) && ltb (l.current + count) (length l.jumps)
      then jump_to (l.current + count) l.jumps
      else refused l

  unfoldable pub step_back : ℕ → JumpList J → Jumped J
  step_back steps l = if ltb l.current steps then refused l else jump_to (l.current - steps) l.jumps

  unfoldable pub should_push : J → Option J → Bool
  should_push selections none = true
  should_push selections (some j) = not (ops.equal j selections)

  unfoldable pub jump_backward : J → ℕ → JumpList J → Jumped J
  jump_backward selections count l =
      if should_push selections (jump_at l.jumps l.current)
      then step_back (count + 1) (push_jump selections none l)
      else step_back count l

  -- The loop at index i, on the jumps from there on.
  unfoldable pub forget_loop : ℕ → ℕ → ℕ → List J → ℕ × List J
  forget_loop buffer i current [] = (current, [])
  forget_loop buffer i current (j ∷ jumps) =
      let size = i + suc (length jumps) in
      let moved =
        if ltb i current then current - 1 else if i == current then size - 1 else current in
      let gone = forget_loop buffer i moved jumps in
      let kept = forget_loop buffer (suc i) current jumps in
      if ops.buffer j == buffer then gone else (kept.0, j ∷ kept.1)

  unfoldable pub forget_jumps : ℕ → JumpList J → JumpList J
  forget_jumps buffer l =
      let r = forget_loop buffer 0 l.current l.jumps in record { jumps = r.1; current = r.0 }
