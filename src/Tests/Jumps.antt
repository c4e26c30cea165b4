-- ===== src/Tests/Jumps.antt =====
-- A list of jumps (src/context.cc): a jump is here a number, in the buffer of its parity.
use kakoune.Prelude.{ℕ, ◌%◌, ◌≡◌, refl, false, [], ◌∷◌, none, some, ◌==◌, arith}
use kakoune.JumpList.{
  JumpOps, JumpList, jumped, refused, remove_jump, push_at, push_jump, jump_at, update_at, jump_to,
  step_back, should_push, jump_backward, forget_loop, forget_jumps,
}
use kakoune.JumpList.Bounds.{IsBounded, IsSafe, jump_backward-IsSafe}
use kakoune.JumpList.Forget.{elsewhere, forget_jumps_lem}

abbrev number_ops : JumpOps ℕ
number_ops = record { equal = λ x y. x == y; buffer = λ x. x % 2; update = λ x. x }

abbrev four_jumps : JumpList ℕ
four_jumps = record { jumps = 1 ∷ 2 ∷ 3 ∷ 4 ∷ []; current = 2 }

four-IsBounded : IsBounded four_jumps
four-IsBounded = omega arith

pushed : push_jump number_ops 1 none four_jumps ≡ record { jumps = 2 ∷ 3 ∷ 1 ∷ []; current = 3 }
unfolding push_jump push_at remove_jump
pushed = refl

-- From a place that is not in the list, a jump back goes to the jump before it.
back_and_pushed :
    jump_backward number_ops 9 1 (record { jumps = 1 ∷ 2 ∷ []; current = 2 })
    ≡ jumped (record { jumps = 1 ∷ 2 ∷ 9 ∷ []; current = 1 }) 2
unfolding jump_backward push_jump push_at remove_jump jump_at should_push step_back jump_to
    update_at
back_and_pushed = refl

no_previous_jump :
    jump_backward number_ops 9 1 (record { jumps = []; current = 0 })
    ≡ refused (record { jumps = 9 ∷ []; current = 1 })
unfolding jump_backward push_jump push_at remove_jump jump_at should_push step_back jump_to
    update_at
no_previous_jump = refl

forgotten : forget_jumps number_ops 0 four_jumps ≡ record { jumps = 1 ∷ 3 ∷ []; current = 1 }
unfolding forget_jumps forget_loop
forgotten = refl

jump_backward-IsSafe_example : IsSafe number_ops (jump_backward number_ops 9 1 four_jumps)
jump_backward-IsSafe_example = jump_backward-IsSafe number_ops 9 1 four_jumps four-IsBounded

forget_jumps_lem_example :
    ((forget_jumps number_ops 0 four_jumps).jumps ≡ elsewhere number_ops 0 four_jumps.jumps)
    × IsBounded (forget_jumps number_ops 0 four_jumps)
    × ((j : ℕ)
        → jump_at number_ops four_jumps.jumps four_jumps.current ≡ some j
        → (j % 2 == 0) ≡ false
        → jump_at number_ops
            (forget_jumps number_ops 0 four_jumps).jumps
            (forget_jumps number_ops 0 four_jumps).current
          ≡ some j)
forget_jumps_lem_example = forget_jumps_lem number_ops 0 four_jumps four-IsBounded
