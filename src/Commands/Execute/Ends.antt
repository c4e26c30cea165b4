-- ===== src/Commands/Execute/Ends.antt =====
-- The loop of CommandManager::execute (src/command_manager.cc) comes to an end.
use kakoune.Prelude.{
  ℕ, zero, suc, ◌-◌, ◌<◌, ◌≡◌, refl, ap, inl, inr, Bool, true, List, [], ◌++◌, Option, none, some,
  arith, Bool-cases, length,
}
use kakoune.Prelude.Bytes.{Bytes}
use kakoune.Commands.{Token, ParseState, Result, ok, err}
use kakoune.Commands.Reader.{read_token}
use kakoune.Commands.Progress.{Advances, read_token-Advances}
use kakoune.Commands.Execute.{
  Outcome, done, threw, is_separator, on_done, on_token, on_read, execute_loop, execute,
}

module _ {W E : Type 0} (iswalpha : ℕ → Bool)
    (expand_special : Token → W → Outcome W E (List Bytes))
    (run : List Bytes → W → Outcome W E (Unit {0})) (shell_params : List Bytes) where
  abbrev IsSome : Option (Outcome W E (Unit {0})) → Type 0
  IsSome o = (r : Outcome W E (Unit {0})) × (o ≡ some r)

  on_done-IsSome :
      {A : Type 0} (m : Outcome W E A) (f : A → W → Option (Outcome W E (Unit {0})))
      → ((a : A) (w : W) → IsSome (f a w))
      → IsSome (on_done iswalpha expand_special run shell_params m f)
  on_done-IsSome (done a w) f h = h a w
  on_done-IsSome (threw e w) f h = (threw e w, refl)

  on_read-IsSome :
      (fuel : ℕ) (st : ParseState) (params : List Bytes) (command_pos : ℕ) (w : W)
      (r : Result (Option Token × ParseState))
      → Advances st r
      → length st.str - st.pos < suc fuel
      → ((st' : ParseState) (params' : List Bytes) (pos' : ℕ) (w' : W)
          → length st'.str - st'.pos < fuel
          → IsSome (execute_loop iswalpha expand_special run shell_params fuel st' params' pos' w'))
      → IsSome (
          on_read iswalpha expand_special run shell_params
            (execute_loop iswalpha expand_special run shell_params fuel)
            st
            params
            command_pos
            w
            r)
  unfolding on_read on_token
  on_read-IsSome fuel st params command_pos w (err e) a h ih = (_, refl)
  on_read-IsSome fuel st params command_pos w (ok (none, st')) a h ih = (_, refl)
  on_read-IsSome fuel st params command_pos w (ok (some t, st')) a h ih =
      let size : length st'.str - st'.pos < fuel = omega (arith, a.1, a.2, ap length a.0) in
      elim (Bool-cases (is_separator t.type)) [
        | inl q ↦ rw q (on_done-IsSome _ _ (λ _ w'. ih st' [] command_pos w' size))
        | inr q ↦ rw q (on_done-IsSome _ _ (λ new w'. ih st' (params ++ new) _ w' size))
      ]

  execute_loop-IsSome :
      (fuel : ℕ) (st : ParseState) (params : List Bytes) (command_pos : ℕ) (w : W)
      → length st.str - st.pos < fuel
      → IsSome (execute_loop iswalpha expand_special run shell_params fuel st params command_pos w)
  unfolding execute_loop
  execute_loop-IsSome zero st params command_pos w h = absurd (omega arith)
  execute_loop-IsSome (suc fuel) st params command_pos w h =
      on_read-IsSome fuel st params command_pos w (read_token iswalpha st true)
        (read_token-Advances iswalpha st true) h (execute_loop-IsSome fuel)

  -- Executing a command line always comes to an end, done or with an exception, after one round
  -- for each byte and one more at most, whatever the expansions and the commands do.
  pub execute_total :
      (line : Bytes) (w : W)
      → (r : Outcome W E (Unit {0})) × (execute iswalpha expand_special run shell_params line w
          ≡ some r)
  unfolding execute
  execute_total line w =
      execute_loop-IsSome (suc (length line)) (record { str = line; pos = 0 }) [] 0 w (omega arith)
