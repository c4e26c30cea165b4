-- ===== src/Commands/Execute.antt =====
-- Execution of a command line (src/command_manager.cc: CommandManager::execute). What a command
-- does, and what an expansion that is not a plain string gives, is not decided here: both are
-- functions on a state of their own, given as parameters.
pub mod Ends
pub mod Words
use kakoune.Prelude.{
  ℕ, zero, suc, ◌+◌, ◌-◌, Bool, true, false, ◌&&◌, List, [], ◌∷◌, ◌++◌, Option, none, some, ◌==◌,
  if◌then◌else◌, length, is_empty, take,
}
use kakoune.Prelude.Bytes.{Bytes, codes, bytes_equal}
use kakoune.Coord.{BufferCoord, coord}
use kakoune.Commands.{
  TokenType, raw, raw_quoted, expand_string, shell_expand, register_expand, option_expand,
  val_expand, arg_expand, file_expand, command_separator, Token, ParseState, ParseError, Result, ok,
  err, compute_coord,
}
use kakoune.Commands.Reader.{read_token}

-- What execute can throw: a parse_error or another runtime_error, either with the places and the
-- commands that execute has put before its message, the last one first; and `failure`, with what is
-- no runtime_error, which passes as it is.
pub data Exception (E : Type 0) : Type 0 where
  parse_failed : ParseError → Exception E
  failure : E → Exception E
  runtime : E → Exception E
  located : BufferCoord → Bytes → Exception E → Exception E

pub data Outcome (W E A : Type 0) : Type 0 where
  done : A → W → Outcome W E A
  threw : Exception E → W → Outcome W E A

unfoldable pub is_separator : TokenType → Bool
is_separator command_separator = true
is_separator _ = false

unfoldable pub is_arg_expand : TokenType → Bool
is_arg_expand arg_expand = true
is_arg_expand _ = false

-- params[0]
abbrev pub first_param : List Bytes → Bytes
first_param [] = []
first_param (p ∷ params) = p

-- The two catch clauses of execute: error.set_what puts the place before the message it had.
unfoldable pub with_place : {E : Type 0} → BufferCoord → Bytes → Exception E → Exception E
with_place at name (failure e) = failure e
with_place at name (parse_failed e) =
    located (coord (at.line + 1) (at.column + 1)) name (parse_failed e)
with_place at name (runtime e) = located (coord (at.line + 1) (at.column + 1)) name (runtime e)
with_place at name (located c n e) =
    located (coord (at.line + 1) (at.column + 1)) name (located c n e)

unfoldable pub locate :
    {W E : Type 0} → BufferCoord → Bytes → Outcome W E (Unit {0}) → Outcome W E (Unit {0})
locate at name (done u w) = done u w
locate at name (threw e w) = threw (with_place at name e) w

module _ {W E : Type 0} (iswalpha : ℕ → Bool)
    (expand_special : Token → W → Outcome W E (List Bytes))
    (run : List Bytes → W → Outcome W E (Unit {0})) (shell_params : List Bytes) where
  -- expand_token for a vector of parameters, and the case of %arg{@} before it.
  unfoldable pub expand_param : Token → W → Outcome W E (List Bytes)
  expand_param t w =
      if is_arg_expand t.type && bytes_equal t.content (codes "@")
      then done shell_params w
      else (elim t.type [
        | raw ↦ done (t.content ∷ []) w
        | raw_quoted ↦ done (t.content ∷ []) w
        | _ ↦ expand_special t w
      ])

  -- execute_single_command does nothing without parameters.
  unfoldable pub run_command : Bytes → List Bytes → ℕ → W → Outcome W E (Unit {0})
  run_command line params command_pos w =
      if is_empty params
      then done tt w
      else locate (compute_coord (take command_pos line)) (first_param params) (run params w)

  abbrev pub Round : Type 0
  Round = ParseState → List Bytes → ℕ → W → Option (Outcome W E (Unit {0}))

  abbrev pub on_done :
      {A : Type 0}
      → Outcome W E A
      → (A → W → Option (Outcome W E (Unit {0})))
      → Option (Outcome W E (Unit {0}))
  on_done (done a w) f = f a w
  on_done (threw e w) f = some (threw e w)

  -- What a round does with the token it has read; `go_on` is the next round.
  unfoldable pub on_token :
      Round → ParseState → List Bytes → ℕ → W → Token → Option (Outcome W E (Unit {0}))
  on_token go_on st params command_pos w t =
      if is_separator t.type
      then on_done (run_command st.str params command_pos w) (λ _ w'. go_on st [] command_pos w')
      else on_done (expand_param t w)
          (λ new w'. go_on st (params ++ new) (if is_empty params then t.pos else command_pos) w')

  unfoldable pub on_read :
      Round
      → ParseState
      → List Bytes
      → ℕ
      → W
      → Result (Option Token × ParseState)
      → Option (Outcome W E (Unit {0}))
  on_read go_on st params command_pos w (err e) = some (threw (parse_failed e) w)
  on_read go_on st params command_pos w (ok (none, st')) =
      some (run_command st.str params command_pos w)
  on_read go_on st params command_pos w (ok (some t, st')) =
      on_token go_on st' params command_pos w t

  -- `none` is the end of the rounds.
  unfoldable pub execute_loop : ℕ → Round
  execute_loop zero st params command_pos w = none
  execute_loop (suc fuel) st params command_pos w =
      on_read (execute_loop fuel) st params command_pos w (read_token iswalpha st true)

  unfoldable pub execute : Bytes → W → Option (Outcome W E (Unit {0}))
  execute line w = execute_loop (suc (length line)) (record { str = line; pos = 0 }) [] 0 w
