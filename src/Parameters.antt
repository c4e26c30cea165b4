-- ===== src/Parameters.antt =====
-- The parser of command parameters (src/parameters_parser.hh, src/parameters_parser.cc). A switch
-- is its name and whether it takes an argument; the completers and the descriptions are left out.
--
-- The source reads the argument of a switch by stepping the index of its loop; here the switch
-- waits in the state until the next parameter.
pub mod Invariant
pub mod Positional
pub mod Ignoring
use kakoune.Prelude.{
  ℕ, zero, suc, ◌+◌, Bool, true, false, not, ◌&&◌, ◌||◌, List, [], ◌∷◌, ◌++◌, Option, none, some,
  ltb, ◌==◌, if◌then◌else◌, length, is_empty,
}
use kakoune.Prelude.Bytes.{Bytes, codes, bytes_equal}

pub record ParameterDesc : Type 0 where
  pub switches : List (Bytes × Bool)
  pub switches_only_at_start : Bool
  pub switches_as_positional : Bool
  pub ignore_unknown_switches : Bool
  pub min_positionals : ℕ
  pub max_positionals : ℕ

pub data ParserState : Type 0 where
  switch : ParserState
  switch_argument : ParserState
  positional : ParserState

pub data ParameterError : Type 0 where
  unknown_option : Bytes → ParameterError
  specified_twice : Bytes → ParameterError
  missing_option_value : Bytes → ParameterError
  wrong_argument_count : ParameterError

pub data Result {ℓ} (A : Type ℓ) : Type ℓ where
  ok : A → Result A
  err : ParameterError → Result A

infixl 5 ◌>>=◌
abbrev pub ◌>>=◌ {ℓ κ} : {A : Type ℓ} {B : Type κ} → Result A → (A → Result B) → Result B
ok a >>= f = f a
err e >>= f = err e

-- The members of ParametersParser, with the constructor's only_pos, switch_seen and the switch
-- whose argument comes next.
pub record ParametersParser : Type 0 where
  pub state : Option ParserState
  pub switches : List (Bytes × Bytes)
  pub positional_indices : List ℕ
  pub only_pos : Bool
  pub switch_seen : List Bytes
  pub waiting : Option Bytes

unfoldable pub find_switch : List (Bytes × Bool) → Bytes → Option Bool
find_switch [] name = none
find_switch ((n, takes) ∷ switches) name =
    let rest = find_switch switches name in if bytes_equal n name then some takes else rest

unfoldable pub seen : List Bytes → Bytes → Bool
seen [] name = false
seen (n ∷ names) name = bytes_equal n name || seen names name

-- m_switches[name] = value
unfoldable pub set_switch : Bytes → Bytes → List (Bytes × Bytes) → List (Bytes × Bytes)
set_switch name value [] = (name, value) ∷ []
set_switch name value ((n, v) ∷ switches) =
    let rest = set_switch name value switches in
    if bytes_equal n name then (name, value) ∷ switches else (n, v) ∷ rest

-- `if (ignore_errors) continue; throw ...`
unfoldable pub fail_unless : Bool → ParametersParser → ParameterError → Result ParametersParser
fail_unless ignore_errors p e = if ignore_errors then ok p else err e

unfoldable pub add_positional : ParameterDesc → ℕ → ParametersParser → ParametersParser
add_positional desc i p = record p {
  state = some positional;
  only_pos = p.only_pos || desc.switches_only_at_start;
  positional_indices = p.positional_indices ++ (i ∷ []);
}

-- The branch on a switch that the description knows.
unfoldable pub known_switch : Bool → Bytes → Bool → ParametersParser → Result ParametersParser
known_switch ignore_errors name takes p =
    if seen p.switch_seen name
    then fail_unless ignore_errors (record p { state = some switch }) (specified_twice name)
    else ok (record p {
      state = some switch;
      switch_seen = name ∷ p.switch_seen;
      switches = if takes then p.switches else set_switch name [] p.switches;
      waiting = if takes then some name else none;
    })

unfoldable pub unknown_switch :
    ParameterDesc → Bool → ℕ → Bytes → ParametersParser → Result ParametersParser
unknown_switch desc ignore_errors i param p =
    if desc.ignore_unknown_switches
    then ok (add_positional desc i p)
    else fail_unless ignore_errors (record p { state = some switch }) (unknown_option param)

unfoldable pub on_switch :
    ParameterDesc → Bool → ℕ → Bytes → Bytes → ParametersParser → Result ParametersParser
on_switch desc ignore_errors i param name p = elim (find_switch desc.switches name) [
  | none ↦ unknown_switch desc ignore_errors i param p
  | some takes ↦ known_switch ignore_errors name takes p
]

-- The name of the switch that a parameter may be.
unfoldable pub switch_name : Bytes → Option Bytes
switch_name [] = none
switch_name (c ∷ name) = if c == b'-' then some name else none

unfoldable pub on_param :
    ParameterDesc → Bool → ℕ → Bytes → ParametersParser → Result ParametersParser
on_param desc ignore_errors i param p =
    if not p.only_pos && (not desc.ignore_unknown_switches && bytes_equal param (codes "--"))
    then ok (record p { state = some switch; only_pos = true })
    else if p.only_pos
    then ok (add_positional desc i p)
    else (elim (switch_name param) [
      | none ↦ ok (add_positional desc i p)
      | some name ↦ on_switch desc ignore_errors i param name p
    ])

-- One parameter: the argument of the switch before it, or a parameter of its own.
unfoldable pub step : ParameterDesc → Bool → ℕ → Bytes → ParametersParser → Result ParametersParser
step desc ignore_errors i param p = elim p.waiting [
  | some name ↦ ok (record p {
    state = some switch_argument;
    switches = set_switch name param p.switches;
    waiting = none;
  })
  | none ↦ on_param desc ignore_errors i param p
]

-- The loop; a switch that still waits at the end misses its argument.
unfoldable pub parse_loop :
    ParameterDesc → Bool → ℕ → List Bytes → ParametersParser → Result ParametersParser
parse_loop desc ignore_errors i [] p = elim p.waiting [
  | some name ↦ fail_unless ignore_errors p (missing_option_value name)
  | none ↦ ok p
]
parse_loop desc ignore_errors i (param ∷ params) p =
    step desc ignore_errors i param p >>= parse_loop desc ignore_errors (suc i) params

unfoldable pub check_count : ParameterDesc → Bool → ParametersParser → Result ParametersParser
check_count desc ignore_errors p =
    let count = length p.positional_indices in
    if not ignore_errors && (ltb desc.max_positionals count || ltb count desc.min_positionals)
    then err wrong_argument_count
    else ok p

abbrev pub initial : ParameterDesc → ParametersParser
initial desc = record {
  state = none;
  switches = [];
  positional_indices = [];
  only_pos = desc.switches_as_positional;
  switch_seen = [];
  waiting = none;
}

-- The constructor of ParametersParser.
unfoldable pub parse : ParameterDesc → Bool → List Bytes → Result ParametersParser
parse desc ignore_errors params =
    parse_loop desc ignore_errors 0 params (initial desc) >>= check_count desc ignore_errors

-- ParametersParser::get_switch
unfoldable pub get_switch : List (Bytes × Bytes) → Bytes → Option Bytes
get_switch [] name = none
get_switch ((n, v) ∷ switches) name =
    let rest = get_switch switches name in if bytes_equal n name then some v else rest
