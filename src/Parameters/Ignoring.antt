-- ===== src/Parameters/Ignoring.antt =====
-- The parser of parameters that ignores errors (src/parameters_parser.cc), which completion and
-- highlighting use: it always gives a result.
use kakoune.Prelude.{
  ℕ, suc, arith, subst, length, ◌≡◌, refl, Bool, true, false, List, [], ◌∷◌, Option, none, some,
  if◌then◌else◌,
}
use kakoune.Prelude.Bytes.{Bytes}
use kakoune.Parameters.Invariant.{IsParsed, Ensures, parse_loop-Ensures, initial-IsParsed}
use kakoune.Parameters.{
  ParameterDesc, switch, switch_argument, missing_option_value, Result, ok, err, ◌>>=◌,
  ParametersParser, find_switch, seen, set_switch, fail_unless, add_positional, known_switch,
  unknown_switch, on_switch, switch_name, on_param, step, parse_loop, check_count, initial, parse,
}

abbrev Succeeds : Result ParametersParser → Type 0
Succeeds (ok p) = Unit
Succeeds (err e) = ⊥

if-Succeeds :
    (b : Bool) (x y : Result ParametersParser)
    → Succeeds x
    → Succeeds y
    → Succeeds (if b then x else y)
if-Succeeds true x y h k = h
if-Succeeds false x y h k = k

known_switch-Succeeds :
    (name : Bytes) (takes : Bool) (p : ParametersParser) → Succeeds (known_switch true name takes p)
unfolding known_switch fail_unless
known_switch-Succeeds name takes p = if-Succeeds (seen p.switch_seen name) _ _ tt tt

on_switch-Succeeds :
    (desc : ParameterDesc) (n : ℕ) (param name : Bytes) (p : ParametersParser)
    → Succeeds (on_switch desc true n param name p)
unfolding on_switch unknown_switch fail_unless
on_switch-Succeeds desc n param name p = go (find_switch desc.switches name)
  where
    go :
        (f : Option Bool)
        → Succeeds (elim f [
          | none ↦ unknown_switch desc true n param p
          | some takes ↦ known_switch true name takes p
        ])
    go none = if-Succeeds desc.ignore_unknown_switches _ _ tt tt
    go (some takes) = known_switch-Succeeds name takes p

on_param-Succeeds :
    (desc : ParameterDesc) (n : ℕ) (param : Bytes) (p : ParametersParser)
    → Succeeds (on_param desc true n param p)
unfolding on_param
on_param-Succeeds desc n param p =
    if-Succeeds _ (ok (record p { state = some switch; only_pos = true })) _ tt
      (if-Succeeds p.only_pos (ok (add_positional desc n p)) _ tt (go (switch_name param)))
  where
    go :
        (f : Option Bytes)
        → Succeeds (elim f [
          | none ↦ ok (add_positional desc n p)
          | some name ↦ on_switch desc true n param name p
        ])
    go none = tt
    go (some name) = on_switch-Succeeds desc n param name p

step-Succeeds :
    (desc : ParameterDesc) (n : ℕ) (param : Bytes) (p : ParametersParser)
    → Succeeds (step desc true n param p)
unfolding step
step-Succeeds desc n param p = go p.waiting
  where
    go :
        (w : Option Bytes)
        → Succeeds (elim w [
          | some name ↦ ok (record p {
            state = some switch_argument;
            switches = set_switch name param p.switches;
            waiting = none;
          })
          | none ↦ on_param desc true n param p
        ])
    go none = on_param-Succeeds desc n param p
    go (some name) = tt

bind-Succeeds :
    (r : Result ParametersParser) (f : ParametersParser → Result ParametersParser)
    → Succeeds r
    → ((p : ParametersParser) → Succeeds (f p))
    → Succeeds (r >>= f)
bind-Succeeds (ok p) f h k = k p
bind-Succeeds (err e) f h k = h

parse_loop-Succeeds :
    (desc : ParameterDesc) (n : ℕ) (params : List Bytes) (p : ParametersParser)
    → Succeeds (parse_loop desc true n params p)
unfolding parse_loop fail_unless
parse_loop-Succeeds desc n [] p = go p.waiting
  where
    go :
        (w : Option Bytes)
        → Succeeds
            (elim w [ some name ↦ fail_unless true p (missing_option_value name) | none ↦ ok p ])
    go none = tt
    go (some name) = tt
parse_loop-Succeeds desc n (param ∷ params) p =
    bind-Succeeds (step desc true n param p) (parse_loop desc true (suc n) params)
      (step-Succeeds desc n param p) (λ q. parse_loop-Succeeds desc (suc n) params q)

result_of :
    (desc : ParameterDesc) (n : ℕ) (r : Result ParametersParser)
    → Succeeds r
    → Ensures desc n r
    → (p : ParametersParser) × ((r >>= check_count desc true ≡ ok p) × IsParsed desc n p)
unfolding check_count
result_of desc n (ok p) h k = (p, (refl, k))
result_of desc n (err e) h k = absurd h

-- A parser that ignores errors gives a result for all parameters: positional indices that grow
-- and lie within the parameters, and only switches that the description knows.
pub parse_ignoring_errors :
    (desc : ParameterDesc) (params : List Bytes)
    → (p : ParametersParser) × ((parse desc true params ≡ ok p) × IsParsed desc (length params) p)
unfolding parse
parse_ignoring_errors desc params =
    result_of desc (length params) (parse_loop desc true 0 params (initial desc))
      (parse_loop-Succeeds desc 0 params (initial desc))
      (subst (λ m. Ensures desc m (parse_loop desc true 0 params (initial desc))) (omega arith)
        (parse_loop-Ensures desc true 0 params (initial desc) (initial-IsParsed desc)))
