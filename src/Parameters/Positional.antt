-- ===== src/Parameters/Positional.antt =====
-- Positional parameters of the parser (src/parameters_parser.cc): once only positional parameters
-- are taken, every parameter is one.
use kakoune.Prelude.{
  ℕ, zero, suc, ◌≡◌, refl, sym, ap, ◌∙◌, Bool, true, false, not, ◌&&◌, ◌||◌, List, [], ◌∷◌, ◌++◌,
  none, some, if◌then◌else◌, length, append-nil, append_assoc,
}
use kakoune.Prelude.Bytes.{Bytes, codes, bytes_equal}
use kakoune.Parameters.{
  ParameterDesc, switch, switch_argument, missing_option_value, Result, ok, ◌>>=◌, ParametersParser,
  set_switch, fail_unless, add_positional, on_param, step, parse_loop,
}

unfoldable pub from : ℕ → ℕ → List ℕ
from n zero = []
from n (suc k) = n ∷ from (suc n) k

if_true : {A : Type 0} (b : Bool) (x y : A) → b ≡ true → (if b then x else y) ≡ x
if_true b x y h = ap (λ c. if c then x else y) h

if_false : {A : Type 0} (b : Bool) (x y : A) → b ≡ false → (if b then x else y) ≡ y
if_false b x y h = ap (λ c. if c then x else y) h

on_param_only :
    (desc : ParameterDesc) (ignore_errors : Bool) (n : ℕ) (param : Bytes) (p : ParametersParser)
    → p.only_pos ≡ true
    → on_param desc ignore_errors n param p ≡ ok (add_positional desc n p)
unfolding on_param
on_param_only desc ignore_errors n param p h =
    if_false _ _ _
      (ap (λ b. not b && (not desc.ignore_unknown_switches && bytes_equal param (codes "--"))) h)
    ∙ if_true p.only_pos _ _ h

step-none :
    (desc : ParameterDesc) (ignore_errors : Bool) (n : ℕ) (param : Bytes) (p : ParametersParser)
    → p.waiting ≡ none
    → step desc ignore_errors n param p ≡ on_param desc ignore_errors n param p
unfolding step
step-none desc ignore_errors n param p h =
    ap
      (λ w. elim w as (λ x. Result ParametersParser) [
        | some name ↦ ok (record p {
          state = some switch_argument;
          switches = set_switch name param p.switches;
          waiting = none;
        })
        | none ↦ on_param desc ignore_errors n param p
      ])
      h

parse_loop_end :
    (desc : ParameterDesc) (ignore_errors : Bool) (n : ℕ) (p : ParametersParser)
    → p.waiting ≡ none
    → parse_loop desc ignore_errors n [] p ≡ ok p
unfolding parse_loop
parse_loop_end desc ignore_errors n p h =
    ap
      (λ w. elim w as (λ x. Result ParametersParser) [
        | some name ↦ fail_unless ignore_errors p (missing_option_value name)
        | none ↦ ok p
      ])
      h

-- Every parameter is positional, after the indices and the switches so far.
abbrev TakesAll : ℕ → List Bytes → ParametersParser → Result ParametersParser → Type 0
TakesAll n params p r =
    (q : ParametersParser) × ((r ≡ ok q)
      × ((q.positional_indices ≡ p.positional_indices ++ from n (length params))
          × (q.switches ≡ p.switches)))

or_true : (b c : Bool) → b ≡ true → (b || c) ≡ true
or_true b c h = ap (λ x. x || c) h

parse_loop-step :
    (desc : ParameterDesc) (ignore_errors : Bool) (n : ℕ) (param : Bytes) (params : List Bytes)
    (p q : ParametersParser)
    → step desc ignore_errors n param p ≡ ok q
    → parse_loop desc ignore_errors n (param ∷ params) p
      ≡ parse_loop desc ignore_errors (suc n) params q
unfolding parse_loop
parse_loop-step desc ignore_errors n param params p q h =
    ap (λ r. r >>= parse_loop desc ignore_errors (suc n) params) h

add_positional_indices :
    (desc : ParameterDesc) (n : ℕ) (params : List Bytes) (p : ParametersParser)
    → (add_positional desc n p).positional_indices ++ from (suc n) (length params)
      ≡ p.positional_indices ++ (n ∷ from (suc n) (length params))
unfolding add_positional
add_positional_indices desc n params p =
    append_assoc p.positional_indices (n ∷ []) (from (suc n) (length params))

add_positional_switches :
    (desc : ParameterDesc) (n : ℕ) (p : ParametersParser)
    → (add_positional desc n p).switches ≡ p.switches
unfolding add_positional
add_positional_switches desc n p = refl

only_positional :
    (desc : ParameterDesc) (ignore_errors : Bool) (n : ℕ) (params : List Bytes)
    (p : ParametersParser)
    → p.only_pos ≡ true
    → p.waiting ≡ none
    → TakesAll n params p (parse_loop desc ignore_errors n params p)
unfolding from
only_positional desc ignore_errors n [] p h w =
    (p, (parse_loop_end desc ignore_errors n p w, (sym (append-nil p.positional_indices), refl)))
only_positional desc ignore_errors n (param ∷ params) p h w =
    let (q, (e, (is, ss))) =
      only_positional desc ignore_errors (suc n) params (add_positional desc n p)
        (unfold add_positional in or_true p.only_pos desc.switches_only_at_start h)
        (unfold add_positional in w) in
    (
      q,
      (
        parse_loop-step desc ignore_errors n param params p (add_positional desc n p) (
              step-none desc ignore_errors n param p w
              ∙ on_param_only desc ignore_errors n param p h)
            ∙ e,
        (is ∙ add_positional_indices desc n params p, ss ∙ add_positional_switches desc n p),
      ),
    )

dashes_equal : bytes_equal (codes "--") (codes "--") ≡ true
unfolding bytes_equal
dashes_equal = refl

on_dashes :
    (desc : ParameterDesc) (ignore_errors : Bool) (n : ℕ) (p : ParametersParser)
    → desc.ignore_unknown_switches ≡ false
    → p.only_pos ≡ false
    → on_param desc ignore_errors n (codes "--") p
      ≡ ok (record p { state = some switch; only_pos = true })
unfolding on_param
on_dashes desc ignore_errors n p i o = if_true _ _ _ (
    ap (λ b. not b && (not desc.ignore_unknown_switches && bytes_equal (codes "--") (codes "--"))) o
    ∙ ap (λ b. not b && bytes_equal (codes "--") (codes "--")) i
    ∙ dashes_equal)

-- After `--` every parameter is positional, from the next index on: none is taken as a switch and
-- there is no error, for a description whose unknown switches are errors and a state in which no
-- switch waits for its argument and switches are still taken.
pub dashes_end_switches :
    (desc : ParameterDesc) (ignore_errors : Bool) (n : ℕ) (params : List Bytes)
    (p : ParametersParser)
    → desc.ignore_unknown_switches ≡ false
    → p.only_pos ≡ false
    → p.waiting ≡ none
    → (q : ParametersParser) × ((parse_loop desc ignore_errors n (codes "--" ∷ params) p ≡ ok q)
        × ((q.positional_indices ≡ p.positional_indices ++ from (suc n) (length params))
            × (q.switches ≡ p.switches)))
dashes_end_switches desc ignore_errors n params p i o w =
    let (q, (e, rest)) =
      only_positional desc ignore_errors (suc n) params
        (record p { state = some switch; only_pos = true }) refl w in
    (
      q,
      (
        parse_loop-step desc ignore_errors n (codes "--") params p _ (
              step-none desc ignore_errors n (codes "--") p w
              ∙ on_dashes desc ignore_errors n p i o)
            ∙ e,
        rest,
      ),
    )
