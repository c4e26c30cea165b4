-- ===== src/Parameters/Invariant.antt =====
-- What the parser of parameters (src/parameters_parser.cc) keeps: positional indices in order and
-- within the parameters, and only switches that the description knows.
use kakoune.Prelude.{
  ℕ, suc, ◌+◌, ◌≤◌, ◌<◌, ◌≡◌, refl, subst, inl, inr, Bool, true, false, ◌||◌, List, [], ◌∷◌, ◌++◌,
  Option, none, some, ltb, if◌then◌else◌, length, arith, Bool-cases, Option-cases,
}
use kakoune.Prelude.Bytes.{Bytes, bytes_equal}
use kakoune.Parameters.{
  ParameterDesc, ParserState, switch, switch_argument, ParameterError, unknown_option,
  specified_twice, missing_option_value, wrong_argument_count, Result, ok, err, ◌>>=◌,
  ParametersParser, find_switch, seen, set_switch, fail_unless, add_positional, known_switch,
  unknown_switch, on_switch, switch_name, on_param, step, parse_loop, check_count, initial, parse,
}

-- Indices that grow, each below the bound.
abbrev pub GrowBelow : ℕ → List ℕ → Type 0
GrowBelow n [] = Unit
GrowBelow n (i ∷ []) = i < n
GrowBelow n (i ∷ j ∷ is) = (i < j) × GrowBelow n (j ∷ is)

GrowBelow-mono : (n m : ℕ) (is : List ℕ) → n ≤ m → GrowBelow n is → GrowBelow m is
GrowBelow-mono n m [] h g = tt
GrowBelow-mono n m (i ∷ []) h g = omega (arith, g)
GrowBelow-mono n m (i ∷ j ∷ is) h g = (g.0, GrowBelow-mono n m (j ∷ is) h g.1)

GrowBelow-append : (n : ℕ) (is : List ℕ) → GrowBelow n is → GrowBelow (suc n) (is ++ (n ∷ []))
GrowBelow-append n [] g = omega arith
GrowBelow-append n (i ∷ []) g = (g, omega arith)
GrowBelow-append n (i ∷ j ∷ is) g = (g.0, GrowBelow-append n (j ∷ is) g.1)

-- The description knows the switch.
abbrev pub IsKnown : ParameterDesc → Bytes → Type 0
IsKnown desc name = (takes : Bool) × (find_switch desc.switches name ≡ some takes)

abbrev pub AreKnown : ParameterDesc → List (Bytes × Bytes) → Type 0
AreKnown desc [] = Unit
AreKnown desc ((name, value) ∷ switches) = IsKnown desc name × AreKnown desc switches

abbrev pub WaitsForKnown : ParameterDesc → Option Bytes → Type 0
WaitsForKnown desc none = Unit
WaitsForKnown desc (some name) = IsKnown desc name

pub record IsParsed (desc : ParameterDesc) (n : ℕ) (p : ParametersParser) : Type 0 where
  pub indices : GrowBelow n p.positional_indices
  pub known : AreKnown desc p.switches
  pub waits : WaitsForKnown desc p.waiting

set_switch-AreKnown :
    (desc : ParameterDesc) (name value : Bytes) (switches : List (Bytes × Bytes))
    → IsKnown desc name
    → AreKnown desc switches
    → AreKnown desc (set_switch name value switches)
unfolding set_switch
set_switch-AreKnown desc name value [] h k = (h, tt)
set_switch-AreKnown desc name value ((n, v) ∷ switches) h k =
    elim (Bool-cases (bytes_equal n name)) [
      | inl q ↦ rw q (h, k.1)
      | inr q ↦ rw q (k.0, set_switch-AreKnown desc name value switches h k.1)
    ]

-- A step's result is parsed, if it is one.
abbrev pub Ensures : ParameterDesc → ℕ → Result ParametersParser → Type 0
Ensures desc n (ok p) = IsParsed desc n p
Ensures desc n (err e) = Unit

fail_unless-Ensures :
    (desc : ParameterDesc) (n : ℕ) (ignore_errors : Bool) (p : ParametersParser)
    (e : ParameterError)
    → IsParsed desc n p
    → Ensures desc n (fail_unless ignore_errors p e)
unfolding fail_unless
fail_unless-Ensures desc n true p e h = h
fail_unless-Ensures desc n false p e h = tt

add_positional-IsParsed :
    (desc : ParameterDesc) (n : ℕ) (p : ParametersParser)
    → IsParsed desc n p
    → IsParsed desc (suc n) (add_positional desc n p)
unfolding add_positional
add_positional-IsParsed desc n p h = record {
  indices = GrowBelow-append n p.positional_indices h.indices;
  known = h.known;
  waits = h.waits;
}

later :
    (desc : ParameterDesc) (n : ℕ) (p : ParametersParser)
    → IsParsed desc n p
    → IsParsed desc (suc n) p
later desc n p h = record {
  indices = GrowBelow-mono n (suc n) p.positional_indices (omega arith) h.indices;
  known = h.known;
  waits = h.waits;
}

known_switch-Ensures :
    (desc : ParameterDesc) (n : ℕ) (ignore_errors : Bool) (name : Bytes) (takes : Bool)
    (p : ParametersParser)
    → find_switch desc.switches name ≡ some takes
    → IsParsed desc n p
    → Ensures desc n (known_switch ignore_errors name takes p)
unfolding known_switch
known_switch-Ensures desc n ignore_errors name takes p e h =
    elim (Bool-cases (seen p.switch_seen name)) [
      | inl q ↦ rw q (
          fail_unless-Ensures desc n ignore_errors (record p { state = some switch })
            (specified_twice name)
            (record { indices = h.indices; known = h.known; waits = h.waits }))
      | inr q ↦ rw q (with_kind takes e)
    ]
  where
    with_kind :
        (takes : Bool)
        → find_switch desc.switches name ≡ some takes
        → IsParsed desc n (record p {
          state = some switch;
          switch_seen = name ∷ p.switch_seen;
          switches = if takes then p.switches else set_switch name [] p.switches;
          waiting = if takes then some name else none;
        })
    with_kind true e = record { indices = h.indices; known = h.known; waits = (true, e) }
    with_kind false e = record {
      indices = h.indices;
      known = set_switch-AreKnown desc name [] p.switches (false, e) h.known;
      waits = tt;
    }

if-Ensures :
    (desc : ParameterDesc) (n : ℕ) (b : Bool) (x y : Result ParametersParser)
    → Ensures desc n x
    → Ensures desc n y
    → Ensures desc n (if b then x else y)
if-Ensures desc n true x y h k = h
if-Ensures desc n false x y h k = k

-- The members that only steer the parser may change.
with_state :
    (desc : ParameterDesc) (n : ℕ) (p : ParametersParser) (s : Option ParserState) (b : Bool)
    → IsParsed desc n p
    → IsParsed desc (suc n) (record p { state = s; only_pos = b })
with_state desc n p s b h = record {
  indices = GrowBelow-mono n (suc n) p.positional_indices (omega arith) h.indices;
  known = h.known;
  waits = h.waits;
}

on_switch-Ensures :
    (desc : ParameterDesc) (ignore_errors : Bool) (n : ℕ) (param name : Bytes)
    (p : ParametersParser)
    → IsParsed desc n p
    → Ensures desc (suc n) (on_switch desc ignore_errors n param name p)
unfolding on_switch unknown_switch
on_switch-Ensures desc ignore_errors n param name p h =
    elim (Option-cases (find_switch desc.switches name)) [
      | inl q ↦
          rw (q, on_switch)
            (if-Ensures desc (suc n) desc.ignore_unknown_switches (ok (add_positional desc n p)) _
              (add_positional-IsParsed desc n p h)
              (fail_unless-Ensures desc (suc n) ignore_errors (record p { state = some switch })
                (unknown_option param) (with_state desc n p (some switch) p.only_pos h)))
      | inr (takes, q) ↦
          rw (q, on_switch)
            (known_switch-Ensures desc (suc n) ignore_errors name takes p q (later desc n p h))
    ]

dash-Ensures :
    (desc : ParameterDesc) (ignore_errors : Bool) (n : ℕ) (param : Bytes) (p : ParametersParser)
    → IsParsed desc n p
    → Ensures desc (suc n) (elim (switch_name param) [
      | none ↦ ok (add_positional desc n p)
      | some name ↦ on_switch desc ignore_errors n param name p
    ])
dash-Ensures desc ignore_errors n param p h = elim (Option-cases (switch_name param)) [
  | inl m ↦ rw m (add_positional-IsParsed desc n p h)
  | inr (name, m) ↦ rw m (on_switch-Ensures desc ignore_errors n param name p h)
]

on_param-Ensures :
    (desc : ParameterDesc) (ignore_errors : Bool) (n : ℕ) (param : Bytes) (p : ParametersParser)
    → IsParsed desc n p
    → Ensures desc (suc n) (on_param desc ignore_errors n param p)
unfolding on_param
on_param-Ensures desc ignore_errors n param p h =
    if-Ensures desc (suc n) _ (ok (record p { state = some switch; only_pos = true })) _
      (with_state desc n p (some switch) true h)
      (if-Ensures desc (suc n) p.only_pos (ok (add_positional desc n p)) _
        (add_positional-IsParsed desc n p h) (dash-Ensures desc ignore_errors n param p h))

step-Ensures :
    (desc : ParameterDesc) (ignore_errors : Bool) (n : ℕ) (param : Bytes) (p : ParametersParser)
    → IsParsed desc n p
    → Ensures desc (suc n) (step desc ignore_errors n param p)
unfolding step
step-Ensures desc ignore_errors n param p h = go p.waiting h.waits
  where
    go :
        (w : Option Bytes)
        → WaitsForKnown desc w
        → Ensures desc (suc n) (elim w [
          | some name ↦ ok (record p {
            state = some switch_argument;
            switches = set_switch name param p.switches;
            waiting = none;
          })
          | none ↦ on_param desc ignore_errors n param p
        ])
    go none k = on_param-Ensures desc ignore_errors n param p h
    go (some name) k = record {
      indices = (later desc n p h).indices;
      known = set_switch-AreKnown desc name param p.switches k h.known;
      waits = tt;
    }

pub parse_loop-Ensures :
    (desc : ParameterDesc) (ignore_errors : Bool) (n : ℕ) (params : List Bytes)
    (p : ParametersParser)
    → IsParsed desc n p
    → Ensures desc (length params + n) (parse_loop desc ignore_errors n params p)
unfolding parse_loop
parse_loop-Ensures desc ignore_errors n [] p h =
    subst (λ m. Ensures desc m (parse_loop desc ignore_errors n [] p)) (omega arith) (go p.waiting)
  where
    go :
        (w : Option Bytes)
        → Ensures desc n (elim w [
          | some name ↦ fail_unless ignore_errors p (missing_option_value name)
          | none ↦ ok p
        ])
    go none = h
    go (some name) = fail_unless-Ensures desc n ignore_errors p (missing_option_value name) h
parse_loop-Ensures desc ignore_errors n (param ∷ params) p h =
    go (parse_loop-Ensures desc ignore_errors (suc n) params) (step desc ignore_errors n param p)
      (step-Ensures desc ignore_errors n param p h)
  where
    go :
        ((q : ParametersParser)
          → IsParsed desc (suc n) q
          → Ensures desc (length params + suc n) (parse_loop desc ignore_errors (suc n) params q))
        → (r : Result ParametersParser) → Ensures desc (suc n) r
        → Ensures desc
            (suc (length params) + n)
            (r >>= parse_loop desc ignore_errors (suc n) params)
    go rest (err e) k = tt
    go rest (ok q) k =
        subst (λ m. Ensures desc m (parse_loop desc ignore_errors (suc n) params q)) (omega arith)
          (rest q k)

pub initial-IsParsed : (desc : ParameterDesc) → IsParsed desc 0 (initial desc)
initial-IsParsed desc = record { indices = tt; known = tt; waits = tt }

-- The number of positional parameters is one the description allows.
abbrev pub IsAllowed : ParameterDesc → ℕ → Type 0
IsAllowed desc count = (desc.min_positionals ≤ count) × (count ≤ desc.max_positionals)

ltb_false→le : (a b : ℕ) → ltb a b ≡ false → b ≤ a
ltb_false→le a b h = ground arith

check_count_lem :
    (desc : ParameterDesc) (p q : ParametersParser)
    → check_count desc false p ≡ ok q
    → (p ≡ q) × IsAllowed desc (length p.positional_indices)
unfolding check_count
check_count_lem desc p q e =
    go (ltb desc.max_positionals (length p.positional_indices))
      (ltb (length p.positional_indices) desc.min_positionals) refl refl e
  where
    go :
        (b c : Bool)
        → ltb desc.max_positionals (length p.positional_indices) ≡ b
        → ltb (length p.positional_indices) desc.min_positionals ≡ c
        → (if b || c then err wrong_argument_count else ok p) ≡ ok q
        → (p ≡ q) × IsAllowed desc (length p.positional_indices)
    go true c u v e = absurd (cc)
    go false true u v e = absurd (cc)
    go false false u v e = (
      cc,
      (
        ltb_false→le (length p.positional_indices) desc.min_positionals v,
        ltb_false→le desc.max_positionals (length p.positional_indices) u,
      ),
    )

-- A parse that reports its errors and succeeds has positional indices that grow and lie within
-- the parameters, as many as the description allows, and only switches that it knows.
pub parse-IsParsed :
    (desc : ParameterDesc) (params : List Bytes) (p : ParametersParser)
    → parse desc false params ≡ ok p
    → IsParsed desc (length params) p × IsAllowed desc (length p.positional_indices)
unfolding parse
parse-IsParsed desc params p e =
    go (parse_loop desc false 0 params (initial desc))
      (parse_loop-Ensures desc false 0 params (initial desc) (initial-IsParsed desc)) e
  where
    go :
        (r : Result ParametersParser)
        → Ensures desc (length params + 0) r
        → (r >>= check_count desc false) ≡ ok p
        → IsParsed desc (length params) p × IsAllowed desc (length p.positional_indices)
    go (err x) k e = absurd (cc)
    go (ok q) k e =
        let (same, allowed) = check_count_lem desc q p e in
        subst (λ x. IsParsed desc (length params) x × IsAllowed desc (length x.positional_indices))
          same (subst (λ m. IsParsed desc m q) (omega arith) k, allowed)
