-- ===== src/Tests/ParameterRuns.antt =====
-- Runs of the parser of parameters (src/parameters_parser.cc) on the switches of a command like
-- `hook`: -once without an argument, -group with one.
use kakoune.Prelude.{◌≡◌, refl, true, false, List, [], ◌∷◌, ◌++◌, none, some}
use kakoune.Prelude.Bytes.{Bytes, codes, bytes_equal}
use kakoune.Parameters.{
  ParameterDesc, positional, unknown_option, specified_twice, missing_option_value,
  wrong_argument_count, ok, err, ParametersParser, find_switch, seen, set_switch, fail_unless,
  add_positional, known_switch, unknown_switch, on_switch, switch_name, on_param, step, parse_loop,
  check_count, initial, parse, get_switch,
}
use kakoune.Parameters.Invariant.{IsParsed, IsAllowed, parse-IsParsed}
use kakoune.Parameters.Positional.{from, dashes_end_switches}
use kakoune.Parameters.Ignoring.{parse_ignoring_errors}

abbrev hook_desc : ParameterDesc
hook_desc = record {
  switches = (codes "once", false) ∷ (codes "group", true) ∷ [];
  switches_only_at_start = false;
  switches_as_positional = false;
  ignore_unknown_switches = false;
  min_positionals = 1;
  max_positionals = 4;
}

abbrev hook_params : List Bytes
hook_params = codes "-group" ∷ codes "grp" ∷ codes "global" ∷ codes "-once" ∷ codes "x" ∷ []

abbrev hook_parsed : ParametersParser
hook_parsed = record {
  state = some positional;
  switches = (codes "group", codes "grp") ∷ (codes "once", []) ∷ [];
  positional_indices = 2 ∷ 4 ∷ [];
  only_pos = false;
  switch_seen = codes "once" ∷ codes "group" ∷ [];
  waiting = none;
}

hook_parses : parse hook_desc false hook_params ≡ ok hook_parsed
unfolding parse parse_loop step on_param on_switch known_switch unknown_switch find_switch seen
    set_switch add_positional switch_name check_count fail_unless bytes_equal
hook_parses = refl

unknown_fails : parse hook_desc false (codes "-x" ∷ []) ≡ err (unknown_option (codes "-x"))
unfolding parse parse_loop step on_param on_switch known_switch unknown_switch find_switch seen
    set_switch add_positional switch_name check_count fail_unless bytes_equal
unknown_fails = refl

twice_fails :
    parse hook_desc false (codes "-once" ∷ codes "-once" ∷ [])
    ≡ err (specified_twice (codes "once"))
unfolding parse parse_loop step on_param on_switch known_switch unknown_switch find_switch seen
    set_switch add_positional switch_name check_count fail_unless bytes_equal
twice_fails = refl

missing_fails :
    parse hook_desc false (codes "-group" ∷ []) ≡ err (missing_option_value (codes "group"))
unfolding parse parse_loop step on_param on_switch known_switch unknown_switch find_switch seen
    set_switch add_positional switch_name check_count fail_unless bytes_equal
missing_fails = refl

count_fails : parse hook_desc false (codes "-once" ∷ []) ≡ err wrong_argument_count
unfolding parse parse_loop step on_param on_switch known_switch unknown_switch find_switch seen
    set_switch add_positional switch_name check_count fail_unless bytes_equal
count_fails = refl

group_is_read : get_switch hook_parsed.switches (codes "group") ≡ some (codes "grp")
unfolding get_switch bytes_equal
group_is_read = refl

parse-IsParsed_example : IsParsed hook_desc 5 hook_parsed × IsAllowed hook_desc 2
parse-IsParsed_example = parse-IsParsed hook_desc hook_params hook_parsed hook_parses

parse_ignoring_errors_example :
    (p : ParametersParser) × ((parse hook_desc true (codes "-x" ∷ codes "-once" ∷ []) ≡ ok p)
      × IsParsed hook_desc 2 p)
parse_ignoring_errors_example = parse_ignoring_errors hook_desc (codes "-x" ∷ codes "-once" ∷ [])

dashes_end_switches_example :
    (q : ParametersParser) × ((parse_loop hook_desc false 0
          (codes "--" ∷ codes "-once" ∷ [])
          (initial hook_desc)
        ≡ ok q)
      × ((q.positional_indices ≡ [] ++ from 1 1) × (q.switches ≡ [])))
dashes_end_switches_example =
    dashes_end_switches hook_desc false 0 (codes "-once" ∷ []) (initial hook_desc) refl refl refl
