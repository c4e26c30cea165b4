-- ===== src/Commands/Execute/Words.antt =====
-- Command lines made of quoted words (src/command_manager.cc: read_token and execute;
-- src/string_utils.hh: quote).
use kakoune.Prelude.{
  ℕ, zero, suc, ◌+◌, ◌-◌, ◌≤◌, ◌<◌, ◌≡◌, refl, sym, ap, ◌∙◌, Bool, true, false, not, ◌&&◌, List, [],
  ◌∷◌, ◌++◌, append_assoc, append-nil, none, some, if◌then◌else◌, arith, length, is_empty,
  length-append, drop, drop-length_append,
}
use kakoune.Prelude.Bytes.{Bytes}
use kakoune.Strings.{quote, single_quote}
use kakoune.Commands.{
  Token, ParseState, ok, raw_quoted, compute_coord, compute_coord_loop, starts_with, skip_loop,
  skip_blanks_and_comments, is_ascii_horizontal_blank,
}
use kakoune.Commands.Quoted.{parse_quoted-quote}
use kakoune.Commands.Reader.{read_token, token_at, quoted_token}
use kakoune.Coord.{coord}
use kakoune.Commands.Execute.{
  Outcome, locate, is_separator, is_arg_expand, expand_param, run_command, Round, on_token, on_read,
  execute_loop, execute,
}

-- The state behind `before` in a line.
abbrev pub behind : Bytes → Bytes → ParseState
behind before rest = record { str = before ++ rest; pos = length before }

abbrev pub quoted_word : ℕ → Bytes → Token
quoted_word pos s = record { type = raw_quoted; pos = pos; content = s; terminated = true }

moved-behind : (before rest : Bytes) → length (before ++ rest) - length rest ≡ length before
moved-behind before rest = omega (arith, length-append before rest)

skips_one_blank : (s : Bytes) → skip_blanks_and_comments (32 ∷ single_quote ∷ s) ≡ single_quote ∷ s
unfolding skip_blanks_and_comments skip_loop is_ascii_horizontal_blank
skips_one_blank s = refl

terminated_passes : (throw : Bool) → (throw && not true) ≡ false
terminated_passes true = refl
terminated_passes false = refl

-- A quoted string behind a blank is read as one token, with the string as its content, and the
-- parser stands right behind it; no further quote follows.
pub read_token-quote :
    (iswalpha : ℕ → Bool) (throw : Bool) (before s rest : Bytes)
    → starts_with single_quote rest ≡ false
    → read_token iswalpha (behind before (32 ∷ (quote s ++ rest))) throw
      ≡ ok (some (quoted_word (length before + 2) s), behind (before ++ (32 ∷ quote s)) rest)
unfolding read_token token_at quoted_token
read_token-quote iswalpha throw before s rest h =
    let (body, e, p) = parse_quoted-quote s rest h in
    let text = ap (λ t. 32 ∷ (t ++ rest)) e in
    let str = before ++ (32 ∷ (quote s ++ rest)) in
    let at : drop (length before) str ≡ 32 ∷ single_quote ∷ (body ++ rest) =
      drop-length_append before (32 ∷ (quote s ++ rest)) ∙ text in
    let skipped = ap skip_blanks_and_comments at ∙ skips_one_blank (body ++ rest) in
    let size = length-append before (32 ∷ (quote s ++ rest)) in
    let size' = ap length text in
    let size'' = length-append body rest in
    let pos1 : length str - length (body ++ rest) ≡ length before + 2 =
      omega (arith, size, size') in
    let pos2 : length str - length rest ≡ length (before ++ (32 ∷ quote s)) =
      omega (arith, size, size', size'', length-append before (32 ∷ quote s), ap length e) in
    let same : str ≡ (before ++ (32 ∷ quote s)) ++ rest =
      sym (append_assoc before (32 ∷ quote s) rest) in
    rw (skipped, read_token, p, pos1, pos2, same, terminated_passes throw)

-- A command line of words, each quoted and with a blank before it.
unfoldable pub words : List Bytes → Bytes
words [] = []
words (s ∷ ss) = 32 ∷ (quote s ++ words ss)

words_cons : (s : Bytes) (ss : List Bytes) → 32 ∷ (quote s ++ words ss) ≡ words (s ∷ ss)
unfolding words
words_cons s ss = refl

words_go_on : (ss : List Bytes) → starts_with single_quote (words ss) ≡ false
unfolding words
words_go_on [] = refl
words_go_on (s ∷ ss) = refl

read_token-end :
    (iswalpha : ℕ → Bool) (before : Bytes)
    → read_token iswalpha (behind before []) true ≡ ok (none, behind before [])
unfolding read_token
read_token-end iswalpha before =
    let at : drop (length before) (before ++ []) ≡ [] = drop-length_append before [] in
    let none_left : skip_blanks_and_comments [] ≡ [] =
      unfold skip_blanks_and_comments skip_loop in refl in
    let size : length (before ++ []) - length {A = ℕ} [] ≡ length before =
      omega (arith, ap length (append-nil before)) in
    rw (at, none_left, read_token, size)

module _ {W E : Type 0} (iswalpha : ℕ → Bool)
    (expand_special : Token → W → Outcome W E (List Bytes))
    (run : List Bytes → W → Outcome W E (Unit {0})) (shell_params : List Bytes) where
  abbrev loop : ℕ → Round {W = W} {E = E} iswalpha expand_special run shell_params
  loop = execute_loop iswalpha expand_special run shell_params

  abbrev command : Bytes → List Bytes → ℕ → W → Outcome W E (Unit {0})
  command = run_command iswalpha expand_special run shell_params

  -- One round on a quoted word.
  word_round :
      (fuel : ℕ) (before s : Bytes) (ss params : List Bytes) (command_pos : ℕ) (w : W)
      → loop (suc fuel) (behind before (words (s ∷ ss))) params command_pos w
        ≡ loop fuel
            (behind (before ++ (32 ∷ quote s)) (words ss))
            (params ++ (s ∷ []))
            (if is_empty params then length before + 2 else command_pos)
            w
  unfolding execute_loop words on_read on_token is_separator expand_param is_arg_expand
  word_round fuel before s ss params command_pos w =
      rw (read_token-quote iswalpha true before s (words ss) (words_go_on ss))

  later_words :
      (fuel : ℕ) (before : Bytes) (ss : List Bytes) (p : Bytes) (params : List Bytes)
      (command_pos : ℕ) (w : W)
      → length ss < fuel
      → loop fuel (behind before (words ss)) (p ∷ params) command_pos w
        ≡ some (command (before ++ words ss) ((p ∷ params) ++ ss) command_pos w)
  later_words zero before ss p params command_pos w h = absurd (omega arith)
  later_words (suc fuel) before [] p params command_pos w h =
      unfold words execute_loop on_read in rw (read_token-end iswalpha before, append-nil params)
  later_words (suc fuel) before (s ∷ ss) p params command_pos w h =
      word_round fuel before s ss (p ∷ params) command_pos w
      ∙ later_words fuel (before ++ (32 ∷ quote s)) ss p (params ++ (s ∷ [])) command_pos w
          (omega arith)
      ∙ ap (λ l. some (command l ((p ∷ (params ++ (s ∷ []))) ++ ss) command_pos w))
          (append_assoc before (32 ∷ quote s) (words ss) ∙ ap (before ++◌) (words_cons s ss))
      ∙ ap (λ ps. some (command (before ++ words (s ∷ ss)) (p ∷ ps) command_pos w))
          (append_assoc params (s ∷ []) ss)

  words-length : (ss : List Bytes) → length ss ≤ length (words ss)
  unfolding words
  words-length [] = omega arith
  words-length (s ∷ ss) = omega (arith, words-length ss, length-append (quote s) (words ss))

  -- The first word begins behind the blank and the quote.
  run_command-words :
      (s : Bytes) (ss : List Bytes) (w : W)
      → command (words (s ∷ ss)) (s ∷ ss) 2 w ≡ locate (coord 0 2) s (run (s ∷ ss) w)
  unfolding run_command words quote compute_coord compute_coord_loop
  run_command-words s ss w = refl

  -- Executing words that are each quoted, with a blank before each, runs one command, once, with
  -- those words as they were as its name and parameters, and gives what it gives; what it throws
  -- passes the catch clauses with the first word as the command's name and the position of that
  -- word, behind its quote, as its place.
  pub execute-words :
      (s : Bytes) (ss : List Bytes) (w : W)
      → execute iswalpha expand_special run shell_params (words (s ∷ ss)) w
        ≡ some (locate (coord 0 2) s (run (s ∷ ss) w))
  unfolding execute
  execute-words s ss w =
      word_round (length (words (s ∷ ss))) [] s ss [] 0 w
      ∙ later_words (length (words (s ∷ ss))) (32 ∷ quote s) ss s [] 2 w
          (omega (arith, words-length (s ∷ ss)))
      ∙ ap (λ l. some (command l (s ∷ ss) 2 w)) (words_cons s ss)
      ∙ ap some (run_command-words s ss w)
