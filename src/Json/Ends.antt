-- ===== src/Json/Ends.antt =====
-- Two rounds for each byte are enough for the parser of JSON (src/json.cc: parse_json_impl).
use kakoune.Prelude.{ℕ, zero, suc, ◌+◌, ◌*◌, ◌<◌, arith, length}
use kakoune.Prelude.Bytes.{Bytes}
use kakoune.Json.{
  Fields, no_fields, skip_blanks, parse_json_impl, items_loop, fields_loop, parse_json,
}
use kakoune.Json.Fuel.{
  EndsBelow, EndsBelow-mono, then-EndsBelow, skip_blanks-length, parse_at-EndsBelow,
  next_item-EndsBelow, parse_field-EndsBelow,
}

mutual
  unfolding parse_json_impl

  parse_json_impl-EndsBelow :
      (fuel depth : ℕ) (s : Bytes)
      → 2 * length s < fuel
      → EndsBelow (length s) (parse_json_impl fuel depth s)
  parse_json_impl-EndsBelow zero depth s h = absurd (omega arith)
  parse_json_impl-EndsBelow (suc fuel) depth s h =
      EndsBelow-mono (length (skip_blanks s)) (length s) _ (skip_blanks-length s) (
        parse_at-EndsBelow (items_loop fuel depth) (fields_loop fuel depth no_fields) depth
          (skip_blanks s)
          (λ t l. items_loop-EndsBelow fuel depth t (omega (arith, skip_blanks-length s)))
          (λ t l.
            fields_loop-EndsBelow fuel depth no_fields t (omega (arith, skip_blanks-length s))))

  items_loop-EndsBelow :
      (fuel depth : ℕ) (s : Bytes)
      → 2 * length s + 1 < fuel
      → EndsBelow (length s) (items_loop fuel depth s)
  items_loop-EndsBelow zero depth s h = absurd (omega arith)
  items_loop-EndsBelow (suc fuel) depth s h =
      then-EndsBelow (length s) (length s) (parse_json_impl fuel (suc depth) s) _
        (parse_json_impl-EndsBelow fuel (suc depth) s (omega arith))
        (λ v rest l.
          EndsBelow-mono (length (skip_blanks rest)) (length s) _
            (omega (arith, skip_blanks-length rest))
            (next_item-EndsBelow v (items_loop fuel depth) (skip_blanks rest)
              (λ t m. items_loop-EndsBelow fuel depth t (omega (arith, skip_blanks-length rest)))))

  fields_loop-EndsBelow :
      (fuel depth : ℕ) (acc : Fields) (s : Bytes)
      → 2 * length s + 1 < fuel
      → EndsBelow (length s) (fields_loop fuel depth acc s)
  fields_loop-EndsBelow zero depth acc s h = absurd (omega arith)
  fields_loop-EndsBelow (suc fuel) depth acc s h =
      then-EndsBelow (length s) (length s) (parse_json_impl fuel (suc depth) s) _
        (parse_json_impl-EndsBelow fuel (suc depth) s (omega arith))
        (λ name rest l.
          parse_field-EndsBelow (parse_json_impl fuel (suc depth)) (fields_loop fuel depth) acc name
            rest (length s) l (λ t m. parse_json_impl-EndsBelow fuel (suc depth) t (omega arith))
            (λ fs t m. fields_loop-EndsBelow fuel depth fs t (omega arith)))

-- parse_json comes to an end on every text, with a value, without one or with an exception; and
-- what follows a value is shorter than the text.
pub parse_json-EndsBelow : (s : Bytes) → EndsBelow (length s) (parse_json s)
unfolding parse_json
parse_json-EndsBelow s = parse_json_impl-EndsBelow (2 * length s + 1) 0 s (omega arith)
