-- ===== src/Buffer/Fields.antt =====
-- What the edits of class Buffer (src/buffer.cc) leave alone: applying modifications changes the
-- lines and the log of changes, and no other field.
use kakoune.Prelude.{
  sym, false, if◌then◌else◌, ◌≢◌, ◌≡◌, refl, ap, ◌∙◌, inl, inr, List, [], ◌∷◌, Bool-cases, length,
}
use kakoune.Prelude.Int.{pos}
use kakoune.Coord.{BufferCoord, coord_eq}
use kakoune.Lines.{Bytes, BufferLines, insert_lines, insert_end, erase_lines, advance}
use kakoune.Modification.{
  Modification, ChangeType, inserts, erases, apply_lines, apply_group, modification_end,
}
use kakoune.Buffer.{
  Error, Result, ok, err, read_only, throw_if_read_only, Buffer, Change, push_change, do_insert,
  do_erase, apply_modification, apply_typed_modification, apply_modifications,
}

-- The buffer with other lines and another log.
abbrev pub with_lines : Buffer → BufferLines → List Change → Buffer
with_lines b ls changes = record b { lines = ls; changes = changes }

pub do_insert_lem :
    (b : Buffer) (c : BufferCoord) (content : Bytes)
    → (changes : List Change) × ((do_insert b c content).0
        ≡ with_lines b (insert_lines b.lines c content) changes)
unfolding do_insert insert_lines
do_insert_lem b c [] = (b.changes, refl)
do_insert_lem b c (x ∷ r) = (_, refl)

err_ne_ok {ℓ} : {A : Type ℓ} {e : Error} {a : A} → ◌≢◌ {A = Result A} (err e) (ok a)
err_ne_ok h = cc

-- A buffer that may be written does not throw.
pub throw_if_writable {ℓ} :
    {A : Type ℓ} (b : Buffer) (r : Result A) → b.is_read_only ≡ false → throw_if_read_only b r ≡ r
throw_if_writable b r h = ap (λ q. if q then err read_only else r) h

-- A method that succeeds was called on a buffer that may be written.
pub writable_of_ok {ℓ} :
    {A : Type ℓ} (b : Buffer) (r : Result A) (a : A)
    → throw_if_read_only b r ≡ ok a
    → b.is_read_only ≡ false
writable_of_ok b r a h = elim (Bool-cases b.is_read_only) [
  | inl e ↦ absurd (err_ne_ok (sym (ap (λ q. if q then err read_only else r) e) ∙ h))
  | inr e ↦ e
]

-- The results where something changes.
pub do_insert_some :
    (b : Buffer) (c : BufferCoord) (content : Bytes)
    → content ≢ []
    → do_insert b c content ≡ (
      with_lines b
          (insert_lines b.lines c content)
          (push_change inserts c (insert_end b.lines c content) b.changes),
      (c, insert_end b.lines c content),
    )
unfolding do_insert
do_insert_some b c [] ne = absurd (ne refl)
do_insert_some b c (x ∷ r) ne = refl

pub do_erase_some :
    (b : Buffer) (begin end : BufferCoord)
    → coord_eq begin end ≡ false
    → do_erase b begin end ≡ (
      with_lines b (erase_lines b.lines begin end) (push_change erases begin end b.changes),
      begin,
    )
unfolding do_erase
do_erase_some b begin end e = rw e

pub do_erase_lem :
    (b : Buffer) (begin end : BufferCoord)
    → (changes : List Change) × ((do_erase b begin end).0
        ≡ with_lines b (erase_lines b.lines begin end) changes)
unfolding do_erase erase_lines coord_eq
do_erase_lem b begin end = elim (Bool-cases (coord_eq begin end)) [
  | inl e ↦ (b.changes, rw e)
  | inr e ↦ (push_change erases begin end b.changes, rw e)
]

pub apply_typed_lem :
    (type : ChangeType) (b : Buffer) (m : Modification)
    → (changes : List Change) × (apply_typed_modification type b m.coord m.content
        ≡ with_lines b (apply_lines b.lines (record m { type = type })) changes)
unfolding apply_lines modification_end
apply_typed_lem inserts b m = do_insert_lem b m.coord m.content
apply_typed_lem erases b m =
    do_erase_lem b m.coord (advance b.lines m.coord (pos (length m.content)))

-- A group of modifications, on the buffer and on its lines.
pub apply_modifications_lem :
    (b : Buffer) (ms : List Modification)
    → (changes : List Change) × (apply_modifications b ms
        ≡ with_lines b (apply_group b.lines ms) changes)
unfolding apply_modifications apply_group apply_modification
apply_modifications_lem b [] = (b.changes, refl)
apply_modifications_lem b (m ∷ ms) =
    let (changes, e) = apply_typed_lem m.type b m in
    let (changes', e') =
      apply_modifications_lem (with_lines b (apply_lines b.lines m) changes) ms in
    (changes', ap (λ b'. apply_modifications b' ms) e ∙ e')
