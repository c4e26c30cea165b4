-- ===== src/Modification/Inverse.antt =====
-- Undoing modifications (Modification::inverse and the loops of Buffer::undo in src/buffer.cc).
use kakoune.Prelude.{
  ◌≡◌, ◌≢◌, sym, ap, subst, ◌∙◌, List, [], ◌∷◌, ◌++◌, append-nil, length, take, drop,
  take-append-drop, take-length_append, append_cancel,
}
use kakoune.Lines.{Bytes, BufferLines}
use kakoune.Lines.View.{Valid, text_after}
use kakoune.Lines.WellFormed.{WellFormed}
use kakoune.Lines.Insert.Laws.{text_after-insert_lines, insert_lines-WellFormed, insert_lines-Valid}
use kakoune.Coord.{BufferCoord}
use kakoune.Modification.{
  Modification, ChangeType, inserts, erases, inverse, opposite, modification_end, apply_lines,
  apply_typed, Fits, FitsTyped, apply_group, inverses, Leads,
}
use kakoune.Modification.Laws.{
  Covers, advance-Covers, erase-insert, insert-erase, erased_eol, end_of_nil, erased-WellFormed,
  erased-Valid,
}

-- What stands behind the bytes that an erasing modification removes.
abbrev pub rest_of : BufferLines → BufferCoord → Bytes → Bytes
rest_of ls c content = drop (length content) (text_after ls c)

module _ (ls : BufferLines) (c : BufferCoord) (content : Bytes) (w : WellFormed ls) (v : Valid ls c)
    (ne : content ≢ []) where
  stands : FitsTyped erases c content ls → text_after ls c ≡ content ++ rest_of ls c content
  stands f =
      sym (take-append-drop (length content) (text_after ls c))
      ∙ ap (λ t. t ++ rest_of ls c content) f.0

  pub erase-Covers :
      FitsTyped erases c content ls
      → Covers ls c (modification_end ls c content) content (rest_of ls c content)
  unfolding modification_end
  erase-Covers f =
      advance-Covers ls c content (rest_of ls c content) w v ne (stands f)
        (λ e. f.1 (stands f ∙ ap (content ++◌) e ∙ append-nil content))

  -- By the type: the result is well-formed, the inverse fits it, and gives the lines back.
  typed_inverse :
      (type : ChangeType)
      → FitsTyped type c content ls
      → let ls' = apply_typed type ls c content in
        WellFormed ls'
        × Valid ls' c
        × FitsTyped (opposite type) c content ls'
        × (apply_typed (opposite type) ls' c content ≡ ls)
  unfolding modification_end
  typed_inverse inserts f =
      let after = text_after-insert_lines ls c content w v ne in
      (
        insert_lines-WellFormed ls c content w v ne f,
        insert_lines-Valid ls c content w v ne f,
        (
          ap (take (length content)) after ∙ take-length_append content (text_after ls c),
          λ e.
              (end_of_nil ls c w v
                (append_cancel content (sym after ∙ e ∙ sym (append-nil content)))).1,
        ),
        erase-insert ls c content w v ne f,
      )
  typed_inverse erases f =
      let k = erase-Covers f in
      (
        erased-WellFormed ls c _ content (rest_of ls c content) w v ne (stands f) k,
        erased-Valid ls c _ content (rest_of ls c content) w v ne (stands f) k,
        erased_eol ls c _ content (rest_of ls c content) w v ne (stands f) k,
        insert-erase ls c _ content (rest_of ls c content) w v ne (stands f) k,
      )

-- On well-formed lines, a modification that fits gives well-formed lines that its inverse fits, and
-- applying the inverse gives the lines back.
pub apply-inverse :
    (m : Modification) (ls : BufferLines)
    → WellFormed ls
    → Fits m ls
    → WellFormed (apply_lines ls m)
      × Fits (inverse m) (apply_lines ls m)
      × (apply_lines (apply_lines ls m) (inverse m) ≡ ls)
unfolding apply_lines modification_end
apply-inverse m ls w f =
    let (w', v', f', e) =
      typed_inverse ls m.coord m.content w f.valid f.some_content m.type f.typed in
    (w', record { valid = v'; some_content = f.some_content; typed = f' }, e)

pub Leads-append :
    (ls : BufferLines) (ms ns : List Modification) (ls' ls'' : BufferLines)
    → Leads ls ms ls'
    → Leads ls' ns ls''
    → Leads ls (ms ++ ns) ls''
Leads-append ls [] ns ls' ls'' h k = subst (λ l. Leads l ns ls'') (sym h) k
Leads-append ls (m ∷ ms) ns ls' ls'' h k =
    (h.0, Leads-append (apply_lines ls m) ms ns ls' ls'' h.1 k)

-- A group that leads somewhere is what is applied.
pub Leads-apply_group :
    (ls : BufferLines) (ms : List Modification) (ls' : BufferLines)
    → Leads ls ms ls'
    → apply_group ls ms ≡ ls'
unfolding apply_group
Leads-apply_group ls [] ls' h = h
Leads-apply_group ls (m ∷ ms) ls' h = Leads-apply_group (apply_lines ls m) ms ls' h.1

pub Leads-WellFormed :
    (ls : BufferLines) (ms : List Modification) (ls' : BufferLines)
    → WellFormed ls
    → Leads ls ms ls'
    → WellFormed ls'
Leads-WellFormed ls [] ls' w h = subst WellFormed h w
Leads-WellFormed ls (m ∷ ms) ls' w h =
    Leads-WellFormed (apply_lines ls m) ms ls' (apply-inverse m ls w h.0).0 h.1

-- If a group of modifications leads from well-formed lines to others, then the inverses in the
-- reverse order lead from those back to the first.
pub Leads-inverses :
    (ls : BufferLines) (ms : List Modification) (ls' : BufferLines)
    → WellFormed ls
    → Leads ls ms ls'
    → Leads ls' (inverses ms) ls
unfolding inverses
Leads-inverses ls [] ls' w h = sym h
Leads-inverses ls (m ∷ ms) ls' w h =
    let (w', f', e) = apply-inverse m ls w h.0 in
    Leads-append ls' (inverses ms) (inverse m ∷ []) (apply_lines ls m) ls
      (Leads-inverses (apply_lines ls m) ms ls' w' h.1) (f', e)
