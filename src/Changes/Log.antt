-- ===== src/Changes/Log.antt =====
-- The log of changes of a buffer (do_insert and do_erase of src/buffer.cc) describes how its lines
-- become what they are.
use kakoune.Prelude.{
  ◌≡◌, ◌≢◌, refl, sym, ap, subst, ◌∙◌, false, List, [], ◌∷◌, ◌++◌, append_assoc, append-nil,
  append_cancel, arith, length, length-append, length-take, ℕ, zero, suc, ◌≤◌, ◌<◌, ◌⊎◌, inl, inr,
  true, Bool-cases,
}
use kakoune.Coord.{BufferCoord, coord_lt, coord_eq}
use kakoune.Lines.{Bytes, BufferLines, newline, back, insert_lines, insert_end, erase_lines}
use kakoune.Lines.View.{before, Valid, text_before, text_after, before-append-after}
use kakoune.Lines.WellFormed.{WellFormed}
use kakoune.Lines.Insert.Laws.{text-insert_lines, insert_lines-WellFormed, text_before-insert_lines}
use kakoune.Lines.Insert.Range.{insert_end_lem}
use kakoune.Lines.Erase.{
  IsRange, erase_lines-WellFormed, erase_lines-Valid, text_after-erase_lines,
  text_before-erase_lines,
}
use kakoune.Modification.{inserts, erases}
use kakoune.Buffer.{Buffer, Change, do_insert, do_erase}
use kakoune.Buffer.Fields.{do_insert_some, do_erase_some}
use kakoune.Changes.Track.{Describes, Logged, unchanged, changed}

abbrev insert_change : BufferLines → BufferCoord → Bytes → Change
insert_change ls c content = record { type = inserts; begin = c; end = insert_end ls c content }

abbrev erase_change : BufferCoord → BufferCoord → Change
erase_change begin end = record { type = erases; begin = begin; end = end }

-- The end of an insertion is not before its begin: more text stands before it.
before_mono :
    (ls : BufferLines) (l col l' col' : ℕ)
    → (l < l') ⊎ ((l ≡ l') × (col ≤ col'))
    → length (before ls l col) ≤ length (before ls l' col')
before_mono [] l col l' col' h = omega arith
before_mono (x ∷ xs) zero col zero col' (inl h) = absurd (omega (arith, h))
before_mono (x ∷ xs) zero col zero col' (inr h) =
    omega (arith, h.1, length-take col x, length-take col' x)
before_mono (x ∷ xs) zero col (suc l') col' h =
    omega (arith, length-take col x, length-append x (before xs l' col'))
before_mono (x ∷ xs) (suc l) col zero col' (inl h) = absurd (omega (arith, h))
before_mono (x ∷ xs) (suc l) col zero col' (inr h) = absurd (omega (arith, h.0))
before_mono (x ∷ xs) (suc l) col (suc l') col' (inl h) = omega (
  arith,
  length-append x (before xs l col),
  length-append x (before xs l' col'),
  before_mono xs l col l' col' (inl (omega (arith, h))),
)
before_mono (x ∷ xs) (suc l) col (suc l') col' (inr h) = omega (
  arith,
  length-append x (before xs l col),
  length-append x (before xs l' col'),
  before_mono xs l col l' col' (inr (omega (arith, h.0), h.1)),
)

lt_cases :
    (a b : BufferCoord)
    → coord_lt a b ≡ true
    → (a.line < b.line) ⊎ ((a.line ≡ b.line) × (a.column ≤ b.column))
unfolding coord_lt
lt_cases a b h = ground arith

nonempty-length : (content : Bytes) → content ≢ [] → 0 < length content
nonempty-length [] h = absurd (h refl)
nonempty-length (c ∷ content) h = omega arith

more_before :
    (ls : BufferLines) (b e : BufferCoord)
    → length (text_before ls b) < length (text_before ls e)
    → coord_lt e b ≡ false
more_before ls b e h = elim (Bool-cases (coord_lt e b)) [
  | inl q ↦
      absurd (omega (arith, h, before_mono ls e.line e.column b.line b.column (lt_cases e b q)))
  | inr q ↦ q
]

insert_change-Describes :
    (ls : BufferLines) (c : BufferCoord) (content : Bytes)
    → WellFormed ls
    → Valid ls c
    → content ≢ []
    → (c.line ≡ length ls → back content ≡ newline)
    → Describes (insert_change ls c content) ls (insert_lines ls c content)
insert_change-Describes ls c content w v ne eol =
    let (before_end, end_valid) = insert_end_lem ls c content w v ne in
    let ls' = insert_lines ls c content in
    let end = insert_end ls c content in
    record {
      well_formed = insert_lines-WellFormed ls c content w v ne eol;
      same_before = text_before-insert_lines ls c content w v ne;
      typed = (
        v,
        end_valid,
        append_cancel (text_before ls c ++ content) (
            ap (λ t. t ++ text_after ls' end) (sym before_end)
            ∙ before-append-after ls' end.line end.column
            ∙ text-insert_lines ls c content w v ne
            ∙ sym (append_assoc (text_before ls c) content (text_after ls c))),
      );
      in_order = more_before ls' c end (
          omega (
            arith,
            ap length (text_before-insert_lines ls c content w v ne),
            ap length before_end,
            length-append (text_before ls c) content,
            nonempty-length content ne,
          ));
    }

range_differ : (ls : BufferLines) (b e : BufferCoord) → IsRange ls b e → coord_eq b e ≡ false
unfolding coord_eq
range_differ ls b e h = ground (arith, h.0)

range_in_order : (b e : BufferCoord) (ls : BufferLines) → IsRange ls b e → coord_lt e b ≡ false
unfolding coord_lt
range_in_order b e ls h = ground (arith, h.0)

erase_change-Describes :
    (ls : BufferLines) (b e : BufferCoord)
    → WellFormed ls
    → Valid ls b
    → Valid ls e
    → IsRange ls b e
    → Describes (erase_change b e) ls (erase_lines ls b e)
erase_change-Describes ls b e w vb ve range = record {
  well_formed = erase_lines-WellFormed ls b e w vb ve range;
  same_before = text_before-erase_lines ls b e w vb ve range;
  typed = (
    ve,
    erase_lines-Valid ls b e w vb ve range,
    text_after-erase_lines ls b e w vb ve range,
    range_in_order b e ls range,
  );
  in_order = range_in_order b e ls range;
}

-- The log grows by changes that describe how the lines become those of the other buffer.
pub record Extends (b b' : Buffer) : Type 0 where
  pub more : List Change
  pub appended : b'.changes ≡ b.changes ++ more
  pub logged : Logged b.lines more b'.lines

pub Extends-same : (b b' : Buffer) → b'.lines ≡ b.lines → b'.changes ≡ b.changes → Extends b b'
Extends-same b b' e q = record {
  more = [];
  appended = q ∙ sym (append-nil b.changes);
  logged = subst (Logged b.lines []) (sym e) (unchanged b.lines);
}

Logged-append :
    (ls ls' ls'' : BufferLines) (cs ds : List Change)
    → Logged ls cs ls'
    → Logged ls' ds ls''
    → Logged ls (cs ++ ds) ls''
Logged-append ls ls' ls'' [] ds (unchanged _) k = k
Logged-append ls ls' ls'' (c ∷ cs) ds (changed _ _ _ ls1 _ d l) k =
    changed c (cs ++ ds) ls ls1 ls'' d (Logged-append ls1 ls' ls'' cs ds l k)

pub Extends-trans : (b b' b'' : Buffer) → Extends b b' → Extends b' b'' → Extends b b''
Extends-trans b b' b'' h k = record {
  more = h.more ++ k.more;
  appended = k.appended ∙ ap (λ cs. cs ++ k.more) h.appended ∙ append_assoc b.changes h.more k.more;
  logged = Logged-append b.lines b'.lines b''.lines h.more k.more h.logged k.logged;
}

pub do_insert-Extends :
    (b : Buffer) (c : BufferCoord) (content : Bytes)
    → WellFormed b.lines
    → Valid b.lines c
    → content ≢ []
    → (c.line ≡ length b.lines → back content ≡ newline)
    → Extends b (do_insert b c content).0
do_insert-Extends b c content w v ne eol = rw (do_insert_some b c content ne) (record {
  more = insert_change b.lines c content ∷ [];
  appended = refl;
  logged =
      changed _ [] b.lines _ _ (insert_change-Describes b.lines c content w v ne eol) (unchanged _);
})

pub do_erase-Extends :
    (b : Buffer) (begin end : BufferCoord)
    → WellFormed b.lines
    → Valid b.lines begin
    → Valid b.lines end
    → IsRange b.lines begin end
    → Extends b (do_erase b begin end).0
do_erase-Extends b begin end w vb ve range =
    rw (do_erase_some b begin end (range_differ b.lines begin end range)) (record {
      more = erase_change begin end ∷ [];
      appended = refl;
      logged =
          changed _ [] b.lines _ _ (erase_change-Describes b.lines begin end w vb ve range)
            (unchanged _);
    })
