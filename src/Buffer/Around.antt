-- ===== src/Buffer/Around.antt =====
-- What Buffer::erase and Buffer::insert (src/buffer.cc) leave around a position.
use kakoune.Prelude.{
  ℕ, zero, suc, ◌-◌, ◌<◌, ◌≡◌, ◌≢◌, refl, sym, ap, ◌∙◌, inl, inr, false, [], ◌∷◌, ◌++◌, arith,
  Bool-cases, length, take, drop, ==_iff,
}
use kakoune.Coord.{BufferCoord, coord_eq, coord_lt, coord_le}
use kakoune.Lines.{Bytes, BufferLines, newline, back, line_at, is_end}
use kakoune.Lines.View.{text, after, Valid, text_before, text_after, before-append-after, after-end}
use kakoune.Lines.WellFormed.{WellFormed, IsLine}
use kakoune.Lines.Insert.Laws.{is_end-Valid}
use kakoune.Lines.Erase.{
  erase_lines-WellFormed, text_before-erase_lines, text_after-erase_lines, erase_lines-Valid,
}
use kakoune.Modification.Laws.{end_of_nil}
use kakoune.Buffer.{Buffer, ok, real_content, insert, erase, erase_end}
use kakoune.Buffer.Fields.{throw_if_writable}
use kakoune.Buffer.Edit.{erase_end_lem, removal-IsRange}
use kakoune.Buffer.Text.{erased_buffer, erase_result, erase_nothing, later_of, insert-text}

-- What `erase` leaves around `begin`.
pub record Erased (b b' : Buffer) (begin end : BufferCoord) : Type 0 where
  pub writable : b'.is_read_only ≡ false
  pub well_formed : WellFormed b'.lines
  pub valid : Valid b'.lines begin
  pub same_before : text_before b'.lines begin ≡ text_before b.lines begin
  pub rest_after :
      text_after b'.lines begin ≡ text_after b.lines (later_of begin (erase_end b.lines begin end))

pub erase-Erased :
    (b : Buffer) (begin end : BufferCoord)
    → WellFormed b.lines
    → 0 < length b.lines
    → Valid b.lines begin
    → Valid b.lines end
    → b.is_read_only ≡ false
    → (b' : Buffer) × (erase b begin end ≡ ok (b', begin)) × Erased b b' begin end
erase-Erased b begin end w ne vb ve h =
    let e = erase_end b.lines begin end in
    elim (Bool-cases (coord_le e begin)) [
      | inl t ↦ (
        b,
        erase_nothing b begin end h t,
        record { writable = h; well_formed = w; valid = vb; same_before = refl; rest_after = rw t },
      )
      | inr t ↦
          let (ve', _) = erase_end_lem b.lines begin end w vb ve ne in
          let range = removal-IsRange b.lines begin end w vb ve ne t in
          (
            erased_buffer b begin e,
            erase_result b begin end h t,
            record {
              writable = h;
              well_formed = erase_lines-WellFormed b.lines begin e w vb ve' range;
              valid = erase_lines-Valid b.lines begin e w vb ve' range;
              same_before = text_before-erase_lines b.lines begin e w vb ve' range;
              rest_after = rw t (text_after-erase_lines b.lines begin e w vb ve' range);
            },
          )
    ]

same_content :
    (ls : BufferLines) (c : BufferCoord) (content : Bytes)
    → Valid ls c
    → text_after ls c ≢ []
    → real_content ls c content ≡ content
same_content ls c content v ne = elim (Bool-cases (is_end ls c)) [
  | inl e ↦
      let at_end : c.line ≡ length ls =
        (==_iff c.line (length ls)).0 (sym (is_end-Valid ls c v) ∙ e) in
      absurd (ne (ap (λ l. after ls l c.column) at_end ∙ after-end ls c.column))
  | inr e ↦ rw e
]

drop-last : (x : Bytes) (col : ℕ) → IsLine x → suc col ≡ length x → drop col x ≡ newline ∷ []
drop-last [] col w h = absurd w
drop-last (c ∷ []) zero w h = ap (λ n. n ∷ []) w
drop-last (c ∷ []) (suc col) w h = absurd (omega arith)
drop-last (c ∷ d ∷ r) zero w h = absurd (omega arith)
drop-last (c ∷ d ∷ r) (suc col) w h = drop-last (d ∷ r) col w.1 (omega arith)

-- The last newline stands behind the last position.
pub last_after :
    (ls : BufferLines) (l col : ℕ)
    → WellFormed ls
    → suc l ≡ length ls
    → suc col ≡ length (line_at ls l)
    → after ls l col ≡ newline ∷ []
last_after [] l col w h k = absurd (omega arith)
last_after (x ∷ []) zero col w h k = ap (λ t. t ++ []) (drop-last x col w.0 k)
last_after (x ∷ y ∷ r) zero col w h k = absurd (omega arith)
last_after (x ∷ xs) (suc l) col w h k = last_after xs l col w.1 (omega arith) k

pub without_last :
    (content : Bytes)
    → content ≢ []
    → back content ≡ newline
    → take (length content - 1) content ++ newline ∷ [] ≡ content
without_last content ne e = go content ne e (length content - 1) (nonempty content ne)
  where
    nonempty : (xs : Bytes) → xs ≢ [] → suc (length xs - 1) ≡ length xs
    nonempty [] ne = absurd (ne refl)
    nonempty (x ∷ xs) ne = omega arith

    go :
        (xs : Bytes)
        → xs ≢ []
        → back xs ≡ newline
        → (n : ℕ) → suc n ≡ length xs
        → take n xs ++ newline ∷ [] ≡ xs
    go [] ne e n h = absurd (ne refl)
    go (x ∷ []) ne e zero h = ap (λ c. c ∷ []) (sym e)
    go (x ∷ []) ne e (suc n) h = absurd (omega arith)
    go (x ∷ y ∷ r) ne e zero h = absurd (omega arith)
    go (x ∷ y ∷ r) ne e (suc n) h = ap (x ∷◌) (go (y ∷ r) (λ q. cc) e n (omega arith))

-- An insertion where something stands behind the position, of any content.
pub insert_inside :
    (b : Buffer) (c : BufferCoord) (content : Bytes)
    → WellFormed b.lines
    → Valid b.lines c
    → b.is_read_only ≡ false
    → text_after b.lines c ≢ []
    → (b' : Buffer) × (range : BufferCoord × BufferCoord) × (insert b c content ≡ ok (b', range))
      × (text b'.lines ≡ text_before b.lines c ++ (content ++ text_after b.lines c))
unfolding insert
insert_inside b c [] w v h ne =
    (b, (c, c), throw_if_writable b _ h, sym (before-append-after b.lines c.line c.column))
insert_inside b c (x ∷ r) w v h ne =
    let nonempty : ◌≢◌ {A = Bytes} (x ∷ r) [] = λ q. cc in
    let (b', e, q, t, _, _, _) = insert-text b c (x ∷ r) w v h nonempty in
    (
      b',
      (c, e),
      q,
      t
          ∙ ap (λ real. text_before b.lines c ++ (real ++ text_after b.lines c))
              (same_content b.lines c (x ∷ r) v ne),
    )

pub later_end : (begin end : BufferCoord) → coord_lt end begin ≡ false → later_of begin end ≡ end
unfolding coord_lt coord_le coord_eq
later_end begin end h = elim (Bool-cases (coord_le end begin)) [
  | inl t ↦
      let line : begin.line ≡ end.line = ground arith in
      let column : begin.column ≡ end.column = ground arith in
      rw t (λ i. record { line = line i; column = column i })
  | inr t ↦ rw t
]

pub stands_inside :
    (ls : BufferLines) (c : BufferCoord)
    → WellFormed ls
    → Valid ls c
    → is_end ls c ≡ false
    → text_after ls c ≢ []
stands_inside ls c w v h e =
    cc (h, is_end-Valid ls c v, (==_iff c.line (length ls)).1 (end_of_nil ls c w v e).0)
