-- ===== src/Lines/Insert/Cut.antt =====
-- The loop of Buffer::do_insert (src/buffer.cc) that cuts the content into lines.
use kakoune.Prelude.{
  ℕ, zero, suc, ◌-◌, ◌<◌, ◌≡◌, ◌≢◌, refl, ap, inl, inr, Bool, true, false, [], ◌∷◌, ◌++◌,
  append-nil, append_assoc, arith, ◌==◌, ◌&&◌, if◌then◌else◌, length, is_empty, Bool-cases, ==_iff,
  length-append, take-length_append,
}
use kakoune.Lines.{Bytes, BufferLines, newline, back, line_at, cut_lines}
use kakoune.Lines.View.{text, before, IsAt}
use kakoune.Lines.WellFormed.{IsLine, NoNewline, WellFormed, All-append, IsLine-append}

-- The beginning of the line that is being cut.
abbrev pub start_of : Bool → Bytes → Bytes
start_of first prefix = if first then prefix else []

cut_lines-newline :
    (first : Bool) (prefix suffix pending : Bytes) (c : ℕ) (r : Bytes)
    → (c == newline) ≡ true
    → cut_lines first prefix suffix pending (c ∷ r)
      ≡ (start_of first prefix ++ (pending ++ c ∷ [])) ∷ cut_lines false prefix suffix [] r
unfolding cut_lines
cut_lines-newline true prefix suffix pending c r e = rw (e, cut_lines)
cut_lines-newline false prefix suffix pending c r e = rw (e, cut_lines)

cut_lines-other :
    (first : Bool) (prefix suffix pending : Bytes) (c : ℕ) (r : Bytes)
    → (c == newline) ≡ false
    → cut_lines first prefix suffix pending (c ∷ r)
      ≡ cut_lines first prefix suffix (pending ++ c ∷ []) r
unfolding cut_lines
cut_lines-other true prefix suffix pending c r e = rw (e, cut_lines)
cut_lines-other false prefix suffix pending c r e = rw (e, cut_lines)

-- The line left over after the loop when a newline was seen.
text-left_over :
    (pending suffix : Bytes)
    → text (if is_empty pending && is_empty suffix then [] else (pending ++ suffix) ∷ [])
      ≡ pending ++ suffix
text-left_over [] [] = refl
text-left_over [] (s ∷ suffix) = append-nil (s ∷ suffix)
text-left_over (p ∷ pending) suffix = append-nil ((p ∷ pending) ++ suffix)

-- The coordinate behind the content, in the last of the new lines.
abbrev pub EndsAt : Bytes → BufferLines → ℕ → Bytes → Type 0
EndsAt suffix ls k front =
    (before ls k (length (line_at ls k) - length suffix) ≡ front)
    × IsAt ls k (length (line_at ls k) - length suffix)

module _ (prefix suffix : Bytes) where
  -- No byte is lost.
  pub text-cut_lines :
      (first : Bool) (pending content : Bytes)
      → text (cut_lines first prefix suffix pending content)
        ≡ start_of first prefix ++ (pending ++ (content ++ suffix))
  unfolding cut_lines
  text-cut_lines true pending [] = append-nil (prefix ++ (pending ++ suffix))
  text-cut_lines false pending [] = text-left_over pending suffix
  text-cut_lines first pending (c ∷ r) = elim (Bool-cases (c == newline)) [
    | inl e ↦
        rw (cut_lines-newline first prefix suffix pending c r e)
          (simp (text-cut_lines false [] r, append_assoc))
    | inr e ↦
        rw (cut_lines-other first prefix suffix pending c r e)
          (simp (text-cut_lines first (pending ++ c ∷ []) r, append_assoc))
  ]

  start_of-NoNewline : (first : Bool) → NoNewline prefix → NoNewline (start_of first prefix)
  start_of-NoNewline true h = h
  start_of-NoNewline false h = tt

  cut_one-IsLine :
      (first : Bool) (pending : Bytes) (c : ℕ)
      → NoNewline prefix
      → NoNewline pending
      → (c == newline) ≡ true
      → IsLine (start_of first prefix ++ (pending ++ c ∷ []))
  cut_one-IsLine first pending c hp hq e =
      IsLine-append (start_of first prefix) (pending ++ c ∷ []) (start_of-NoNewline first hp)
        (IsLine-append pending (c ∷ []) hq ((==_iff c newline).0 e))

  snoc-NoNewline :
      (pending : Bytes) (c : ℕ)
      → NoNewline pending
      → (c == newline) ≡ false
      → NoNewline (pending ++ c ∷ [])
  snoc-NoNewline pending c h e =
      All-append (λ d. d ≢ newline) pending (c ∷ []) h ((λ q. ground arith), tt)

  left_over-WellFormed :
      (pending : Bytes)
      → NoNewline pending
      → IsLine suffix
      → WellFormed (if is_empty pending && is_empty suffix then [] else (pending ++ suffix) ∷ [])
  left_over-WellFormed [] h k = ground arith
  left_over-WellFormed (p ∷ pending) h k = (IsLine-append (p ∷ pending) suffix h k, tt)

  -- In front of the rest of a line every content is cut into lines.
  pub cut_lines-WellFormed :
      (first : Bool) (pending content : Bytes)
      → NoNewline prefix
      → NoNewline pending
      → IsLine suffix
      → WellFormed (cut_lines first prefix suffix pending content)
  unfolding cut_lines
  cut_lines-WellFormed true pending [] hp hq hs =
      (IsLine-append prefix (pending ++ suffix) hp (IsLine-append pending suffix hq hs), tt)
  cut_lines-WellFormed false pending [] hp hq hs = left_over-WellFormed pending hq hs
  cut_lines-WellFormed first pending (c ∷ r) hp hq hs = elim (Bool-cases (c == newline)) [
    | inl e ↦
        rw (cut_lines-newline first prefix suffix pending c r e)
          (cut_one-IsLine first pending c hp hq e, cut_lines-WellFormed false [] r hp tt hs)
    | inr e ↦
        rw (cut_lines-other first prefix suffix pending c r e)
          (cut_lines-WellFormed first (pending ++ c ∷ []) r hp (snoc-NoNewline pending c hq e) hs)
  ]

  -- The first new line begins with the prefix.
  pub before-cut_lines :
      (pending content : Bytes) (ys : BufferLines)
      → before (cut_lines true prefix suffix pending content ++ ys) 0 (length prefix) ≡ prefix
  unfolding cut_lines
  before-cut_lines pending [] ys = take-length_append prefix (pending ++ suffix)
  before-cut_lines pending (c ∷ r) ys = elim (Bool-cases (c == newline)) [
    | inl e ↦
        rw (cut_lines-newline true prefix suffix pending c r e)
          (take-length_append prefix (pending ++ c ∷ []))
    | inr e ↦
        rw (cut_lines-other true prefix suffix pending c r e)
          (before-cut_lines (pending ++ c ∷ []) r ys)
  ]

  -- It goes on behind the prefix.
  pub cut_lines-IsAt :
      (pending content : Bytes) (ys : BufferLines)
      → 0 < length suffix
      → IsAt (cut_lines true prefix suffix pending content ++ ys) 0 (length prefix)
  unfolding cut_lines
  cut_lines-IsAt pending [] ys ne =
      omega (arith, length-append prefix (pending ++ suffix), length-append pending suffix)
  cut_lines-IsAt pending (c ∷ r) ys ne = elim (Bool-cases (c == newline)) [
    | inl e ↦
        rw (cut_lines-newline true prefix suffix pending c r e)
          (omega (arith, length-append prefix (pending ++ c ∷ []), length-append pending (c ∷ [])))
    | inr e ↦
        rw (cut_lines-other true prefix suffix pending c r e)
          (cut_lines-IsAt (pending ++ c ∷ []) r ys ne)
  ]

  end_in_line :
      (front : Bytes) (ys : BufferLines)
      → 0 < length suffix
      → EndsAt suffix ((front ++ suffix) ∷ ys) 0 front
  end_in_line front ys ne =
      let e : length (front ++ suffix) - length suffix ≡ length front =
        omega (arith, length-append front suffix) in
      (rw e (take-length_append front suffix), omega (arith, length-append front suffix))

  pub cut_lines-nonempty :
      (first : Bool) (pending content : Bytes)
      → 0 < length suffix
      → 0 < length (cut_lines first prefix suffix pending content)
  unfolding cut_lines
  cut_lines-nonempty true pending [] ne = omega arith
  cut_lines-nonempty false [] [] ne = ground arith
  cut_lines-nonempty false (p ∷ pending) [] ne = omega arith
  cut_lines-nonempty first pending (c ∷ r) ne = elim (Bool-cases (c == newline)) [
    | inl e ↦ rw (cut_lines-newline first prefix suffix pending c r e) (omega arith)
    | inr e ↦
        rw (cut_lines-other first prefix suffix pending c r e)
          (cut_lines-nonempty first (pending ++ c ∷ []) r ne)
  ]

  cut_lines_nil :
      (first : Bool) (pending : Bytes)
      → 0 < length suffix
      → cut_lines first prefix suffix pending []
        ≡ ((start_of first prefix ++ pending) ++ suffix) ∷ []
  unfolding cut_lines
  cut_lines_nil true pending ne = simp append_assoc
  cut_lines_nil false [] ne = ground arith
  cut_lines_nil false (p ∷ pending) ne = refl

  one_line-EndsAt :
      (ls ys : BufferLines) (front : Bytes) (k : ℕ)
      → 0 < length suffix
      → ls ≡ (front ++ suffix) ∷ []
      → suc k ≡ length ls
      → EndsAt suffix (ls ++ ys) k front
  one_line-EndsAt ls ys front zero ne e q = rw e (end_in_line front ys ne)
  one_line-EndsAt ls ys front (suc k) ne e q = absurd (omega (arith, ap length e))

  next_line-EndsAt :
      (line front : Bytes) (ls : BufferLines) (k : ℕ)
      → EndsAt suffix ls k front
      → EndsAt suffix (line ∷ ls) (suc k) (line ++ front)
  next_line-EndsAt line front ls k h = (ap (line ++◌) h.0, h.1)

  newline-EndsAt :
      (line front : Bytes) (cut ls ys : BufferLines) (k : ℕ)
      → 0 < length cut
      → ls ≡ line ∷ cut
      → suc k ≡ length ls
      → ((j : ℕ) → suc j ≡ length cut → EndsAt suffix (cut ++ ys) j front)
      → EndsAt suffix (ls ++ ys) k (line ++ front)
  newline-EndsAt line front cut ls ys zero ne e q ih = absurd (omega (arith, ap length e))
  newline-EndsAt line front cut ls ys (suc k) ne e q ih =
      rw e (next_line-EndsAt line front (cut ++ ys) k (ih k (omega (arith, ap length e))))

  -- Behind the content, in the last new line, stands the suffix.
  pub cut_lines-EndsAt :
      (first : Bool) (pending content : Bytes) (ys : BufferLines) (k : ℕ)
      → 0 < length suffix
      → suc k ≡ length (cut_lines first prefix suffix pending content)
      → EndsAt suffix
          (cut_lines first prefix suffix pending content ++ ys)
          k
          (start_of first prefix ++ (pending ++ content))
  cut_lines-EndsAt first pending [] ys k ne e = rw (append-nil pending) (
      one_line-EndsAt _ ys (start_of first prefix ++ pending) k ne (cut_lines_nil first pending ne)
        e)
  cut_lines-EndsAt first pending (c ∷ r) ys k ne e = elim (Bool-cases (c == newline)) [
    | inl q ↦
        let s = cut_lines-newline first prefix suffix pending c r q in
        rw
          (
            ← append_assoc pending (c ∷ []) r,
            ← append_assoc (start_of first prefix) (pending ++ c ∷ []) r,
          )
          (newline-EndsAt (start_of first prefix ++ (pending ++ c ∷ [])) r _ _ ys k
            (cut_lines-nonempty false [] r ne) s e (λ j p. cut_lines-EndsAt false [] r ys j ne p))
    | inr q ↦
        let s = cut_lines-other first prefix suffix pending c r q in
        rw (s, ← append_assoc pending (c ∷ []) r)
          (cut_lines-EndsAt first (pending ++ c ∷ []) r ys k ne (rw s at e))
  ]

-- Content that ends in a newline is cut into lines with nothing behind it.
pub cut_lines-WellFormed_nil :
    (prefix : Bytes) (first : Bool) (pending content : Bytes)
    → NoNewline prefix
    → NoNewline pending
    → content ≢ []
    → back content ≡ newline
    → WellFormed (cut_lines first prefix [] pending content)
unfolding cut_lines
cut_lines-WellFormed_nil prefix first pending [] hp hq ne h = absurd (ne refl)
cut_lines-WellFormed_nil prefix first pending (c ∷ []) hp hq ne h =
    rw (cut_lines-newline first prefix [] pending c [] ((==_iff c newline).1 h))
      (cut_one-IsLine prefix [] first pending c hp hq ((==_iff c newline).1 h), tt)
cut_lines-WellFormed_nil prefix first pending (c ∷ d ∷ r) hp hq ne h =
    elim (Bool-cases (c == newline)) [
      | inl e ↦ rw (cut_lines-newline first prefix [] pending c (d ∷ r) e) (
        cut_one-IsLine prefix [] first pending c hp hq e,
        cut_lines-WellFormed_nil prefix false [] (d ∷ r) hp tt (λ q. cc) h,
      )
      | inr e ↦ rw (cut_lines-other first prefix [] pending c (d ∷ r) e) (
          cut_lines-WellFormed_nil prefix first (pending ++ c ∷ []) (d ∷ r) hp
            (snoc-NoNewline prefix [] pending c hq e) (λ q. cc) h)
    ]
