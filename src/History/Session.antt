-- ===== src/History/Session.antt =====
-- Sessions of edits and moves on a buffer (the public methods of class Buffer in src/buffer.cc).
use kakoune.Prelude.{
  ℕ, zero, suc, ◌≤◌, ◌<◌, ◌≡◌, ◌≢◌, refl, sym, ap, subst, Bool, false, [], ◌∷◌, ◌++◌, length-append,
  arith, length,
}
use kakoune.Coord.{BufferCoord}
use kakoune.Lines.{Bytes, BufferLines}
use kakoune.Lines.View.{Valid, text_before, text_after}
use kakoune.Lines.WellFormed.{WellFormed}
use kakoune.Buffer.{
  Buffer, Flags, Result, ok, insert, erase, new_buffer, history_node, root_node, real_content,
}
use kakoune.Buffer.Text.{insert-text, some_line}
use kakoune.Buffer.Fields.{throw_if_writable}
use kakoune.Buffer.Edit.{real_content-ne-nil}
use kakoune.Modification.Laws.{length_pos}
use kakoune.History.{commit_undo_group, undo, redo, move_to}
use kakoune.History.Invariant.{Snapshots, ParentOk, ChildOk, IsConsistent}
use kakoune.History.Commit.{extended, extended_old}
use kakoune.History.Walk.{Rests, Rests-IsConsistent}

-- One call of a public method that returns.
pub data Step (b b' : Buffer) : Type 0 where
  inserting :
      (c : BufferCoord) (content : Bytes) (r : BufferCoord × BufferCoord)
      → Valid b.lines c
      → insert b c content ≡ ok (b', r)
      → Step b b'
  erasing :
      (begin end r : BufferCoord)
      → Valid b.lines begin
      → Valid b.lines end
      → erase b begin end ≡ ok (b', r)
      → Step b b'
  committing : b' ≡ commit_undo_group b → Step b b'
  undoing : (count : ℕ) (moved : Bool) → undo b count ≡ ok (b', moved) → Step b b'
  redoing : (count : ℕ) (moved : Bool) → redo b count ≡ ok (b', moved) → Step b b'
  moving : (id : ℕ) (moved : Bool) → move_to b id ≡ ok (b', moved) → Step b b'

pub data Reach (b : Buffer) : Buffer → Type 0 where
  here : Reach b b
  next : {b' b'' : Buffer} → Reach b b' → Step b' b'' → Reach b b''

-- The buffer is consistent with the lines at its nodes, and neither it nor a node is empty.
pub record SessionOk (b : Buffer) (snap : Snapshots) : Type 0 where
  pub consistent : IsConsistent b snap
  pub some_lines : 0 < length b.lines
  pub some_snap : (i : ℕ) → 0 < length (snap i)

-- After some steps: the nodes that there were keep their lines.
pub record Goes (b b' : Buffer) (snap : Snapshots) : Type 0 where
  pub snap' : Snapshots
  pub session : SessionOk b' snap'
  pub kept : (i : ℕ) → i < length b.history → snap' i ≡ snap i
  pub grows : length b.history ≤ length b'.history

ok_injective {ℓ} : {A : Type ℓ} {a a' : A} → ◌≡◌ {A = Result A} (ok a) (ok a') → a ≡ a'
ok_injective h = cc

-- The buffer of a result.
pub same_buffer {ℓ} :
    {A : Type ℓ} {r : Result (Buffer × A)} {b b' : Buffer} {x x' : A}
    → r ≡ ok (b, x)
    → r ≡ ok (b', x')
    → b ≡ b'
same_buffer h k = cc

extended_some :
    (n : ℕ) (ls : BufferLines) (snap : Snapshots)
    → 0 < length ls
    → ((i : ℕ) → 0 < length (snap i))
    → (i : ℕ) → 0 < length (extended n ls snap i)
extended_some n ls snap h k i = ground (arith, k i)

-- A buffer that rests at a node after the pending modifications became one.
pub rest-Goes :
    (b b' : Buffer) (snap : Snapshots)
    → SessionOk b snap
    → Rests b' (extended (length b.history) b.lines snap)
    → length b.history ≤ length b'.history
    → Goes b b' snap
rest-Goes b b' snap s r grows =
    let left = extended_some (length b.history) b.lines snap s.some_lines s.some_snap in
    record {
      snap' = extended (length b.history) b.lines snap;
      session = record {
        consistent = Rests-IsConsistent b' _ r;
        some_lines = subst (λ ls. 0 < length ls) (sym r.here) (left b'.history_id);
        some_snap = left;
      };
      kept = λ i lt. extended_old (length b.history) b.lines snap i lt;
      grows = grows;
    }

pub stay-Goes : (b : Buffer) (snap : Snapshots) → SessionOk b snap → Goes b b snap
stay-Goes b snap s = record { snap' = snap; session = s; kept = λ i lt. refl; grows = omega arith }

-- Text that was inserted stands in some line.
pub inserted_some :
    (b b' : Buffer) (c : BufferCoord) (content : Bytes) (r : BufferCoord × BufferCoord)
    → WellFormed b.lines
    → Valid b.lines c
    → b.is_read_only ≡ false
    → 0 < length b.lines
    → insert b c content ≡ ok (b', r)
    → 0 < length b'.lines
unfolding insert
inserted_some b b' c [] r w v h ne e =
    subst (λ x. 0 < length x.lines) (same_buffer (throw_if_writable b _ h) e) ne
inserted_some b b' c (x ∷ xs) r w v h ne e =
    let nonempty : ◌≢◌ {A = Bytes} (x ∷ xs) [] = λ q. cc in
    let real = real_content b.lines c (x ∷ xs) in
    let (b1, end, q, t, _, _, _) = insert-text b c (x ∷ xs) w v h nonempty in
    subst (λ x. 0 < length x.lines) (same_buffer q e)
      (some_line b1.lines (
        omega (
          arith,
          ap length t,
          length-append (text_before b.lines c) (real ++ text_after b.lines c),
          length-append real (text_after b.lines c),
          length_pos real (real_content-ne-nil b.lines c (x ∷ xs) nonempty),
        )))

-- An edit leaves the tree as it is.
pub edit-Goes :
    (b b' : Buffer) (snap : Snapshots)
    → SessionOk b snap
    → IsConsistent b' snap
    → 0 < length b'.lines
    → b'.history ≡ b.history
    → Goes b b' snap
edit-Goes b b' snap s c left e = record {
  snap' = snap;
  session = record { consistent = c; some_lines = left; some_snap = s.some_snap };
  kept = λ i lt. refl;
  grows = omega (arith, ap length e);
}

pub new_buffer-SessionOk :
    (flags : Flags) (lines : BufferLines)
    → flags.no_undo ≡ false
    → WellFormed lines
    → 0 < length lines
    → SessionOk (new_buffer flags lines) (λ i. lines)
unfolding new_buffer
new_buffer-SessionOk flags lines undo w ne = record {
  consistent = record {
    recording = undo;
    tree = record {
      nodes = λ i lt. root_only i lt;
      children = λ i lt. root_children i lt;
      well_formed = λ i lt. w;
    };
    current = omega arith;
    pending = refl;
  };
  some_lines = ne;
  some_snap = λ i. ne;
}
  where
    root_only :
        (i : ℕ)
        → i < 1
        → ParentOk
            (history_node (root_node ∷ []) i).parent
            (history_node (root_node ∷ []) i).undo_group
            (λ i. lines)
            i
    root_only zero lt = refl
    root_only (suc i) lt = absurd (omega arith)

    root_children :
        (i : ℕ) → i < 1 → ChildOk (root_node ∷ []) (history_node (root_node ∷ []) i).redo_child i
    root_children zero lt = tt
    root_children (suc i) lt = absurd (omega arith)
