-- ===== src/History/Commit.antt =====
-- Buffer::commit_undo_group (src/buffer.cc): the pending modifications become a new node.
use kakoune.Prelude.{
  ℕ, ◌≤◌, ◌<◌, ◌≡◌, refl, sym, ap, subst, ◌∙◌, ◌⊎◌, inl, inr, Bool, true, false, List, [], ◌∷◌,
  ◌++◌, Option, none, some, arith, length, set, ◌==◌, if◌then◌else◌, length-append, is_empty, ◌||◌,
}
use kakoune.Lines.{BufferLines}
use kakoune.Modification.{Modification, Leads}
use kakoune.Modification.Inverse.{Leads-WellFormed}
use kakoune.Buffer.{Buffer, HistoryNode, history_node}
use kakoune.History.{commit_undo_group}
use kakoune.History.Invariant.{
  Snapshots, ParentOk, ChildOk, TreeOk, IsConsistent, node-append, node-append_last, with_redo,
  TreeOk-set_redo, length-set_node,
}

-- The lines at the next node are those of the buffer.
abbrev pub extended : ℕ → BufferLines → Snapshots → Snapshots
extended n ls snap i = if i == n then ls else snap i

pub extended_old :
    (n : ℕ) (ls : BufferLines) (snap : Snapshots) (i : ℕ) → i < n → extended n ls snap i ≡ snap i
extended_old n ls snap i h = ground arith

pub extended_new : (n : ℕ) (ls : BufferLines) (snap : Snapshots) → extended n ls snap n ≡ ls
extended_new n ls snap = ground arith

ParentOk-ext :
    (p : Option ℕ) (group : List Modification) (snap snap' : Snapshots) (i n : ℕ)
    → i < n
    → ((j : ℕ) → j < n → snap' j ≡ snap j)
    → ParentOk p group snap i
    → ParentOk p group snap' i
ParentOk-ext none group snap snap' i n h e k = k
ParentOk-ext (some p) group snap snap' i n h e k = (k.0, rw (e p (omega arith), e i h) k.1)

ChildOk-append :
    (hs : List HistoryNode) (node : HistoryNode) (child : Option ℕ) (i : ℕ)
    → ChildOk hs child i
    → ChildOk (hs ++ node ∷ []) child i
ChildOk-append hs node none i h = tt
ChildOk-append hs node (some c) i h = (
  omega (arith, h.0, length-append hs (node ∷ [])),
  ap (λ n. n.parent) (node-append hs node c h.0) ∙ h.1,
)

abbrev pub commit_node : ℕ → List Modification → HistoryNode
commit_node cur group = record { parent = some cur; redo_child = none; undo_group = group }

module _ (hs : List HistoryNode) (snap : Snapshots) (cur : ℕ) (group : List Modification)
    (ls : BufferLines) (t : TreeOk hs snap) (lt : cur < length hs)
    (leads : Leads (snap cur) group ls) where
  abbrev node : HistoryNode
  node = commit_node cur group

  abbrev pushed : List HistoryNode
  pushed = hs ++ node ∷ []

  abbrev snap' : Snapshots
  snap' = extended (length hs) ls snap

  old_or_new : (i : ℕ) → i < length pushed → (i < length hs) ⊎ (i ≡ length hs)
  old_or_new i h = omega (arith, h, length-append hs (node ∷ []))

  pushed-TreeOk : TreeOk pushed snap'
  pushed-TreeOk = record {
    nodes = λ i h. elim (old_or_new i h) [
      | inl old ↦ rw (node-append hs node i old) (
          ParentOk-ext (history_node hs i).parent (history_node hs i).undo_group snap snap' i
            (length hs) old (extended_old (length hs) ls snap) (t.nodes i old))
      | inr new ↦ rw (node-append_last hs node i new) (
          rw new (
            lt,
            rw (extended_old (length hs) ls snap cur lt, extended_new (length hs) ls snap) leads,
          ))
    ];
    children = λ i h. elim (old_or_new i h) [
      | inl old ↦
          rw (node-append hs node i old)
            (ChildOk-append hs node (history_node hs i).redo_child i (t.children i old))
      | inr new ↦ rw (node-append_last hs node i new) tt
    ];
    well_formed = λ i h. elim (old_or_new i h) [
      | inl old ↦ rw (extended_old (length hs) ls snap i old) (t.well_formed i old)
      | inr new ↦
          rw (new, extended_new (length hs) ls snap)
            (Leads-WellFormed (snap cur) group ls (t.well_formed cur lt) leads)
    ];
  }

  committed-TreeOk : TreeOk (set pushed cur (with_redo (history_node pushed cur) (length hs))) snap'
  committed-TreeOk =
      TreeOk-set_redo pushed snap' cur (length hs) pushed-TreeOk
        (omega (arith, length-append hs (node ∷ [])))
        (ap (λ n. n.parent) (node-append_last hs node (length hs) refl))

-- The buffer after a commit of pending modifications.
abbrev pub committed_buffer : Buffer → Buffer
committed_buffer b =
    let hs = b.history ++ commit_node b.history_id b.current_undo_group ∷ [] in
    record b {
      history = set hs b.history_id (with_redo (history_node hs b.history_id) (length b.history));
      history_id = length b.history;
      current_undo_group = [];
    }

pub commit_cases :
    (b : Buffer)
    → b.no_undo ≡ false
    → ((b.current_undo_group ≡ []) × (commit_undo_group b ≡ b))
      ⊎ (commit_undo_group b ≡ committed_buffer b)
unfolding commit_undo_group
commit_cases b h = elim (is_empty-cases b.current_undo_group) [
  | inl (e, q) ↦ inl (q, ap (λ x. if x then b else committed_buffer b) (or_true b.no_undo e))
  | inr e ↦ inr (ap (λ x. if x then b else committed_buffer b) (or_false h e))
]
  where
    is_empty-cases :
        (ms : List Modification) → ((is_empty ms ≡ true) × (ms ≡ [])) ⊎ (is_empty ms ≡ false)
    is_empty-cases [] = inl (refl, refl)
    is_empty-cases (m ∷ ms) = inr refl

    or_true : (x : Bool) {y : Bool} → y ≡ true → (x || y) ≡ true
    or_true x e = ground arith

    or_false : {x y : Bool} → x ≡ false → y ≡ false → (x || y) ≡ false
    or_false e q = ground arith

pub record Commits (b b' : Buffer) (snap snap' : Snapshots) : Type 0 where
  pub consistent : IsConsistent b' snap'
  pub none_pending : b'.current_undo_group ≡ []
  pub same_lines : b'.lines ≡ b.lines
  pub writable : b'.is_read_only ≡ b.is_read_only
  pub old_nodes : (i : ℕ) → i < length b.history → snap' i ≡ snap i
  pub grows : length b.history ≤ length b'.history

TreeOk-ext :
    (hs : List HistoryNode) (snap snap' : Snapshots)
    → ((i : ℕ) → i < length hs → snap' i ≡ snap i)
    → TreeOk hs snap
    → TreeOk hs snap'
TreeOk-ext hs snap snap' e t = record {
  nodes = λ i h.
      ParentOk-ext (history_node hs i).parent (history_node hs i).undo_group snap snap' i
        (length hs) h e (t.nodes i h);
  children = t.children;
  well_formed = λ i h. rw (e i h) (t.well_formed i h);
}

-- On a consistent buffer, commit_undo_group gives a buffer that is consistent with the same node
-- lines and the buffer's lines at the next id: nothing is pending, the lines and the read-only flag
-- are as before, and no node is lost.
pub commit-Commits :
    (b : Buffer) (snap : Snapshots)
    → IsConsistent b snap
    → Commits b (commit_undo_group b) snap (extended (length b.history) b.lines snap)
commit-Commits b snap c = elim (commit_cases b c.recording) [
  | inl (nothing, e) ↦ rw e (record {
    consistent = record {
      recording = c.recording;
      tree = TreeOk-ext b.history snap _ old c.tree;
      current = c.current;
      pending =
          subst (λ ls. Leads ls b.current_undo_group b.lines) (sym (old b.history_id c.current))
            c.pending;
    };
    none_pending = nothing;
    same_lines = refl;
    writable = refl;
    old_nodes = old;
    grows = omega arith;
  })
  | inr e ↦ rw e (record {
    consistent = record {
      recording = c.recording;
      tree =
          committed-TreeOk b.history snap b.history_id b.current_undo_group b.lines c.tree c.current
            c.pending;
      current = longer;
      pending = extended_new (length b.history) b.lines snap;
    };
    none_pending = refl;
    same_lines = refl;
    writable = refl;
    old_nodes = old;
    grows = omega (arith, longer);
  })
]
  where
    old : (i : ℕ) → i < length b.history → extended (length b.history) b.lines snap i ≡ snap i
    old = extended_old (length b.history) b.lines snap

    longer : length b.history < length (committed_buffer b).history
    longer = omega (
      arith,
      length-set_node (b.history ++ commit_node b.history_id b.current_undo_group ∷ []) b.history_id
          _,
      length-append b.history (commit_node b.history_id b.current_undo_group ∷ []),
    )
