-- ===== src/History/Invariant.antt =====
-- What the undo tree of class Buffer (src/buffer.cc) stands for: each node is a state of the lines,
-- and its undo group leads there from its parent's state.
use kakoune.Prelude.{
  ℕ, zero, suc, ◌<◌, ◌≡◌, refl, sym, ap, ◌∙◌, ◌⊎◌, inl, inr, false, List, [], ◌∷◌, ◌++◌, Option,
  none, some, arith, length, set,
}
use kakoune.Lines.{BufferLines}
use kakoune.Lines.WellFormed.{WellFormed}
use kakoune.Modification.{Modification, Leads}
use kakoune.Buffer.{Buffer, HistoryNode, history_node}

-- The lines at each node.
abbrev pub Snapshots : Type 0
Snapshots = ℕ → BufferLines

-- The root is node 0; any other node has an older parent, from which its group leads to it.
abbrev pub ParentOk : Option ℕ → List Modification → Snapshots → ℕ → Type 0
ParentOk none group snap i = i ≡ 0
ParentOk (some p) group snap i = (p < i) × Leads (snap p) group (snap i)

-- The redo child of a node is a node below it.
abbrev pub ChildOk : List HistoryNode → Option ℕ → ℕ → Type 0
ChildOk hs none i = Unit
ChildOk hs (some c) i = (c < length hs) × ((history_node hs c).parent ≡ some i)

pub record TreeOk (hs : List HistoryNode) (snap : Snapshots) : Type 0 where
  pub nodes :
      (i : ℕ)
      → i < length hs
      → ParentOk (history_node hs i).parent (history_node hs i).undo_group snap i
  pub children : (i : ℕ) → i < length hs → ChildOk hs (history_node hs i).redo_child i
  pub well_formed : (i : ℕ) → i < length hs → WellFormed (snap i)

-- The pending modifications lead from the current node to the lines.
pub record IsConsistent (b : Buffer) (snap : Snapshots) : Type 0 where
  pub recording : b.no_undo ≡ false
  pub tree : TreeOk b.history snap
  pub current : b.history_id < length b.history
  pub pending : Leads (snap b.history_id) b.current_undo_group b.lines

-- Nodes of a list that grows, or of which one redo child is set.
pub node-append :
    (hs : List HistoryNode) (n : HistoryNode) (i : ℕ)
    → i < length hs
    → history_node (hs ++ n ∷ []) i ≡ history_node hs i
node-append [] n i h = absurd (omega arith)
node-append (x ∷ hs) n zero h = refl
node-append (x ∷ hs) n (suc i) h = node-append hs n i (omega arith)

pub node-append_last :
    (hs : List HistoryNode) (n : HistoryNode) (i : ℕ)
    → i ≡ length hs
    → history_node (hs ++ n ∷ []) i ≡ n
node-append_last [] n zero h = refl
node-append_last [] n (suc i) h = absurd (omega arith)
node-append_last (x ∷ hs) n zero h = absurd (omega arith)
node-append_last (x ∷ hs) n (suc i) h = node-append_last hs n i (omega arith)

abbrev pub with_redo : HistoryNode → ℕ → HistoryNode
with_redo n c = record n { redo_child = some c }

pub length-set_node :
    (hs : List HistoryNode) (p : ℕ) (n : HistoryNode) → length (set hs p n) ≡ length hs
length-set_node [] p n = refl
length-set_node (x ∷ hs) zero n = refl
length-set_node (x ∷ hs) (suc p) n = ap suc (length-set_node hs p n)

pub node-set_redo :
    (hs : List HistoryNode) (p c i : ℕ)
    → let hs' = set hs p (with_redo (history_node hs p) c) in
      (history_node hs' i ≡ history_node hs i)
      ⊎ ((i ≡ p) × (history_node hs' i ≡ with_redo (history_node hs i) c))
node-set_redo [] p c i = inl refl
node-set_redo (x ∷ hs) zero c zero = inr (refl, refl)
node-set_redo (x ∷ hs) zero c (suc i) = inl refl
node-set_redo (x ∷ hs) (suc p) c zero = inl refl
node-set_redo (x ∷ hs) (suc p) c (suc i) = elim (node-set_redo hs p c i) [
  | inl e ↦ inl e
  | inr (e, q) ↦ inr (omega arith, q)
]

pub parent-set_redo :
    (hs : List HistoryNode) (p c i : ℕ)
    → (history_node (set hs p (with_redo (history_node hs p) c)) i).parent
      ≡ (history_node hs i).parent
parent-set_redo hs p c i = elim (node-set_redo hs p c i) [
  | inl e ↦ ap (λ n. n.parent) e
  | inr (_, e) ↦ ap (λ n. n.parent) e
]

pub group-set_redo :
    (hs : List HistoryNode) (p c i : ℕ)
    → (history_node (set hs p (with_redo (history_node hs p) c)) i).undo_group
      ≡ (history_node hs i).undo_group
group-set_redo hs p c i = elim (node-set_redo hs p c i) [
  | inl e ↦ ap (λ n. n.undo_group) e
  | inr (_, e) ↦ ap (λ n. n.undo_group) e
]

ChildOk-set_redo :
    (hs : List HistoryNode) (p c : ℕ) (child : Option ℕ) (i : ℕ)
    → ChildOk hs child i
    → ChildOk (set hs p (with_redo (history_node hs p) c)) child i
ChildOk-set_redo hs p c none i h = tt
ChildOk-set_redo hs p c (some d) i h = (
  omega (arith, h.0, length-set_node hs p (with_redo (history_node hs p) c)),
  parent-set_redo hs p c d ∙ h.1,
)

-- Setting the redo child of a node's parent keeps the tree.
pub TreeOk-set_redo :
    (hs : List HistoryNode) (snap : Snapshots) (p c : ℕ)
    → TreeOk hs snap
    → c < length hs
    → (history_node hs c).parent ≡ some p
    → TreeOk (set hs p (with_redo (history_node hs p) c)) snap
TreeOk-set_redo hs snap p c t lt e = record {
  nodes = λ i h. rw (parent-set_redo hs p c i, group-set_redo hs p c i) (t.nodes i (in_old i h));
  children = λ i h. elim (node-set_redo hs p c i) [
    | inl q ↦
        rw q (ChildOk-set_redo hs p c (history_node hs i).redo_child i (t.children i (in_old i h)))
    | inr (q, q') ↦ rw q' (
      omega (arith, lt, length-set_node hs p (with_redo (history_node hs p) c)),
      parent-set_redo hs p c c ∙ e ∙ ap some (sym q),
    )
  ];
  well_formed = λ i h. t.well_formed i (in_old i h);
}
  where
    in_old : (i : ℕ) → i < length (set hs p (with_redo (history_node hs p) c)) → i < length hs
    in_old i h = omega (arith, length-set_node hs p (with_redo (history_node hs p) c))
