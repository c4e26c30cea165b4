-- ===== src/History/Lowest.antt =====
-- find_lowest_common_parent of Buffer::move_to (src/buffer.cc) finds the lowest common parent.
use kakoune.Prelude.{
  ℕ, zero, suc, ◌+◌, ◌-◌, ◌≤◌, ◌<◌, min, ◌≡◌, ◌≢◌, refl, sym, subst, ◌∙◌, ◌⊎◌, inl, inr, true,
  false, List, Option, none, some, arith, length, Bool-cases, ◌==◌, ==_iff,
}
use kakoune.Buffer.{HistoryNode, history_node}
use kakoune.History.{parent_of, climb, meet, depth_of, find_lowest_common_parent}
use kakoune.History.Invariant.{Snapshots, TreeOk}
use kakoune.History.Ancestor.{
  IsAbove, self, up, Depth, root, below, depth_of-Depth, step_up, top, climb_lem,
  find_lowest_common_parent-IsAbove,
}

some_injective : {p q : ℕ} → ◌≡◌ {A = Option ℕ} (some p) (some q) → p ≡ q
some_injective h = cc

none-ne-some : {p : ℕ} {A : Type 0} → ◌≡◌ {A = Option ℕ} none (some p) → A
none-ne-some h = absurd (cc)

-- A node has one depth, and more than the nodes above it.
Depth-unique : (hs : List HistoryNode) {i d d' : ℕ} → Depth hs i d → Depth hs i d' → d ≡ d'
Depth-unique hs (root i d e q) (root _ d' e' q') = omega arith
Depth-unique hs (root i d e q) (below _ d' p k e' q' s) = none-ne-some (sym e ∙ e')
Depth-unique hs (below i d p k e q r) (root _ d' e' q') = none-ne-some (sym e' ∙ e)
Depth-unique hs (below i d p k e q r) (below _ d' p' k' e' q' r') =
    let same = some_injective (sym e ∙ e') in
    omega (arith, Depth-unique hs (subst (λ x. Depth hs x k) same r) r')

-- Of a node that is not the root, the depth is one more than the parent's.
parent-Depth :
    (hs : List HistoryNode) (i p d : ℕ)
    → (history_node hs i).parent ≡ some p
    → Depth hs i d
    → (k : ℕ) × (d ≡ suc k) × Depth hs p k
parent-Depth hs i p d e (root _ _ q z) = none-ne-some (sym q ∙ e)
parent-Depth hs i p d e (below _ _ p' k q z r) =
    (k, z, subst (λ x. Depth hs x k) (some_injective (sym q ∙ e)) r)

above-Depth :
    (hs : List HistoryNode) (x i dx d : ℕ)
    → IsAbove hs x i
    → Depth hs x dx
    → Depth hs i d
    → (x ≡ i) ⊎ (dx < d)
above-Depth hs x i dx d self kx k = inl refl
above-Depth hs x i dx d (up _ p e a) kx k =
    let (d', z, k') = parent-Depth hs i p d e k in
    elim (above-Depth hs x p dx d' a kx k') [
      | inl same ↦ inr (omega (arith, Depth-unique hs (subst (λ y. Depth hs y dx) same kx) k'))
      | inr lt ↦ inr (omega arith)
    ]

above-Depth_le :
    (hs : List HistoryNode) (x i dx d : ℕ) → IsAbove hs x i → Depth hs x dx → Depth hs i d → dx ≤ d
above-Depth_le hs x i dx d a kx k = elim (above-Depth hs x i dx d a kx k) [
  | inl same ↦ omega (arith, Depth-unique hs (subst (λ y. Depth hs y dx) same kx) k)
  | inr lt ↦ omega arith
]

other {ℓ κ} : {A : Type ℓ} {B : Type κ} → A ⊎ B → (A → ⊥) → B
other (inl a) h = absurd (h a)
other (inr b) h = b

false-ne-true : {A : Type 0} → false ≡ true → A
false-ne-true h = absurd (cc)

==-comm_false : (a b : ℕ) → (a == b) ≡ false → (b == a) ≡ false
==-comm_false a b h = ground arith

-- A node above another that is not the same is above its parent.
IsAbove-parent :
    (hs : List HistoryNode) (x i p : ℕ)
    → (history_node hs i).parent ≡ some p
    → IsAbove hs x i
    → (x ≡ i) ⊎ IsAbove hs x p
IsAbove-parent hs x i p e self = inl refl
IsAbove-parent hs x i p e (up _ q e' a) = inr (subst (IsAbove hs x) (some_injective (sym e' ∙ e)) a)

module _ (hs : List HistoryNode) (snap : Snapshots) (t : TreeOk hs snap) (x dx : ℕ)
    (kx : Depth hs x dx) where
  climb_keeps :
      (n i e : ℕ)
      → i < length hs
      → Depth hs i (n + e)
      → dx ≤ e
      → IsAbove hs x i
      → IsAbove hs x (climb hs n i)
  unfolding climb
  climb_keeps zero i e lt k le a = a
  climb_keeps (suc n) i e lt k le a =
      let (k', at, lt') = step_up hs snap t i (n + e) (suc n + e) lt k (omega arith) in
      elim (IsAbove-parent hs x i (parent_of hs i) at a) [
        | inl same ↦ absurd (omega (arith, Depth-unique hs (subst (λ y. Depth hs y dx) same kx) k))
        | inr a' ↦ climb_keeps n (parent_of hs i) e lt' k' le a'
      ]

  -- A node above two that are different and equally deep is neither of them.
  neither : (a b d : ℕ) → (a == b) ≡ false → Depth hs a d → Depth hs b d → IsAbove hs x b → x ≢ a
  neither a b d e ka kb xb same =
      let depth = Depth-unique hs (subst (λ y. Depth hs y dx) same kx) ka in
      elim (above-Depth hs x b dx d xb kx kb) [
        | inl same' ↦ absurd (false-ne-true (sym e ∙ (==_iff a b).1 (sym same ∙ same')))
        | inr lt ↦ absurd (omega arith)
      ]

  meet_keeps :
      (fuel a b d : ℕ)
      → a < length hs
      → b < length hs
      → Depth hs a d
      → Depth hs b d
      → IsAbove hs x a
      → IsAbove hs x b
      → IsAbove hs x (meet hs fuel a b)
  unfolding meet
  meet_keeps zero a b d la lb ka kb xa xb = xa
  meet_keeps (suc fuel) a b zero la lb ka kb xa xb =
      let same : a ≡ b = top hs snap t a 0 la ka refl ∙ sym (top hs snap t b 0 lb kb refl) in
      rw ((==_iff a b).1 same, meet) xa
  meet_keeps (suc fuel) a b (suc d) la lb ka kb xa xb = elim (Bool-cases (a == b)) [
    | inl e ↦ rw (e, meet) xa
    | inr e ↦
        let (ka', ea, la') = step_up hs snap t a d (suc d) la ka refl in
        let (kb', eb, lb') = step_up hs snap t b d (suc d) lb kb refl in
        let xa' =
          other (IsAbove-parent hs x a (parent_of hs a) ea xa) (neither a b (suc d) e ka kb xb) in
        let xb' =
          other (IsAbove-parent hs x b (parent_of hs b) eb xb)
            (neither b a (suc d) (==-comm_false a b e) kb ka xa) in
        rw (e, meet) (meet_keeps fuel (parent_of hs a) (parent_of hs b) d la' lb' ka' kb' xa' xb')
  ]

-- In a well-formed tree, the node that find_lowest_common_parent gives for two nodes stands above
-- both (or is one of them), and each node that stands above both stands above it.
pub find_lowest_common_parent_lem :
    (hs : List HistoryNode) (snap : Snapshots) (a b : ℕ)
    → TreeOk hs snap
    → a < length hs
    → b < length hs
    → let m = find_lowest_common_parent hs a b in
      IsAbove hs m a
      × IsAbove hs m b
      × ((x : ℕ) → x < length hs → IsAbove hs x a → IsAbove hs x b → IsAbove hs x m)
unfolding find_lowest_common_parent
find_lowest_common_parent_lem hs snap a b t la lb =
    let (above_a, above_b) = find_lowest_common_parent-IsAbove hs snap t a b la lb in
    (above_a, above_b, λ x lx xa xb. lowest x lx xa xb)
  where
    lowest :
        (x : ℕ)
        → x < length hs
        → IsAbove hs x a
        → IsAbove hs x b
        → IsAbove hs x (find_lowest_common_parent hs a b)
    lowest x lx xa xb =
        let da = depth_of hs (length hs) a in
        let db = depth_of hs (length hs) b in
        let dx = depth_of hs (length hs) x in
        let ka = depth_of-Depth hs snap t (length hs) a la la in
        let kb = depth_of-Depth hs snap t (length hs) b lb lb in
        let kx = depth_of-Depth hs snap t (length hs) x lx lx in
        let (ca, _, la') = climb_lem hs snap t (da - db) a da (min da db) la ka (omega arith) in
        let (cb, _, lb') = climb_lem hs snap t (db - da) b db (min da db) lb kb (omega arith) in
        let le_a = above-Depth_le hs x a dx da xa kx ka in
        let le_b = above-Depth_le hs x b dx db xb kx kb in
        meet_keeps hs snap t x dx kx (length hs) _ _ (min da db) la' lb' ca cb
          (climb_keeps hs snap t x dx kx (da - db) a (min da db) la
            (subst (Depth hs a) (omega arith) ka) (omega (arith, le_a, le_b)) xa)
          (climb_keeps hs snap t x dx kx (db - da) b (min da db) lb
            (subst (Depth hs b) (omega arith) kb) (omega (arith, le_a, le_b)) xb)
