-- ===== src/History/Ancestor.antt =====
-- The search for the lowest common parent in Buffer::move_to (src/buffer.cc): it finds a node above
-- both, and enough fuel is given.
use kakoune.Prelude.{
  ℕ, min, zero, suc, ◌+◌, ◌-◌, ◌≤◌, ◌<◌, ◌≡◌, refl, sym, ap, subst, ◌∙◌, inl, inr, List, none, some,
  arith, length, Bool-cases, Option-cases, ◌==◌, ==_iff,
}
use kakoune.Buffer.{HistoryNode, history_node}
use kakoune.History.{depth_of, parent_of, climb, meet, find_lowest_common_parent}
use kakoune.History.Invariant.{Snapshots, TreeOk}
use kakoune.History.Walk.{parent_lt, ParentOk-none}

-- `a` is `i` or stands above it.
pub data IsAbove (hs : List HistoryNode) (a : ℕ) : ℕ → Type 0 where
  self : IsAbove hs a a
  up : (i p : ℕ) → (history_node hs i).parent ≡ some p → IsAbove hs a p → IsAbove hs a i

-- The number of nodes above `i`.
pub data Depth (hs : List HistoryNode) : ℕ → ℕ → Type 0 where
  root : (i d : ℕ) → (history_node hs i).parent ≡ none → d ≡ 0 → Depth hs i d
  below :
      (i d p e : ℕ) → (history_node hs i).parent ≡ some p → d ≡ suc e → Depth hs p e → Depth hs i d

module _ (hs : List HistoryNode) (snap : Snapshots) (t : TreeOk hs snap) where
  pub depth_of-Depth : (fuel i : ℕ) → i < length hs → i < fuel → Depth hs i (depth_of hs fuel i)
  unfolding depth_of
  depth_of-Depth zero i lt h = absurd (omega arith)
  depth_of-Depth (suc fuel) i lt h = elim (Option-cases (history_node hs i).parent) [
    | inl e ↦ rw (e, depth_of) (root i 0 e refl)
    | inr (p, e) ↦
        let smaller = parent_lt hs snap t i p lt e in
        rw (e, depth_of) (below i _ p _ e refl (depth_of-Depth fuel p (omega arith) (omega arith)))
  ]

  pub Depth-le : {i d : ℕ} → Depth hs i d → i < length hs → d ≤ i
  Depth-le (root i d e q) lt = omega arith
  Depth-le (below i d p e q r k) lt =
      let smaller = parent_lt hs snap t i p lt q in omega (arith, Depth-le k (omega arith))

  pub parent_of-some : (i p : ℕ) → (history_node hs i).parent ≡ some p → parent_of hs i ≡ p
  parent_of-some i p e = rw (e, parent_of)

  pub above_lt : (a i : ℕ) → IsAbove hs a i → i < length hs → a ≤ i
  above_lt a i self lt = omega arith
  above_lt a i (up _ p e k) lt =
      let smaller = parent_lt hs snap t i p lt e in omega (arith, above_lt a p k (omega arith))

  -- One step up from a node that is not at the top.
  pub step_up :
      (i e d : ℕ)
      → i < length hs
      → Depth hs i d
      → d ≡ suc e
      → Depth hs (parent_of hs i) e
        × ((history_node hs i).parent ≡ some (parent_of hs i))
        × (parent_of hs i < length hs)
  step_up i e d lt (root _ _ p q) h = absurd (omega arith)
  step_up i e d lt (below _ _ p e' q r k) h =
      let at = parent_of-some i p q in
      let smaller = parent_lt hs snap t i p lt q in
      let same : e' ≡ e = omega arith in
      (rw at (subst (Depth hs p) same k), q ∙ ap some (sym at), rw at (omega arith))

  pub climb_lem :
      (n i d e : ℕ)
      → i < length hs
      → Depth hs i d
      → d ≡ n + e
      → Depth hs (climb hs n i) e × IsAbove hs (climb hs n i) i × (climb hs n i < length hs)
  unfolding climb
  climb_lem zero i d e lt k q =
      let same : d ≡ e = omega arith in (subst (Depth hs i) same k, self, lt)
  climb_lem (suc n) i d e lt k q =
      let (k', at, lt') = step_up i (n + e) d lt k (omega arith) in
      let (a, b, c) = climb_lem n (parent_of hs i) (n + e) e lt' k' refl in
      (a, up i (parent_of hs i) at b, c)

  -- Only the root has no node above it.
  pub top : (i d : ℕ) → i < length hs → Depth hs i d → d ≡ 0 → i ≡ 0
  top i d lt (root _ _ e q) h = ParentOk-none _ _ snap i (t.nodes i lt) e
  top i d lt (below _ _ p e q r k) h = absurd (omega arith)

  -- Two nodes at one depth, climbed together, meet.
  meet_lem :
      (fuel a b d : ℕ)
      → a < length hs
      → b < length hs
      → Depth hs a d
      → Depth hs b d
      → d < fuel
      → IsAbove hs (meet hs fuel a b) a × IsAbove hs (meet hs fuel a b) b
  unfolding meet
  meet_lem zero a b d la lb ka kb h = absurd (omega arith)
  meet_lem (suc fuel) a b zero la lb ka kb h =
      let same : a ≡ b = top a 0 la ka refl ∙ sym (top b 0 lb kb refl) in
      rw ((==_iff a b).1 same, meet) (self, subst (IsAbove hs a) same self)
  meet_lem (suc fuel) a b (suc d) la lb ka kb h = elim (Bool-cases (a == b)) [
    | inl e ↦ rw (e, meet) (self, subst (IsAbove hs a) ((==_iff a b).0 e) self)
    | inr e ↦
        let (ka', ea, la') = step_up a d (suc d) la ka refl in
        let (kb', eb, lb') = step_up b d (suc d) lb kb refl in
        let (p, q) =
          meet_lem fuel (parent_of hs a) (parent_of hs b) d la' lb' ka' kb' (omega arith) in
        rw (e, meet) (up a (parent_of hs a) ea p, up b (parent_of hs b) eb q)
  ]

  IsAbove-trans : (a b i : ℕ) → IsAbove hs a b → IsAbove hs b i → IsAbove hs a i
  IsAbove-trans a b i h self = h
  IsAbove-trans a b i h (up _ p e k) = up i p e (IsAbove-trans a b p h k)

  -- The node that is found stands above both.
  pub find_lowest_common_parent-IsAbove :
      (a b : ℕ)
      → a < length hs
      → b < length hs
      → let m = find_lowest_common_parent hs a b in IsAbove hs m a × IsAbove hs m b
  unfolding find_lowest_common_parent
  find_lowest_common_parent-IsAbove a b la lb =
      let da = depth_of hs (length hs) a in
      let db = depth_of hs (length hs) b in
      let ka = depth_of-Depth (length hs) a la la in
      let kb = depth_of-Depth (length hs) b lb lb in
      let (ca, ua, la') = climb_lem (da - db) a da (min da db) la ka (omega arith) in
      let (cb, ub, lb') = climb_lem (db - da) b db (min da db) lb kb (omega arith) in
      let (p, q) =
        meet_lem (length hs) (climb hs (da - db) a) (climb hs (db - da) b) (min da db) la' lb' ca cb
          (omega (arith, Depth-le ka la)) in
      (IsAbove-trans _ (climb hs (da - db) a) a p ua, IsAbove-trans _ (climb hs (db - da) b) b q ub)
