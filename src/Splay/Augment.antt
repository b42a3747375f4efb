-- ===== src/Splay/Augment.antt =====
-- The greatest sizes that the nodes keep: what `check_augment_tree` tests, and which operations
-- keep it.
use libalgo.Common.{ℕ, ◌≡◌, refl, [], ◌∷◌, max, arith}
use libalgo.Tree.{leaf, node, left_of, right_of}
use libalgo.Splay.{
  Sizes, SplayNode, SplayPath, max_of_two, max3, get_subtree_max_size, compute_subtree_max_size,
  recompute, left_pivot, right_pivot, assemble,
}

-- The test of `check_augment_tree`, at every node.
abbrev pub IsAugmented : SplayNode → Type 0
IsAugmented leaf = Unit
IsAugmented (node l k a r) =
    IsAugmented l × (a.max_size ≡ compute_subtree_max_size l a r) × IsAugmented r

pub compute_lem :
    (l : SplayNode) (a : Sizes) (r : SplayNode)
    → compute_subtree_max_size l a r
      ≡ max a.size (max (get_subtree_max_size l) (get_subtree_max_size r))
unfolding compute_subtree_max_size max3 max_of_two
compute_lem l a r = ground arith

-- The computation does not read what it replaces.
pub recomputed :
    (l : SplayNode) (a : Sizes) (r : SplayNode)
    → compute_subtree_max_size l a r ≡ compute_subtree_max_size l (recompute l a r) r
unfolding compute_subtree_max_size
recomputed l a r = refl

-- The nodes of the left tree, less their open links.
abbrev pub Trimmed : SplayPath → Type 0
Trimmed [] = Unit
Trimmed (left_of k a r ∷ p) = IsAugmented r × Trimmed p
Trimmed (right_of l k a ∷ p) = IsAugmented l × Trimmed p

pub assemble-IsAugmented :
    (p : SplayPath) (t : SplayNode) → Trimmed p → IsAugmented t → IsAugmented (assemble p t)
unfolding assemble
assemble-IsAugmented [] t h a = a
assemble-IsAugmented (left_of k b r ∷ p) t h a =
    assemble-IsAugmented p (node t k (recompute t b r) r) h.1 (a, recomputed t b r, h.0)
assemble-IsAugmented (right_of l k b ∷ p) t h a =
    assemble-IsAugmented p (node l k (recompute l b t) t) h.1 (h.0, recomputed l b t, a)

-- A rotation with the two updates that follow it keeps an augmented tree augmented.
pub right_pivot-IsAugmented :
    (ll : SplayNode) (lk : ℕ) (la : Sizes) (lr : SplayNode) (k : ℕ) (a : Sizes) (r : SplayNode)
    → IsAugmented (node (node ll lk la lr) k a r)
    → IsAugmented (right_pivot ll lk la lr k a r)
unfolding right_pivot
right_pivot-IsAugmented ll lk la lr k a r h = (
  h.0.0,
  omega (
    arith,
    h.1,
    h.0.1,
    compute_lem ll la lr,
    compute_lem (node ll lk la lr) a r,
    compute_lem lr a r,
    compute_lem ll (record la { max_size = a.max_size }) (node lr k (recompute lr a r) r),
  ),
  (h.0.2, recomputed lr a r, h.2),
)

pub left_pivot-IsAugmented :
    (l : SplayNode) (k : ℕ) (a : Sizes) (rl : SplayNode) (rk : ℕ) (ra : Sizes) (rr : SplayNode)
    → IsAugmented (node l k a (node rl rk ra rr))
    → IsAugmented (left_pivot l k a rl rk ra rr)
unfolding left_pivot
left_pivot-IsAugmented l k a rl rk ra rr h = (
  (h.0, recomputed l a rl, h.2.0),
  omega (
    arith,
    h.1,
    h.2.1,
    compute_lem rl ra rr,
    compute_lem l a (node rl rk ra rr),
    compute_lem l a rl,
    compute_lem (node l k (recompute l a rl) rl) (record ra { max_size = a.max_size }) rr,
  ),
  h.2.2,
)
