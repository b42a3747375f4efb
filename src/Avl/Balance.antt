-- ===== src/Avl/Balance.antt =====
-- The AVL invariant: the balance factors are the differences of the heights, and lie in -1 .. 1.
use libalgo.Common.{ℕ, suc, ◌+◌, ◌≤◌, ◌≡◌, [], ◌∷◌, max}
use libalgo.Common.Int.{ℤ, pos_part, neg_part}
use libalgo.Tree.{leaf, node, left_of, right_of, plug}
use libalgo.Avl.{AvlNode, AvlPath}

abbrev pub height : AvlNode → ℕ
height leaf = 0
height (node l k b r) = suc (max (height l) (height r))

-- `b` is the balance factor of a node with subtrees of the heights `hl` and `hr`.
abbrev pub IsBf : ℤ → ℕ → ℕ → Type 0
IsBf b hl hr = (pos_part b + hl ≡ neg_part b + hr) × (hl ≤ hr + 1) × (hr ≤ hl + 1)

abbrev pub IsAvl : AvlNode → Type 0
IsAvl leaf = Unit
IsAvl (node l k b r) = IsAvl l × IsBf b (height l) (height r) × IsAvl r

-- The path is that of a subtree of height `h` in an AVL tree.
abbrev pub Holds : AvlPath → ℕ → Type 0
Holds [] h = Unit
Holds (left_of k b r ∷ p) h = IsBf b h (height r) × IsAvl r × Holds p (suc (max h (height r)))
Holds (right_of l k b ∷ p) h = IsBf b (height l) h × IsAvl l × Holds p (suc (max (height l) h))

pub plug-IsAvl : (p : AvlPath) (t : AvlNode) → IsAvl t → Holds p (height t) → IsAvl (plug p t)
unfolding plug
plug-IsAvl [] t a h = a
plug-IsAvl (left_of k b r ∷ p) t a h = plug-IsAvl p (node t k b r) (a, h.0, h.1) h.2
plug-IsAvl (right_of l k b ∷ p) t a h = plug-IsAvl p (node l k b t) (h.1, h.0, a) h.2
