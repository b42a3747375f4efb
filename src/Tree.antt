-- ===== src/Tree.antt =====
-- The linked nodes of libtree/bstree, libtree/avltree and libtree/splaytree: two child links, a
-- parent link, a key, and data. The nodes of one tree form a `Tree`. A pointer into it is a
-- `Loc`: the subtree below the node and the path of frames up to the root, so the innermost
-- frame is what the parent link leads to, and a NULL parent link is the empty path.
pub mod Sorted
pub mod Spec
pub mod Keys
use libalgo.Common.{ℕ, List, [], ◌∷◌, ◌++◌}

pub data Tree {ℓ} (A : Type ℓ) : Type ℓ where
  leaf : Tree A
  node : Tree A → ℕ → A → Tree A → Tree A

-- A parent, seen from a child: `left_of k a r` from its left child, `right_of l k a` from its
-- right child.
pub data Frame {ℓ} (A : Type ℓ) : Type ℓ where
  left_of : ℕ → A → Tree A → Frame A
  right_of : Tree A → ℕ → A → Frame A

abbrev pub TreePath {ℓ} : Type ℓ → Type ℓ
TreePath A = List (Frame A)

pub record Loc {ℓ} (A : Type ℓ) : Type ℓ where
  pub focus : Tree A
  pub up : TreePath A

module _ {ℓ} {A : Type ℓ} where
  abbrev pub close : Frame A → Tree A → Tree A
  close (left_of k a r) t = node t k a r
  close (right_of l k a) t = node l k a t

  -- The whole tree in which `t` hangs below the path.
  unfoldable pub plug : TreePath A → Tree A → Tree A
  plug [] t = t
  plug (f ∷ p) t = plug p (close f t)

-- The keys from left to right, each with what `f` reads of its data.
abbrev pub entries {ℓ κ} : {A : Type ℓ} {V : Type κ} → (A → V) → Tree A → List (ℕ × V)
entries f leaf = []
entries f (node l k a r) = entries f l ++ (k, f a) ∷ entries f r
