-- ===== src/Bstree.antt =====
-- libtree/bstree/bstree.c: the binary search tree. `A` stands for the private data of a node.
pub mod Lookup
pub mod Insert
pub mod Remove
use libalgo.Common.{ℕ, ◌≡◌, List, [], ◌∷◌, ◌++◌, Option, none, some, ltb, ◌==◌, if◌then◌else◌}
use libalgo.Common.Int.{ℤ, pos, negsuc}
use libalgo.Tree.{Tree, leaf, node, left_of, right_of, TreePath, Loc, plug}

-- `bst_node`, with its links as the position in the tree.
abbrev pub BstNode {ℓ} : Type ℓ → Type ℓ
BstNode A = Tree A

module _ {ℓ} {A : Type ℓ} where
  -- The loop of `bst_lookup`, from the node `t` with its parents `p`.
  unfoldable pub lookup_from : ℕ → BstNode A → TreePath A → Option (Loc A)
  lookup_from key leaf p = none
  lookup_from key (node l k a r) p =
      let right = lookup_from key r (right_of l k a ∷ p) in
      let left = lookup_from key l (left_of k a r ∷ p) in
      if key == k
      then some (record { focus = node l k a r; up = p })
      else if ltb k key
      then right
      else left

  unfoldable pub bst_lookup : BstNode A → ℕ → Option (Loc A)
  unfolding lookup_from
  bst_lookup root key = lookup_from key root []

  -- The loop of `bst_insert` with `head` at `t`: the new node with its parent link, or `none` for
  -- a key that is there. A new node comes from `alloc_bst_node`, so its child links are NULL.
  unfoldable pub insert_from : ℕ → BstNode A → TreePath A → Option (TreePath A)
  insert_from key leaf p = some p
  insert_from key (node l k a r) p =
      let right = insert_from key r (right_of l k a ∷ p) in
      let left = insert_from key l (left_of k a r ∷ p) in
      if ltb k key then right else if ltb key k then left else none

  -- The result is the return value and `*root` after the call.
  unfoldable pub bst_insert : BstNode A → Option (ℕ × A) → ℕ × BstNode A
  unfolding insert_from plug
  bst_insert root none = (0, root)
  bst_insert leaf (some (key, a)) = (1, node leaf key a leaf)
  bst_insert root (some (key, a)) = elim (insert_from key root []) [
    | none ↦ (0, root)
    | some p ↦ (1, plug p (node leaf key a leaf))
  ]

  -- `while (s->link[0]) s = s->link[0]`, from the node with the fields `l k a r` and the parents
  -- `p` below the victim: the key, the data and the right child of `s`, and its parents.
  unfoldable pub min_from :
      BstNode A → ℕ → A → BstNode A → TreePath A → ℕ × A × BstNode A × TreePath A
  min_from leaf k a r p = (k, a, r, p)
  min_from (node ll lk la lr) k a r p = min_from ll lk la lr (left_of k a r ∷ p)

  -- Detaches `s`, with the right child `right` and the parents `inner` below the victim, whose own
  -- parents are `outer`. The result is the victim's right link, `none` if it still leads to `s`.
  unfoldable pub detach : BstNode A → TreePath A → TreePath A → Option (BstNode A)
  unfolding plug
  detach (node l k a r) inner outer = some (plug inner (node l k a r))
  detach leaf [] [] = none
  detach leaf inner outer = some (plug inner leaf)

  -- Attaches `s` in the victim's place: `if (victim->link[1] != s) s->link[1] = victim->link[1]`.
  unfoldable pub attach : BstNode A → ℕ → A → BstNode A → Option (BstNode A) → BstNode A
  attach left k a own none = node left k a own
  attach left k a own (some right) = node left k a right

  -- The three cases of `bst_remove`, by the children of the victim: what stands in its place.
  unfoldable pub replacement : BstNode A → BstNode A → TreePath A → BstNode A
  unfolding min_from detach attach
  replacement (node ll lk la lr) (node rl rk ra rr) outer =
      let (k, a, own, inner) = min_from rl rk ra rr [] in
      attach (node ll lk la lr) k a own (detach own inner outer)
  replacement leaf r outer = r
  replacement l leaf outer = l

  unfoldable pub remove_at : BstNode A → TreePath A → BstNode A
  unfolding replacement plug
  remove_at leaf up = plug up leaf
  remove_at (node l k a r) up = plug up (replacement l r up)

  unfoldable pub bst_remove : BstNode A → ℕ → ℤ × BstNode A
  unfolding bst_lookup remove_at
  bst_remove root key = elim (bst_lookup root key) [
    | none ↦ (negsuc 0, root)
    | some victim ↦ (pos 1, remove_at victim.focus victim.up)
  ]

  -- The keys in the order in which `bst_walk_tree_r` prints them.
  unfoldable pub walk_tree : BstNode A → List ℕ
  walk_tree leaf = []
  walk_tree (node l k a r) = walk_tree l ++ k ∷ walk_tree r
