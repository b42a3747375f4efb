-- ===== src/Splay.antt =====
-- libtree/splaytree/splay.c, in the build with SPLAY_AUGMENT: the top-down splay tree, each node
-- with a size and the greatest size below it. The two temporary trees of `top_down_splay` are
-- paths: the left one of nodes whose right link is open, from the latest (`ltree_max`) to the
-- first, the right one of nodes whose left link is open. `none` is a dereference of NULL.
pub mod Loop
pub mod Keys
pub mod Augment
pub mod Kept
pub mod Insert
pub mod Remove
pub mod Refit
use libalgo.Common.{ℕ, List, [], ◌∷◌, Option, none, some, ltb, ◌==◌, if◌then◌else◌}
use libalgo.Tree.{Tree, leaf, node, left_of, right_of, TreePath, plug}

pub record Sizes : Type 0 where
  pub size : ℕ
  pub max_size : ℕ

abbrev pub SplayNode : Type 0
SplayNode = Tree Sizes

abbrev pub SplayPath : Type 0
SplayPath = TreePath Sizes

unfoldable pub max_of_two : ℕ → ℕ → ℕ
max_of_two a b = if ltb b a then a else b

unfoldable pub max3 : ℕ → ℕ → ℕ → ℕ
unfolding max_of_two
max3 x y z = max_of_two (max_of_two x y) z

abbrev pub get_subtree_max_size : SplayNode → ℕ
get_subtree_max_size leaf = 0
get_subtree_max_size (node l k a r) = a.max_size

-- Of the node with the links `l` and `r` and the size in `a`.
unfoldable pub compute_subtree_max_size : SplayNode → Sizes → SplayNode → ℕ
unfolding max3
compute_subtree_max_size l a r = max3 a.size (get_subtree_max_size l) (get_subtree_max_size r)

-- `n->max_size = compute_subtree_max_size(n)`.
abbrev pub recompute : SplayNode → Sizes → SplayNode → Sizes
recompute l a r = record a { max_size = compute_subtree_max_size l a r }

-- `left_pivot`, with the update of the two greatest sizes that follows its call.
unfoldable pub left_pivot : SplayNode → ℕ → Sizes → SplayNode → ℕ → Sizes → SplayNode → SplayNode
left_pivot l k a rl rk ra rr =
    node (node l k (recompute l a rl) rl) rk (record ra { max_size = a.max_size }) rr

unfoldable pub right_pivot : SplayNode → ℕ → Sizes → SplayNode → ℕ → Sizes → SplayNode → SplayNode
right_pivot ll lk la lr k a r =
    node ll lk (record la { max_size = a.max_size }) (node lr k (recompute lr a r) r)

-- The state in which the loop breaks.
pub record Splayed : Type 0 where
  pub ltree : SplayPath
  pub root : SplayNode
  pub rtree : SplayPath

abbrev pub stop : SplayPath → SplayNode → SplayPath → Option Splayed
stop lt root rt = some (record { ltree = lt; root = root; rtree = rt })

-- `if (root->left == NULL) break;` after a rotation, and the same on the right.
unfoldable pub or_break : SplayNode → Option Splayed → Option Splayed → Option Splayed
or_break leaf stopped far = stopped
or_break (node l k a r) stopped far = far

-- A step to the left, at a node whose left child has the fields `ll lk la lr`: `next` is the rest
-- of the loop without the rotation, and `far` with it.
unfoldable pub step_left :
    ℕ
    → SplayNode
    → ℕ
    → Option Splayed
    → SplayNode
    → SplayPath
    → SplayPath
    → Option Splayed
    → Option Splayed
unfolding or_break
step_left vstart ll lk next rotated lt rt far =
    if ltb vstart lk then or_break ll (stop lt rotated rt) far else next

unfoldable pub step_right :
    ℕ
    → SplayNode
    → ℕ
    → Option Splayed
    → SplayNode
    → SplayPath
    → SplayPath
    → Option Splayed
    → Option Splayed
unfolding or_break
step_right vstart rr rk next rotated lt rt far =
    if ltb rk vstart then or_break rr (stop lt rotated rt) far else next

-- The loop of `top_down_splay`.
unfoldable pub splay_loop : ℕ → SplayNode → SplayPath → SplayPath → Option Splayed
unfolding step_left step_right left_pivot right_pivot
splay_loop v leaf lt rt = none
splay_loop v (node leaf k a leaf) lt rt = stop lt (node leaf k a leaf) rt
splay_loop v (node (node ll lk la lr) k a leaf) lt rt =
    let next = splay_loop v (node ll lk la lr) lt (left_of k a leaf ∷ rt) in
    let far = splay_loop v ll lt (
      left_of lk (record la { max_size = a.max_size }) (node lr k (recompute lr a leaf) leaf)
      ∷ rt) in
    if ltb v k
    then step_left v ll lk next (right_pivot ll lk la lr k a leaf) lt rt far
    else stop lt (node (node ll lk la lr) k a leaf) rt
splay_loop v (node leaf k a (node rl rk ra rr)) lt rt =
    let next = splay_loop v (node rl rk ra rr) (right_of leaf k a ∷ lt) rt in
    let far =
      splay_loop v rr
        (right_of (node leaf k (recompute leaf a rl) rl) rk (record ra { max_size = a.max_size })
          ∷ lt)
        rt in
    if ltb k v
    then step_right v rr rk next (left_pivot leaf k a rl rk ra rr) lt rt far
    else stop lt (node leaf k a (node rl rk ra rr)) rt
splay_loop v (node (node ll lk la lr) k a (node rl rk ra rr)) lt rt =
    let right = node rl rk ra rr in
    let left = node ll lk la lr in
    let next_left = splay_loop v (node ll lk la lr) lt (left_of k a right ∷ rt) in
    let far_left = splay_loop v ll lt (
      left_of lk (record la { max_size = a.max_size }) (node lr k (recompute lr a right) right)
      ∷ rt) in
    let next_right = splay_loop v (node rl rk ra rr) (right_of left k a ∷ lt) rt in
    let far_right =
      splay_loop v rr
        (right_of (node left k (recompute left a rl) rl) rk (record ra { max_size = a.max_size })
          ∷ lt)
        rt in
    if ltb v k
    then step_left v ll lk next_left (right_pivot ll lk la lr k a right) lt rt far_left
    else if ltb k v
    then step_right v rr rk next_right (left_pivot left k a rl rk ra rr) lt rt far_right
    else stop lt (node left k a right) rt

-- Hangs `t` into the open link of the latest node, and walks its parents with the greatest sizes
-- computed anew.
unfoldable pub assemble : SplayPath → SplayNode → SplayNode
assemble [] t = t
assemble (left_of k a r ∷ p) t = assemble p (node t k (recompute t a r) r)
assemble (right_of l k a ∷ p) t = assemble p (node l k (recompute l a t) t)

-- The fields of the root with the links `l` and `r` after a walk along the parents. The first node
-- of the path has the root for its parent, so the walk ends there; `head` has none.
unfoldable pub climbed : SplayPath → SplayNode → Sizes → SplayNode → Sizes
climbed [] l a r = a
climbed (f ∷ p) l a r = recompute l a r

-- The two walks, the one from `ltree_max` first. The right tree is linked to the root by then, but
-- has its old sizes.
unfoldable pub assembled : Splayed → Option SplayNode
unfolding assemble climbed plug
assembled s = elim s.root [
  | leaf ↦ none
  | node l k a r ↦
      let left = assemble s.ltree l in
      let b = climbed s.ltree left a (plug s.rtree r) in
      let right = assemble s.rtree r in some (node left k (climbed s.rtree left b right) right)
]

unfoldable pub top_down_splay : ℕ → SplayNode → Option SplayNode
unfolding splay_loop assembled
top_down_splay vstart root = elim (splay_loop vstart root [] []) [
  | none ↦ none
  | some s ↦ assembled s
]

-- `if (n) n->max_size = compute_subtree_max_size(n)`.
unfoldable pub refit : SplayNode → SplayNode
refit leaf = leaf
refit (node l k a r) = node l k (recompute l a r) r

-- The new node with its two subtrees, at the end of `splay_insert`.
unfoldable pub link_new : SplayNode → ℕ → Sizes → SplayNode → SplayNode
unfolding refit
link_new l val a r = refit (node (refit l) val a (refit r))

-- The branches of `splay_insert` on the splayed root.
unfoldable pub insert_at : ℕ → Sizes → SplayNode → Option SplayNode
unfolding link_new
insert_at val a leaf = none
insert_at val a (node l k b r) =
    if ltb val k
    then some (link_new l val a (node leaf k b r))
    else if ltb k val
    then some (link_new (node l k b leaf) val a r)
    else some (node l k b r)

unfoldable pub splay_insert : ℕ → Sizes → SplayNode → Option SplayNode
unfolding top_down_splay insert_at
splay_insert val a leaf = some (link_new leaf val a leaf)
splay_insert val a (node l k b r) = elim (top_down_splay val (node l k b r)) [
  | none ↦ none
  | some root ↦ insert_at val a root
]

-- `new_root->right = r->right`.
unfoldable pub set_right : SplayNode → SplayNode → Option SplayNode
set_right leaf right = none
set_right (node l k a r) right = some (node l k a right)

-- The new root that takes the place of the splayed root with the links `l` and `r`.
unfoldable pub join_subtrees : ℕ → SplayNode → SplayNode → Option SplayNode
unfolding top_down_splay set_right
join_subtrees val leaf r = some r
join_subtrees val (node ll lk la lr) r = elim (top_down_splay val (node ll lk la lr)) [
  | none ↦ none
  | some new_root ↦ set_right new_root r
]

unfoldable pub remove_at : ℕ → SplayNode → Option SplayNode
unfolding join_subtrees refit
remove_at val leaf = none
remove_at val (node l k a r) =
    if val == k
    then elim (join_subtrees val l r) [ none ↦ none | some t ↦ some (refit t) ]
    else some (node l k a r)

unfoldable pub splay_remove_init : ℕ → SplayNode → Option SplayNode
unfolding top_down_splay remove_at
splay_remove_init val leaf = some leaf
splay_remove_init val (node l k a r) = elim (top_down_splay val (node l k a r)) [
  | none ↦ none
  | some root ↦ remove_at val root
]
