-- ===== src/Avl.antt =====
-- libtree/avltree/avl.c: the AVL tree. The data of a node is its balance factor `bf`, a short int
-- between -2 and 2, so it does not wrap. A `long` key is the number key + 2 ^ 63: the code only
-- compares keys. `do_simple_insert` writes the parent link of each node that it passes, and only
-- the nodes on that path are reached by parent links afterwards, so the path stands for them.
pub mod Lookup
pub mod Balance
pub mod Pivot
pub mod Climb
pub mod Insert
use libalgo.Common.{
  ℕ, ◌≡◌, List, [], ◌∷◌, Option, none, some, Bool, true, false, ◌||◌, ltb, ◌==◌, if◌then◌else◌,
}
use libalgo.Common.Int.{ℤ, pos, negsuc, ◌+ℤ◌, ◌-ℤ◌, ltb_ℤ, eqb_ℤ}
use libalgo.Tree.{Tree, leaf, node, left_of, right_of, TreePath, Loc, plug}

-- `avl_node`.
abbrev pub AvlNode : Type 0
AvlNode = Tree ℤ

abbrev pub AvlPath : Type 0
AvlPath = TreePath ℤ

-- A node from `avl_alloc` with its key set.
unfoldable pub avl_alloc : ℕ → AvlNode
avl_alloc key = node leaf key (pos 0) leaf

-- A rotation returns the new root of the subtree, which takes over the parent link of the old
-- one; `none` is a dereference of NULL.
unfoldable pub do_left_pivot : AvlNode → Option AvlNode
do_left_pivot (node l k b (node rl rk rb rr)) = some (node (node l k (pos 0) rl) rk (pos 0) rr)
do_left_pivot t = none

unfoldable pub do_right_pivot : AvlNode → Option AvlNode
do_right_pivot (node (node ll lk lb lr) k b r) = some (node ll lk (pos 0) (node lr k (pos 0) r))
do_right_pivot t = none

-- The balance factors of `r` and `lc` after a left-right rotation, by that of `np`.
unfoldable pub double_right_bf : ℤ → ℤ × ℤ
double_right_bf b =
    if ltb_ℤ (pos 0) b
    then (pos 0, negsuc 0)
    else if ltb_ℤ b (pos 0)
    then (pos 1, pos 0)
    else (pos 0, pos 0)

unfoldable pub do_double_right_pivot : AvlNode → Option AvlNode
unfolding double_right_bf
do_double_right_pivot (node (node ll lk lb (node nl nk nb nr)) k b r) =
    let (r_bf, lc_bf) = double_right_bf nb in
    some (node (node ll lk lc_bf nl) nk (pos 0) (node nr k r_bf r))
do_double_right_pivot t = none

-- The balance factors of `r` and `rc` after a right-left rotation, by that of `np`.
unfoldable pub double_left_bf : ℤ → ℤ × ℤ
double_left_bf b =
    if ltb_ℤ b (pos 0)
    then (pos 0, pos 1)
    else if ltb_ℤ (pos 0) b
    then (negsuc 0, pos 0)
    else (pos 0, pos 0)

unfoldable pub do_double_left_pivot : AvlNode → Option AvlNode
unfolding double_left_bf
do_double_left_pivot (node l k b (node (node nl nk nb nr) rk rb rr)) =
    let (r_bf, rc_bf) = double_left_bf nb in
    some (node (node l k r_bf nl) nk (pos 0) (node nr rk rc_bf rr))
do_double_left_pivot t = none

-- `n->bf`, or a dereference of NULL.
unfoldable pub bf_of : AvlNode → Option ℤ
bf_of leaf = none
bf_of (node l k b r) = some b

-- The choice of the rotation in `do_pivot`; the last branch is BUG().
unfoldable pub rotate : AvlNode → Option AvlNode
unfolding do_left_pivot do_right_pivot do_double_left_pivot do_double_right_pivot bf_of
rotate leaf = none
rotate (node l k b r) =
    if ltb_ℤ b (pos 0)
    then elim (bf_of l) [
      | none ↦ none
      | some c ↦
          if ltb_ℤ (pos 0) c
          then do_double_right_pivot (node l k b r)
          else do_right_pivot (node l k b r)
    ]
    else if ltb_ℤ (pos 0) b
    then elim (bf_of r) [
      | none ↦ none
      | some c ↦
          if ltb_ℤ c (pos 0)
          then do_double_left_pivot (node l k b r)
          else do_left_pivot (node l k b r)
    ]
    else none

-- `*r = do_pivot(*r, ub)`, for the node `ub` with the parents `p`: the whole tree.
unfoldable pub do_pivot : AvlNode → AvlPath → Option AvlNode
unfolding rotate plug
do_pivot ub p = elim (rotate ub) [ none ↦ none | some t ↦ some (plug p t) ]

-- What the loop of `do_fix_balance` does after it has changed `p->bf` to the given value.
pub data Verdict : Type 0 where
  unbalanced balanced impossible climb : Verdict

unfoldable pub verdict : ℤ → Verdict
verdict b =
    if eqb_ℤ b (pos 2) || eqb_ℤ b (negsuc 1)
    then unbalanced
    else if eqb_ℤ b (pos 0)
    then balanced
    else if ltb_ℤ (pos 2) b || ltb_ℤ b (negsuc 1)
    then impossible
    else climb

-- How `do_fix_balance` ends: the tree in which no node is to be rotated, the unbalanced node with
-- its parents, or BUG().
pub data Fix : Type 0 where
  fixed : AvlNode → Fix
  pivot : AvlNode → AvlPath → Fix
  bug : Fix

-- The climb from the node `f` to the root, with `p->bf++` from the right and `p->bf--` from the left.
unfoldable pub do_fix_balance : AvlNode → AvlPath → Fix
unfolding verdict plug
do_fix_balance f [] = fixed f
do_fix_balance f (right_of l k b ∷ p) =
    let b' = b +ℤ pos 1 in
    elim (verdict b') [
      | unbalanced ↦ pivot (node l k b' f) p
      | balanced ↦ fixed (plug p (node l k b' f))
      | impossible ↦ bug
      | climb ↦ do_fix_balance (node l k b' f) p
    ]
do_fix_balance f (left_of k b r ∷ p) =
    let b' = b -ℤ pos 1 in
    elim (verdict b') [
      | unbalanced ↦ pivot (node f k b' r) p
      | balanced ↦ fixed (plug p (node f k b' r))
      | impossible ↦ bug
      | climb ↦ do_fix_balance (node f k b' r) p
    ]

-- The loop of `do_simple_insert`: the parents of the new node, or `none` for a key that is there.
unfoldable pub do_simple_insert : ℕ → AvlNode → AvlPath → Option AvlPath
do_simple_insert key leaf p = some p
do_simple_insert key (node l k b r) p =
    let right = do_simple_insert key r (right_of l k b ∷ p) in
    let left = do_simple_insert key l (left_of k b r ∷ p) in
    if ltb k key then right else if ltb key k then left else none

unfoldable pub finish : Fix → Option (ℕ × AvlNode)
unfolding do_pivot
finish (fixed t) = some (1, t)
finish (pivot u p) = elim (do_pivot u p) [ none ↦ none | some t ↦ some (1, t) ]
finish bug = none

-- The return value and `*r` after the call; `none` is a crash.
unfoldable pub avl_insert : AvlNode → ℕ → Option (ℕ × AvlNode)
unfolding avl_alloc do_simple_insert do_fix_balance finish
avl_insert leaf key = some (1, avl_alloc key)
avl_insert (node l k b r) key = elim (do_simple_insert key (node l k b r) []) [
  | none ↦ some (0, node l k b r)
  | some p ↦ finish (do_fix_balance (avl_alloc key) p)
]

-- The loop of `avl_lookup`, from the node `t`.
unfoldable pub avl_lookup : AvlNode → ℕ → Option AvlNode
avl_lookup leaf key = none
avl_lookup (node l k b r) key =
    let right = avl_lookup r key in
    let left = avl_lookup l key in
    if ltb k key then right else if ltb key k then left else some (node l k b r)
