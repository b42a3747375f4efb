-- ===== src/Avl/Pivot.antt =====
-- The rotations of `do_pivot`: the order of the keys, and the heights.
use libalgo.Common.{ℕ, suc, ◌<◌, ◌≡◌, List, arith, some, append_assoc, ◌≢◌, order, lt, eq, gt}
use libalgo.Common.Int.{ℤ, pos, negsuc}
use libalgo.Tree.{leaf, node, entries}
use libalgo.Avl.{AvlNode, double_left_bf, double_right_bf, rotate}
use libalgo.Avl.Balance.{height, IsAvl}

-- The keys of a tree, from left to right.
abbrev pub keys : AvlNode → List (ℕ × Unit {0})
keys = entries (λ _. tt)

-- A rotation of `u` succeeds, and gives an AVL tree of height `h` with the keys of `u`.
pub record Rebalances (u : AvlNode) (h : ℕ) : Type 0 where
  pub tree : AvlNode
  pub runs : rotate u ≡ some tree
  pub avl : IsAvl tree
  pub high : height tree ≡ h
  pub order : keys tree ≡ keys u

left_single :
    (l : AvlNode) (k : ℕ) (rl : AvlNode) (rk : ℕ) (rb : ℤ) (rr : AvlNode)
    → IsAvl l
    → IsAvl (node rl rk rb rr)
    → height rl < height rr
    → height rr ≡ suc (height l)
    → Rebalances (node l k (pos 2) (node rl rk rb rr)) (suc (suc (height l)))
left_single l k rl rk rb rr a c low e = record {
  tree = node (node l k (pos 0) rl) rk (pos 0) rr;
  runs = unfold rotate in ground arith;
  avl = ((a, omega arith, c.0), omega arith, c.2);
  high = omega arith;
  order = simp append_assoc;
}

left_double :
    (l : AvlNode) (k : ℕ) (nl : AvlNode) (nk : ℕ) (nb : ℤ) (nr : AvlNode) (rk : ℕ) (rb : ℤ)
    (rr : AvlNode)
    → IsAvl l
    → IsAvl (node (node nl nk nb nr) rk rb rr)
    → height rr < height (node nl nk nb nr)
    → height (node nl nk nb nr) ≡ suc (height l)
    → Rebalances (node l k (pos 2) (node (node nl nk nb nr) rk rb rr)) (suc (suc (height l)))
left_double l k nl nk nb nr rk rb rr a c low e = record {
  tree = node (node l k (double_left_bf nb).0 nl) nk (pos 0) (node nr rk (double_left_bf nb).1 rr);
  runs = unfold rotate in ground arith;
  avl =
      unfold double_left_bf in ((a, ground arith, c.0.0), omega arith, (c.0.2, ground arith, c.2));
  high = omega arith;
  order = simp append_assoc;
}

right_single :
    (ll : AvlNode) (lk : ℕ) (lb : ℤ) (lr : AvlNode) (k : ℕ) (r : AvlNode)
    → IsAvl r
    → IsAvl (node ll lk lb lr)
    → height lr < height ll
    → height ll ≡ suc (height r)
    → Rebalances (node (node ll lk lb lr) k (negsuc 1) r) (suc (suc (height r)))
right_single ll lk lb lr k r a c low e = record {
  tree = node ll lk (pos 0) (node lr k (pos 0) r);
  runs = unfold rotate in ground arith;
  avl = (c.0, omega arith, (c.2, omega arith, a));
  high = omega arith;
  order = simp append_assoc;
}

right_double :
    (ll : AvlNode) (lk : ℕ) (lb : ℤ) (nl : AvlNode) (nk : ℕ) (nb : ℤ) (nr : AvlNode) (k : ℕ)
    (r : AvlNode)
    → IsAvl r
    → IsAvl (node ll lk lb (node nl nk nb nr))
    → height ll < height (node nl nk nb nr)
    → height (node nl nk nb nr) ≡ suc (height r)
    → Rebalances (node (node ll lk lb (node nl nk nb nr)) k (negsuc 1) r) (suc (suc (height r)))
right_double ll lk lb nl nk nb nr k r a c low e = record {
  tree =
      node (node ll lk (double_right_bf nb).1 nl) nk (pos 0) (node nr k (double_right_bf nb).0 r);
  runs = unfold rotate in ground arith;
  avl =
      unfold double_right_bf in ((c.0, ground arith, c.2.0), omega arith, (c.2.2, ground arith, a));
  high = omega arith;
  order = simp append_assoc;
}

-- One subtree is the higher one.
abbrev pub Tilted : AvlNode → Type 0
Tilted leaf = ⊥
Tilted (node l k b r) = height l ≢ height r

-- An unbalanced node, which is to be lowered to the height `h`.
pub data Lopsided : AvlNode → ℕ → Type 0 where
  right_heavy :
      (l : AvlNode) (k : ℕ) (r : AvlNode)
      → IsAvl l
      → IsAvl r
      → Tilted r
      → height r ≡ suc (suc (height l))
      → Lopsided (node l k (pos 2) r) (suc (suc (height l)))
  left_heavy :
      (l : AvlNode) (k : ℕ) (r : AvlNode)
      → IsAvl l
      → IsAvl r
      → Tilted l
      → height l ≡ suc (suc (height r))
      → Lopsided (node l k (negsuc 1) r) (suc (suc (height r)))

rebalance_right :
    (l : AvlNode) (k : ℕ) (r : AvlNode)
    → IsAvl l
    → IsAvl r
    → Tilted r
    → height r ≡ suc (suc (height l))
    → Rebalances (node l k (pos 2) r) (suc (suc (height l)))
rebalance_right l k leaf a c t e = absurd t
rebalance_right l k (node leaf rk rb rr) a c t e =
    left_single l k leaf rk rb rr a c (omega arith) (omega arith)
rebalance_right l k (node (node nl nk nb nr) rk rb rr) a c t e =
    elim (order (height (node nl nk nb nr)) (height rr)) [
      | lt h ↦ left_single l k (node nl nk nb nr) rk rb rr a c h (omega arith)
      | eq h ↦ absurd (t h)
      | gt h ↦ left_double l k nl nk nb nr rk rb rr a c h (omega arith)
    ]

rebalance_left :
    (l : AvlNode) (k : ℕ) (r : AvlNode)
    → IsAvl l
    → IsAvl r
    → Tilted l
    → height l ≡ suc (suc (height r))
    → Rebalances (node l k (negsuc 1) r) (suc (suc (height r)))
rebalance_left leaf k r a c t e = absurd t
rebalance_left (node ll lk lb leaf) k r a c t e =
    right_single ll lk lb leaf k r c a (omega arith) (omega arith)
rebalance_left (node ll lk lb (node nl nk nb nr)) k r a c t e =
    elim (order (height ll) (height (node nl nk nb nr))) [
      | lt h ↦ right_double ll lk lb nl nk nb nr k r c a h (omega arith)
      | eq h ↦ absurd (t h)
      | gt h ↦ right_single ll lk lb (node nl nk nb nr) k r c a h (omega arith)
    ]

-- On an unbalanced node whose higher subtree is itself tilted, the rotation that `do_pivot`
-- chooses succeeds, restores the invariant, lowers the node by one, and keeps the keys in order.
pub rotate-Rebalances : {u : AvlNode} {h : ℕ} → Lopsided u h → Rebalances u h
rotate-Rebalances (right_heavy l k r a c t e) = rebalance_right l k r a c t e
rotate-Rebalances (left_heavy l k r a c t e) = rebalance_left l k r a c t e
