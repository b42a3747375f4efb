-- ===== src/Avl/Insert.antt =====
-- `avl_insert` against insertion into a sorted list of keys, with the balance invariant.
use libalgo.Common.{
  ℕ, ◌<◌, ◌≡◌, refl, ◌∷◌, [], Option, none, some, arith, order, lt, eq, gt, sym, subst, ◌∙◌,
  Option-cases, inl, inr, ap,
}
use libalgo.Common.Int.{ℤ}
use libalgo.Tree.{leaf, node, left_of, right_of, plug}
use libalgo.Tree.Sorted
use libalgo.Tree.Sorted.{IsSorted, find, insert}
use libalgo.Tree.Spec.{insert-IsSorted, insert_present}
use libalgo.Tree.Keys.{
  InGap, InGap-root, InGap-left, InGap-right, entries-plug, find-plug, insert-plug,
}
use libalgo.Avl.{AvlNode, AvlPath, avl_alloc, do_simple_insert, do_fix_balance, finish, avl_insert}
use libalgo.Avl.Balance.{height, IsAvl, Holds}
use libalgo.Avl.Pivot.{keys}
use libalgo.Avl.Climb.{climb-Finished}

-- What the keys show of a balance factor: nothing.
abbrev hide : ℤ → Unit {0}
hide b = tt

module _ (key : ℕ) (l : AvlNode) (k : ℕ) (b : ℤ) (r : AvlNode) (p : AvlPath) where
  do_simple_insert_lt :
      key < k → do_simple_insert key (node l k b r) p ≡ do_simple_insert key l (left_of k b r ∷ p)
  unfolding do_simple_insert
  do_simple_insert_lt h = ground arith

  do_simple_insert_gt :
      k < key → do_simple_insert key (node l k b r) p ≡ do_simple_insert key r (right_of l k b ∷ p)
  unfolding do_simple_insert
  do_simple_insert_gt h = ground arith

  do_simple_insert_eq : key ≡ k → do_simple_insert key (node l k b r) p ≡ none
  unfolding do_simple_insert
  do_simple_insert_eq h = ground arith

-- Where the descent stops: at a node with the key, or at the NULL link where the key belongs.
abbrev Stops : ℕ → AvlNode → Option AvlPath → Type 0
Stops key root none = find key (keys root) ≡ some tt
Stops key root (some q) = (plug q leaf ≡ root) × InGap hide key q × Holds q 0

do_simple_insert-Stops :
    (key : ℕ) (t : AvlNode) (p : AvlPath)
    → IsSorted (keys t)
    → InGap hide key p
    → IsAvl t
    → Holds p (height t)
    → Stops key (plug p t) (do_simple_insert key t p)
unfolding plug
do_simple_insert-Stops key leaf p s g a h = unfold do_simple_insert in (refl, g, h)
do_simple_insert-Stops key (node l k b r) p s g (al, v, ar) h =
    let t = Sorted.split (keys l) (k, tt) (keys r) s in
    elim (order key k) [
      | lt c ↦ rw (do_simple_insert_lt key l k b r p c) (
          do_simple_insert-Stops key l (left_of k b r ∷ p) t.left
            (InGap-left hide key p l k b r c s g) al (v, ar, h))
      | gt c ↦ rw (do_simple_insert_gt key l k b r p c) (
          do_simple_insert-Stops key r (right_of l k b ∷ p) t.right
            (InGap-right hide key p l k b r c s g) ar (v, al, h))
      | eq e ↦ rw (do_simple_insert_eq key l k b r p e) (
          find-plug hide g (node l k b r)
          ∙ Sorted.find_here key (k, tt) (keys r) (keys l) e t.below)
    ]

-- What an insertion has done to the tree `root`: it did not crash, and returned `code` and `tree`.
pub record Inserted (key : ℕ) (root : AvlNode) (out : Option (ℕ × AvlNode)) : Type 0 where
  pub code : ℕ
  pub tree : AvlNode
  pub runs : out ≡ some (code, tree)
  pub avl : IsAvl tree
  pub list : keys tree ≡ insert key tt (keys root)
  pub sorted : IsSorted (keys tree)
  pub result : code ≡ elim (find key (keys root)) [ none ↦ 1 | some _ ↦ 0 ]
  pub refused : code ≡ 0 → tree ≡ root

Inserted-new :
    (key : ℕ) (root : AvlNode) (q : AvlPath)
    → IsSorted (keys root)
    → plug q leaf ≡ root
    → InGap hide key q
    → Holds q 0
    → Inserted key root (finish (do_fix_balance (avl_alloc key) q))
Inserted-new key root q s e g h =
    let x =
      climb-Finished q (avl_alloc key) 0 (unfold avl_alloc in (tt, omega arith, tt))
        (unfold avl_alloc in refl) (inr refl) h in
    let at_leaf : keys (plug q (avl_alloc key)) ≡ insert key tt (keys (plug q leaf)) =
      unfold avl_alloc insert in
      entries-plug hide q (avl_alloc key) ∙ sym (insert-plug hide g leaf tt) in
    let list = x.order ∙ at_leaf ∙ ap (λ u. insert key tt (keys u)) e in
    let missing : find key (keys root) ≡ none =
      unfold find in sym (ap (λ u. find key (keys u)) e) ∙ find-plug hide g leaf in
    record {
      code = 1;
      tree = x.tree;
      runs = x.runs;
      avl = x.avl;
      list = list;
      sorted = subst IsSorted (sym list) (insert-IsSorted key tt (keys root) s);
      result = rw missing;
      refused = λ z. absurd (omega arith);
    }

Inserted-present :
    (key : ℕ) (root : AvlNode)
    → IsAvl root
    → IsSorted (keys root)
    → find key (keys root) ≡ some tt
    → Inserted key root (some (0, root))
Inserted-present key root a s found = record {
  code = 0;
  tree = root;
  runs = refl;
  avl = a;
  list = sym (insert_present key tt tt (keys root) s found);
  sorted = s;
  result = rw found;
  refused = λ _. refl;
}

-- On an AVL tree `avl_insert` does not crash and ends in an AVL tree. It refuses a key that is
-- there, with 0, and leaves the tree alone; else it returns 1 and adds the key in its place.
pub avl_insert-Inserted :
    (root : AvlNode) (key : ℕ)
    → IsAvl root
    → IsSorted (keys root)
    → Inserted key root (avl_insert root key)
unfolding avl_insert
avl_insert-Inserted leaf key a s =
    subst (Inserted key leaf) (unfold finish do_fix_balance in refl)
      (Inserted-new key leaf [] s (unfold plug in refl) (InGap-root hide key) tt)
avl_insert-Inserted (node l k b r) key a s =
    let root = node l k b r in
    let start : Stops key root (do_simple_insert key root []) =
      unfold plug in do_simple_insert-Stops key root [] s (InGap-root hide key) a tt in
    elim (Option-cases (do_simple_insert key root [])) [
      | inl stop ↦ rw (stop, avl_insert) (Inserted-present key root a s (rw stop at start))
      | inr (q, stop) ↦
          let (inside, gap, holds) = rw stop at start in
          rw (stop, avl_insert) (Inserted-new key root q s inside gap holds)
    ]
