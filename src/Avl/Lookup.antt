-- ===== src/Avl/Lookup.antt =====
-- `avl_lookup` against the sorted list of the tree's keys.
use libalgo.Common.{ℕ, ◌<◌, ◌≡◌, refl, Option, none, some, arith, order, lt, eq, gt, sym, ap, ◌∙◌}
use libalgo.Common.Int.{ℤ}
use libalgo.Tree.{leaf, node}
use libalgo.Tree.Sorted
use libalgo.Tree.Sorted.{IsSorted, find}
use libalgo.Avl.{AvlNode, avl_lookup}
use libalgo.Avl.Pivot.{keys}

module _ (l : AvlNode) (k : ℕ) (b : ℤ) (r : AvlNode) (key : ℕ) where
  avl_lookup_lt : key < k → avl_lookup (node l k b r) key ≡ avl_lookup l key
  unfolding avl_lookup
  avl_lookup_lt h = ground arith

  avl_lookup_gt : k < key → avl_lookup (node l k b r) key ≡ avl_lookup r key
  unfolding avl_lookup
  avl_lookup_gt h = ground arith

  avl_lookup_eq : key ≡ k → avl_lookup (node l k b r) key ≡ some (node l k b r)
  unfolding avl_lookup
  avl_lookup_eq h = ground arith

-- NULL where the list has no such key, and a node with the key where it has.
abbrev pub Answers : ℕ → AvlNode → Option AvlNode → Type 0
Answers key root none = find key (keys root) ≡ none
Answers key root (some u) =
    (l : AvlNode) × (b : ℤ) × (r : AvlNode) × (u ≡ node l key b r)
    × (find key (keys root) ≡ some tt)

Answers-in :
    (key : ℕ) (t u : AvlNode) (out : Option AvlNode)
    → find key (keys t) ≡ find key (keys u)
    → Answers key u out
    → Answers key t out
Answers-in key t u none e a = e ∙ a
Answers-in key t u (some x) e (l, b, r, is, found) = (l, b, r, is, e ∙ found)

-- On an ordered tree `avl_lookup` returns NULL for a missing key, and the node with the key else.
pub avl_lookup-Answers :
    (root : AvlNode) (key : ℕ) → IsSorted (keys root) → Answers key root (avl_lookup root key)
avl_lookup-Answers leaf key s = unfold avl_lookup find in refl
avl_lookup-Answers (node l k b r) key s =
    let t = Sorted.split (keys l) (k, tt) (keys r) s in
    elim (order key k) [
      | lt h ↦ rw (avl_lookup_lt l k b r key h) (
          Answers-in key (node l k b r) l (avl_lookup l key)
            (Sorted.find_left key (k, tt) (keys r) (keys l) h t.above)
            (avl_lookup-Answers l key t.left))
      | gt h ↦ rw (avl_lookup_gt l k b r key h) (
          Answers-in key (node l k b r) r (avl_lookup r key)
            (Sorted.find_right key (k, tt) (keys r) (keys l) h t.below)
            (avl_lookup-Answers r key t.right))
      | eq e ↦ rw (avl_lookup_eq l k b r key e) (
        l,
        b,
        r,
        ap (λ j. node l j b r) (sym e),
        Sorted.find_here key (k, tt) (keys r) (keys l) e t.below,
      )
    ]
