-- ===== src/Splay/Insert.antt =====
-- `splay_insert` against insertion into a sorted list.
use libalgo.Common.{
  ℕ, ◌≡◌, refl, List, [], ◌∷◌, ◌++◌, Option, some, sym, ap, ◌∙◌, append_assoc, order, lt, eq, gt,
  lt→ltb, le→not_ltb, arith, subst,
}
use libalgo.Tree.{leaf, node}
use libalgo.Tree.Sorted
use libalgo.Tree.Sorted.{Below, Above, IsSorted, insert}
use libalgo.Splay.{Sizes, SplayNode, refit, link_new, insert_at, splay_insert}
use libalgo.Splay.Loop.{items}
use libalgo.Splay.Keys.{top_down_splay-Parts}

pub items-refit : (t : SplayNode) → items (refit t) ≡ items t
unfolding refit
items-refit leaf = refl
items-refit (node l k a r) = refl

items-link_new :
    (l : SplayNode) (val : ℕ) (a : Sizes) (r : SplayNode)
    → items (link_new l val a r) ≡ items l ++ (val, a.size) ∷ items r
unfolding link_new
items-link_new l val a r =
    items-refit (node (refit l) val a (refit r)) ∙ rw (items-refit l, items-refit r)

-- What an insertion has done to a tree with the items `ks`: it did not crash, and the new root is
-- the node with the key.
pub record Inserted (val : ℕ) (a : Sizes) (ks : List (ℕ × ℕ)) (out : Option SplayNode)
    : Type 0 where
  pub left : SplayNode
  pub sizes : Sizes
  pub right : SplayNode
  pub runs : out ≡ some (node left val sizes right)
  pub list : items (node left val sizes right) ≡ insert val a.size ks

root_is :
    (val : ℕ) (a : Sizes) (ks : List (ℕ × ℕ)) (l r : SplayNode)
    → items (link_new l val a r) ≡ insert val a.size ks
    → Inserted val a ks (some (link_new l val a r))
unfolding link_new refit
root_is val a ks l r e = record {
  left = refit l;
  sizes = _;
  right = refit r;
  runs = refl;
  list = e;
}

insert_at-Inserted :
    (val : ℕ) (a : Sizes) (l : SplayNode) (k : ℕ) (b : Sizes) (r : SplayNode)
    → IsSorted (items (node l k b r))
    → Below val (items l)
    → Above val (items r)
    → Inserted val a (items (node l k b r)) (insert_at val a (node l k b r))
unfolding insert_at
insert_at-Inserted val a l k b r s low high = elim (order val k) [
  | lt h ↦ rw (lt→ltb val k h) (
      root_is val a (items (node l k b r)) l (node leaf k b r) (
        items-link_new l val a (node leaf k b r)
        ∙ sym (at_gap (items l) ((k, b.size) ∷ items r) low (h, high))))
  | gt h ↦
      rw (le→not_ltb val k (omega arith), lt→ltb k val h)
        (root_is val a (items (node l k b r)) (node l k b leaf) r (
          items-link_new (node l k b leaf) val a r
          ∙ sym (
              ap (insert val a.size) (sym (append_assoc (items l) ((k, b.size) ∷ []) (items r)))
              ∙ at_gap (items l ++ (k, b.size) ∷ []) (items r)
                  (Sorted.Below-append val (items l) ((k, b.size) ∷ []) low (h, tt)) high)))
  | eq e ↦
      rw (le→not_ltb val k (omega arith), le→not_ltb k val (omega arith))
        (record {
          left = l;
          sizes = b;
          right = r;
          runs = ap (λ j. some (node l j b r)) (sym e);
          list =
              ap (λ j. items l ++ (j, b.size) ∷ items r) e
              ∙ sym
                  (Sorted.insert_here val (k, b.size) (items r) a.size (items l) e (rw (← e) low));
        })
]
  where
    at_gap :
        (bs cs : List (ℕ × ℕ))
        → Below val bs
        → Above val cs
        → insert val a.size (bs ++ cs) ≡ bs ++ (val, a.size) ∷ cs
    at_gap bs cs x y = unfold insert in Sorted.insert_gap val a.size bs [] cs x y

-- `splay_insert` does not crash. Its new root has the given key, and the tree holds the old keys
-- and sizes with the new one in its place; where the key was there, its old node is the root.
pub splay_insert-Inserted :
    (val : ℕ) (a : Sizes) (root : SplayNode)
    → IsSorted (items root)
    → Inserted val a (items root) (splay_insert val a root)
unfolding splay_insert
splay_insert-Inserted val a leaf s =
    root_is val a [] leaf leaf (unfold insert in items-link_new leaf val a leaf)
splay_insert-Inserted val a (node l k b r) s =
    let p = top_down_splay-Parts val (node l k b r) tt s in
    rw (p.runs, splay_insert)
      (subst (λ ks. Inserted val a ks (insert_at val a (node p.left p.key p.sizes p.right))) p.list
        (insert_at-Inserted val a p.left p.key p.sizes p.right (subst IsSorted (sym p.list) s) p.low
          p.high))
