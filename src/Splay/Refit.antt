-- ===== src/Splay/Refit.antt =====
-- The greatest sizes after `splay_insert` and `splay_remove_init`.
use libalgo.Common.{
  ℕ, ◌≡◌, refl, Option, some, sym, subst, arith, ◌==◌, Bool-cases, inl, inr, order, lt, eq, gt,
  lt→ltb, le→not_ltb,
}
use libalgo.Tree.{leaf, node}
use libalgo.Tree.Sorted
use libalgo.Tree.Sorted.{Below, Above, IsSorted, find}
use libalgo.Splay.{
  Sizes, SplayNode, refit, link_new, insert_at, splay_insert, set_right, join_subtrees, remove_at,
  splay_remove_init,
}
use libalgo.Splay.Loop.{items}
use libalgo.Splay.Keys.{top_down_splay-Parts}
use libalgo.Splay.Augment.{IsAugmented, recomputed}
use libalgo.Splay.Kept.{EachIsAugmented, top_down_splay-EachIsAugmented}

-- A run that does not crash, and leaves an augmented tree.
pub record Augmented (out : Option SplayNode) : Type 0 where
  pub tree : SplayNode
  pub runs : out ≡ some tree
  pub augmented : IsAugmented tree

-- Both subtrees are augmented; the root itself need not be.
abbrev Halves : SplayNode → Type 0
Halves leaf = Unit
Halves (node l k a r) = IsAugmented l × IsAugmented r

refit-IsAugmented : (t : SplayNode) → Halves t → IsAugmented (refit t)
unfolding refit
refit-IsAugmented leaf h = tt
refit-IsAugmented (node l k a r) h = (h.0, recomputed l a r, h.1)

halves : (t : SplayNode) → IsAugmented t → Halves t
halves leaf a = tt
halves (node l k b r) a = (a.0, a.2)

link_new-IsAugmented :
    (l : SplayNode) (val : ℕ) (a : Sizes) (r : SplayNode)
    → Halves l
    → Halves r
    → IsAugmented (link_new l val a r)
unfolding link_new
link_new-IsAugmented l val a r x y =
    refit-IsAugmented (node (refit l) val a (refit r))
      (refit-IsAugmented l x, refit-IsAugmented r y)

insert_at-Augmented :
    (val : ℕ) (a : Sizes) (l : SplayNode) (k : ℕ) (b : Sizes) (r : SplayNode)
    → IsAugmented (node l k b r)
    → Augmented (insert_at val a (node l k b r))
unfolding insert_at
insert_at-Augmented val a l k b r h = elim (order val k) [
  | lt c ↦ rw (lt→ltb val k c) (record {
    tree = _;
    runs = refl;
    augmented = link_new-IsAugmented l val a (node leaf k b r) (halves l h.0) (tt, h.2);
  })
  | gt c ↦
      rw (le→not_ltb val k (omega arith), lt→ltb k val c)
        (record {
          tree = _;
          runs = refl;
          augmented = link_new-IsAugmented (node l k b leaf) val a r (h.0, tt) (halves r h.2);
        })
  | eq e ↦
      rw (le→not_ltb val k (omega arith), le→not_ltb k val (omega arith))
        (record { tree = node l k b r; runs = refl; augmented = h })
]

-- `splay_insert` on an ordered tree in which every node has the greatest size of its subtree does not
-- crash and leaves such a tree.
pub splay_insert-Augmented :
    (val : ℕ) (a : Sizes) (root : SplayNode)
    → IsSorted (items root)
    → IsAugmented root
    → Augmented (splay_insert val a root)
unfolding splay_insert
splay_insert-Augmented val a leaf s g = record {
  tree = _;
  runs = refl;
  augmented = link_new-IsAugmented leaf val a leaf tt tt;
}
splay_insert-Augmented val a (node l k b r) s g =
    let p = top_down_splay-Parts val (node l k b r) tt s in
    let h = subst EachIsAugmented p.runs (top_down_splay-EachIsAugmented val (node l k b r) g) in
    rw (p.runs, splay_insert) (insert_at-Augmented val a p.left p.key p.sizes p.right h)

join_subtrees-Halves :
    (val : ℕ) (l r : SplayNode)
    → IsSorted (items l)
    → IsAugmented l
    → IsAugmented r
    → (t : SplayNode) × (join_subtrees val l r ≡ some t) × Halves t
unfolding join_subtrees set_right
join_subtrees-Halves val leaf r s x y = (r, refl, halves r y)
join_subtrees-Halves val (node ll lk la lr) r s x y =
    let p = top_down_splay-Parts val (node ll lk la lr) tt s in
    let h =
      subst EachIsAugmented p.runs (top_down_splay-EachIsAugmented val (node ll lk la lr) x) in
    rw (p.runs, join_subtrees) (node p.left p.key p.sizes r, refl, (h.0, y))

remove_at-Augmented :
    (val : ℕ) (l : SplayNode) (k : ℕ) (a : Sizes) (r : SplayNode)
    → IsSorted (items l)
    → IsAugmented (node l k a r)
    → Augmented (remove_at val (node l k a r))
unfolding remove_at
remove_at-Augmented val l k a r s h = elim (Bool-cases (val == k)) [
  | inr miss ↦ rw miss (record { tree = node l k a r; runs = refl; augmented = h })
  | inl hit ↦
      let (t, runs, whole) = join_subtrees-Halves val l r s h.0 h.2 in
      rw (hit, runs, remove_at)
        (record { tree = refit t; runs = refl; augmented = refit-IsAugmented t whole })
]

-- `splay_remove_init` on an ordered tree in which every node has the greatest size of its subtree does
-- not crash and leaves such a tree.
pub splay_remove_init-Augmented :
    (val : ℕ) (root : SplayNode)
    → IsSorted (items root)
    → IsAugmented root
    → Augmented (splay_remove_init val root)
unfolding splay_remove_init
splay_remove_init-Augmented val leaf s g = record { tree = leaf; runs = refl; augmented = tt }
splay_remove_init-Augmented val (node l k b r) s g =
    let p = top_down_splay-Parts val (node l k b r) tt s in
    let h = subst EachIsAugmented p.runs (top_down_splay-EachIsAugmented val (node l k b r) g) in
    let s' = subst IsSorted (sym p.list) s in
    rw (p.runs, splay_remove_init)
      (remove_at-Augmented val p.left p.key p.sizes p.right
        (Sorted.split (items p.left) (p.key, p.sizes.size) (items p.right) s').left h)
