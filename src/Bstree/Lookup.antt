-- ===== src/Bstree/Lookup.antt =====
-- `bst_lookup` and `bst_walk_tree_r` against the sorted list of the tree's keys.
use libalgo.Common.{
  ℕ, ◌<◌, ◌≡◌, refl, List, [], ◌∷◌, Option, none, some, arith, order, lt, eq, gt, ap, sym, subst,
  ◌∙◌, map,
}
use mathlib.Core.List.{map-append}
use libalgo.Tree.{leaf, node, left_of, right_of, TreePath, Loc, plug, entries}
use libalgo.Tree.Sorted
use libalgo.Tree.Sorted.{IsSorted, find}
use libalgo.Tree.Keys.{InGap, InGap-root, InGap-left, InGap-right, IsSorted-focus, find-plug}
use libalgo.Bstree.{BstNode, lookup_from, bst_lookup, walk_tree}

module _ {ℓ} {A : Type ℓ} where
  -- The keys of the tree with the private data, from left to right.
  abbrev pub items : BstNode A → List (ℕ × A)
  items = entries (λ a. a)

  -- `x` points to the node with the key in the tree `root`.
  pub record IsNodeOf (key : ℕ) (root : BstNode A) (x : Loc A) : Type ℓ where
    pub left : BstNode A
    pub priv : A
    pub right : BstNode A
    pub focus : x.focus ≡ node left key priv right
    pub inside : plug x.up (node left key priv right) ≡ root
    pub gap : InGap (λ (a : A). a) key x.up

  -- What a lookup answers: no such key, or its node.
  abbrev pub Answers : ℕ → BstNode A → Option (Loc A) → Type ℓ
  Answers key root none = find key (items root) ≡ none
  Answers key root (some x) = IsNodeOf key root x

  module _ (key : ℕ) (l : BstNode A) (k : ℕ) (a : A) (r : BstNode A) (p : TreePath A) where
    lookup_from_lt :
        key < k → lookup_from key (node l k a r) p ≡ lookup_from key l (left_of k a r ∷ p)
    unfolding lookup_from
    lookup_from_lt h = ground arith

    lookup_from_gt :
        k < key → lookup_from key (node l k a r) p ≡ lookup_from key r (right_of l k a ∷ p)
    unfolding lookup_from
    lookup_from_gt h = ground arith

    lookup_from_eq :
        key ≡ k → lookup_from key (node l k a r) p ≡ some (record { focus = node l k a r; up = p })
    unfolding lookup_from
    lookup_from_eq h = ground arith

  lookup_from-Answers :
      (key : ℕ) (t : BstNode A) (p : TreePath A)
      → IsSorted (items t)
      → InGap (λ (a : A). a) key p
      → Answers key (plug p t) (lookup_from key t p)
  unfolding plug
  lookup_from-Answers key leaf p s g = unfold lookup_from find in find-plug (λ (a : A). a) g leaf
  lookup_from-Answers key (node l k a r) p s g =
      let t = Sorted.split (items l) (k, a) (items r) s in
      elim (order key k) [
        | lt h ↦ rw (lookup_from_lt key l k a r p h) (
            lookup_from-Answers key l (left_of k a r ∷ p) t.left
              (InGap-left (λ (a : A). a) key p l k a r h s g))
        | gt h ↦ rw (lookup_from_gt key l k a r p h) (
            lookup_from-Answers key r (right_of l k a ∷ p) t.right
              (InGap-right (λ (a : A). a) key p l k a r h s g))
        | eq e ↦ rw (lookup_from_eq key l k a r p e) (record {
          left = l;
          priv = a;
          right = r;
          focus = ap (λ j. node l j a r) (sym e);
          inside = ap (λ j. plug p (node l j a r)) e;
          gap = g;
        })
      ]

  -- `bst_lookup` returns the node with the key where the tree has one, and NULL where it has none.
  pub bst_lookup-Answers :
      (root : BstNode A) (key : ℕ) → IsSorted (items root) → Answers key root (bst_lookup root key)
  unfolding bst_lookup plug
  bst_lookup-Answers root key s = lookup_from-Answers key root [] s (InGap-root (λ (a : A). a) key)

  -- The data at a node with the key is what the list holds under that key.
  pub find-IsNodeOf :
      {key : ℕ} {root : BstNode A} {x : Loc A}
      → IsSorted (items root)
      → (n : IsNodeOf key root x) → find key (items root) ≡ some n.priv
  find-IsNodeOf {key} {root} {x} s n =
      subst (λ u. IsSorted (items u) → find key (items u) ≡ some n.priv) n.inside
        (λ s'.
          let id = λ (a : A). a in
          let t = node n.left key n.priv n.right in
          let h =
            Sorted.split (items n.left) (key, n.priv) (items n.right)
              (IsSorted-focus id x.up t s') in
          find-plug id n.gap t
          ∙ Sorted.find_here key (key, n.priv) (items n.right) (items n.left) refl h.below)
        s

  -- `bst_walk_tree_r` prints the keys of the list, in its order.
  pub walk_tree-keys : (t : BstNode A) → walk_tree t ≡ map (λ e. e.0) (items t)
  unfolding walk_tree
  walk_tree-keys leaf = refl
  walk_tree-keys (node l k a r) = rw (walk_tree-keys l, walk_tree-keys r, map-append)
