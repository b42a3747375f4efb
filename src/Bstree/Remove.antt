-- ===== src/Bstree/Remove.antt =====
-- `bst_remove` against removal from a sorted list.
use libalgo.Common.{
  ℕ, ◌≡◌, refl, ◌∷◌, [], ◌++◌, none, some, ap, sym, subst, ◌∙◌, Option-cases, inl, inr,
  append_assoc, append-nil,
}
use libalgo.Common.Int.{ℤ, pos, negsuc}
use libalgo.Tree.{leaf, node, left_of, TreePath, Loc, plug}
use libalgo.Tree.Sorted
use libalgo.Tree.Sorted.{IsSorted, find, erase}
use libalgo.Tree.Spec.{erase-IsSorted, erase_absent}
use libalgo.Tree.Keys.{before, after, entries-plug, erase-plug, IsSorted-focus}
use libalgo.Bstree.{
  BstNode, bst_lookup, min_from, detach, attach, replacement, remove_at, bst_remove,
}
use libalgo.Bstree.Lookup.{items, IsNodeOf, bst_lookup-Answers, find-IsNodeOf}

module _ {ℓ} {A : Type ℓ} where
  -- The least node of a subtree leaves everything else to its right.
  min_from-items :
      (l : BstNode A) (k : ℕ) (a : A) (r : BstNode A) (p : TreePath A)
      → let (k', a', own, inner) = min_from l k a r p in
        (before (λ (a : A). a) inner ≡ before (λ (a : A). a) p)
        × ((k', a') ∷ (items own ++ after (λ (a : A). a) inner)
            ≡ items (node l k a r) ++ after (λ (a : A). a) p)
  unfolding min_from before after
  min_from-items leaf k a r p = (refl, refl)
  min_from-items (node ll lk la lr) k a r p =
      let (low, high) = min_from-items ll lk la lr (left_of k a r ∷ p) in
      (low, high ∙ sym (append_assoc (items (node ll lk la lr)) ((k, a) ∷ items r) _))

  -- Whether or not the victim's right link was updated, `s` ends up with the detached right subtree.
  attach-detach :
      (left : BstNode A) (k : ℕ) (a : A) (own : BstNode A) (inner outer : TreePath A)
      → attach left k a own (detach own inner outer) ≡ node left k a (plug inner own)
  unfolding attach detach
  attach-detach left k a (node ol ok oa or) inner outer = refl
  attach-detach left k a leaf [] [] = refl
  attach-detach left k a leaf [] (f ∷ outer) = refl
  attach-detach left k a leaf (g ∷ inner) outer = refl

  items-replacement :
      (l r : BstNode A) (outer : TreePath A) → items (replacement l r outer) ≡ items l ++ items r
  unfolding replacement before after
  items-replacement leaf r outer = refl
  items-replacement (node ll lk la lr) leaf outer = simp append-nil
  items-replacement (node ll lk la lr) (node rl rk ra rr) outer =
      let (k, a, own, inner) = min_from rl rk ra rr [] in
      let (low, high) = min_from-items rl rk ra rr [] in
      rw
        (
          attach-detach (node ll lk la lr) k a own inner outer,
          entries-plug (λ (a : A). a) inner own,
          low,
        )
        (ap (λ xs. items (node ll lk la lr) ++ xs) (high ∙ simp append-nil))

  -- What a removal has done to the tree `root`.
  pub record Removed (key : ℕ) (root : BstNode A) (out : ℤ × BstNode A) : Type ℓ where
    pub list : items out.1 ≡ erase key (items root)
    pub sorted : IsSorted (items out.1)
    pub result : out.0 ≡ elim (find key (items root)) [ none ↦ negsuc 0 | some _ ↦ pos 1 ]
    pub refused : find key (items root) ≡ none → out.1 ≡ root

  remove_at-items :
      (key : ℕ) (root : BstNode A) (x : Loc A)
      → IsSorted (items root)
      → IsNodeOf key root x
      → items (remove_at x.focus x.up) ≡ erase key (items root)
  unfolding remove_at
  remove_at-items key root x s n =
      let id = λ (a : A). a in
      let t = node n.left key n.priv n.right in
      let s' = subst (λ u. IsSorted (items u)) (sym n.inside) s in
      let h =
        Sorted.split (items n.left) (key, n.priv) (items n.right) (IsSorted-focus id x.up t s') in
      let here = Sorted.erase_here key (key, n.priv) (items n.right) (items n.left) refl h.below in
      rw
        (
          n.focus,
          entries-plug id x.up (replacement n.left n.right x.up),
          items-replacement n.left n.right x.up,
        )
        (ap (λ xs. before id x.up ++ (xs ++ after id x.up)) (sym here)
          ∙ sym (erase-plug id n.gap t)
          ∙ ap (λ u. erase key (items u)) n.inside)

  -- `bst_remove` returns -1 and leaves the tree alone where the key is missing; else it returns 1
  -- and the tree holds the other keys with their data, in the same order.
  pub bst_remove-Removed :
      (root : BstNode A) (key : ℕ) → IsSorted (items root) → Removed key root (bst_remove root key)
  unfolding bst_remove
  bst_remove-Removed root key s = elim (Option-cases (bst_lookup root key)) [
    | inl missing ↦
        let absent = rw missing at (bst_lookup-Answers root key s) in
        rw (missing, bst_remove)
          (record {
            list = sym (erase_absent key (items root) absent);
            sorted = s;
            result = rw absent;
            refused = λ _. refl;
          })
    | inr (x, found) ↦
        let n = rw found at (bst_lookup-Answers root key s) in
        let list = remove_at-items key root x s n in
        let present = find-IsNodeOf s n in
        rw (found, bst_remove)
          (record {
            list = list;
            sorted = subst IsSorted (sym list) (erase-IsSorted key (items root) s);
            result = rw present;
            refused = λ e. cc (sym e ∙ present);
          })
  ]
