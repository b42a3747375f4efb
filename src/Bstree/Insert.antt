-- ===== src/Bstree/Insert.antt =====
-- `bst_insert` against insertion into a sorted list.
use libalgo.Common.{
  ℕ, ◌<◌, ◌≡◌, refl, ◌∷◌, [], Option, none, some, arith, order, lt, eq, gt, sym, subst, ◌∙◌,
  Option-cases, inl, inr,
}
use libalgo.Tree.{leaf, node, left_of, right_of, TreePath, plug}
use libalgo.Tree.Sorted
use libalgo.Tree.Sorted.{IsSorted, find, insert}
use libalgo.Tree.Spec.{insert-IsSorted, insert_present}
use libalgo.Tree.Keys.{
  InGap, InGap-root, InGap-left, InGap-right, entries-plug, find-plug, insert-plug,
}
use libalgo.Bstree.{BstNode, insert_from, bst_insert}
use libalgo.Bstree.Lookup.{items}

module _ {ℓ} {A : Type ℓ} where
  module _ (key : ℕ) (l : BstNode A) (k : ℕ) (a : A) (r : BstNode A) (p : TreePath A) where
    insert_from_lt :
        key < k → insert_from key (node l k a r) p ≡ insert_from key l (left_of k a r ∷ p)
    unfolding insert_from
    insert_from_lt h = ground arith

    insert_from_gt :
        k < key → insert_from key (node l k a r) p ≡ insert_from key r (right_of l k a ∷ p)
    unfolding insert_from
    insert_from_gt h = ground arith

    insert_from_eq : key ≡ k → insert_from key (node l k a r) p ≡ none
    unfolding insert_from
    insert_from_eq h = ground arith

  -- Where the loop stops: at a node with the key, or at the NULL link where the key belongs.
  abbrev Stops : ℕ → BstNode A → Option (TreePath A) → Type ℓ
  Stops key root none = (a : A) × (find key (items root) ≡ some a)
  Stops key root (some q) = (plug q leaf ≡ root) × InGap (λ (a : A). a) key q

  insert_from-Stops :
      (key : ℕ) (t : BstNode A) (p : TreePath A)
      → IsSorted (items t)
      → InGap (λ (a : A). a) key p
      → Stops key (plug p t) (insert_from key t p)
  unfolding plug
  insert_from-Stops key leaf p s g = unfold insert_from in (refl, g)
  insert_from-Stops key (node l k a r) p s g =
      let t = Sorted.split (items l) (k, a) (items r) s in
      elim (order key k) [
        | lt h ↦ rw (insert_from_lt key l k a r p h) (
            insert_from-Stops key l (left_of k a r ∷ p) t.left
              (InGap-left (λ (a : A). a) key p l k a r h s g))
        | gt h ↦ rw (insert_from_gt key l k a r p h) (
            insert_from-Stops key r (right_of l k a ∷ p) t.right
              (InGap-right (λ (a : A). a) key p l k a r h s g))
        | eq e ↦ rw (insert_from_eq key l k a r p e) (
          a,
          find-plug (λ (a : A). a) g (node l k a r)
              ∙ Sorted.find_here key (k, a) (items r) (items l) e t.below,
        )
      ]

  -- What an insertion has done to the tree `root`.
  pub record Inserted (key : ℕ) (a : A) (root : BstNode A) (out : ℕ × BstNode A) : Type ℓ where
    pub list : items out.1 ≡ insert key a (items root)
    pub sorted : IsSorted (items out.1)
    pub result : out.0 ≡ elim (find key (items root)) [ none ↦ 1 | some _ ↦ 0 ]
    pub refused : out.0 ≡ 0 → out.1 ≡ root

  -- The new node, hung into the link where the loop stopped.
  plug-insert :
      (key : ℕ) (a : A) (root : BstNode A) (q : TreePath A)
      → plug q leaf ≡ root
      → InGap (λ (a : A). a) key q
      → (items (plug q (node leaf key a leaf)) ≡ insert key a (items root))
        × (find key (items root) ≡ none)
  plug-insert key a root q e g =
      subst
        (λ u.
          (items (plug q (node leaf key a leaf)) ≡ insert key a (items u))
          × (find key (items u) ≡ none))
        e
        (
          unfold insert in
              (entries-plug (λ (a : A). a) q (node leaf key a leaf)
                ∙ sym (insert-plug (λ (a : A). a) g leaf a)),
          unfold find in find-plug (λ (a : A). a) g leaf,
        )

  -- `bst_insert` of a node refuses a key that is there, with 0, and leaves the tree alone; else it
  -- returns 1 and the tree holds the key with its data at its place in the order.
  pub bst_insert-Inserted :
      (root : BstNode A) (key : ℕ) (a : A)
      → IsSorted (items root)
      → Inserted key a root (bst_insert root (some (key, a)))
  unfolding bst_insert
  bst_insert-Inserted leaf key a s =
      unfold insert find in
      record { list = refl; sorted = (tt, tt); result = refl; refused = λ e. absurd (omega arith) }
  bst_insert-Inserted (node l k b r) key a s =
      elim (Option-cases (insert_from key (node l k b r) [])) [
        | inl stop ↦
            let (w, found) = rw stop at (start s) in
            let same = insert_present key a w (items (node l k b r)) s found in
            rw (stop, bst_insert)
              (record { list = sym same; sorted = s; result = rw found; refused = λ _. refl })
        | inr (q, stop) ↦
            let (inside, gap) = rw stop at (start s) in
            let (list, missing) = plug-insert key a (node l k b r) q inside gap in
            rw (stop, bst_insert)
              (record {
                list = list;
                sorted = subst IsSorted (sym list) (insert-IsSorted key a (items (node l k b r)) s);
                result = rw missing;
                refused = λ e. absurd (omega arith);
              })
      ]
    where
      start :
          IsSorted (items (node l k b r))
          → Stops key (node l k b r) (insert_from key (node l k b r) [])
      start s =
          unfold plug in insert_from-Stops key (node l k b r) [] s (InGap-root (λ (a : A). a) key)
