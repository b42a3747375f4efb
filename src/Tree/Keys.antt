-- ===== src/Tree/Keys.antt =====
-- What a path contributes to the order of keys, and the descent of a search.
use libalgo.Common.{ℕ, ◌<◌, ◌≡◌, ◌∙◌, List, [], ◌∷◌, ◌++◌, append_assoc, append-nil, subst}
use libalgo.Tree.{Tree, node, left_of, right_of, TreePath, plug, entries}
use libalgo.Tree.Sorted
use libalgo.Tree.Spec.{IsSorted-parts}
use libalgo.Tree.Sorted.{Below, Above, IsSorted, find, insert, erase}

module _ {ℓ κ} {A : Type ℓ} {V : Type κ} (f : A → V) where
  -- The entries to the left and to the right of the hole.
  unfoldable pub before : TreePath A → List (ℕ × V)
  before [] = []
  before (left_of k a r ∷ p) = before p
  before (right_of l k a ∷ p) = before p ++ (entries f l ++ (k, f a) ∷ [])

  unfoldable pub after : TreePath A → List (ℕ × V)
  after [] = []
  after (left_of k a r ∷ p) = (k, f a) ∷ (entries f r ++ after p)
  after (right_of l k a ∷ p) = after p

  pub entries-plug :
      (p : TreePath A) (t : Tree A) → entries f (plug p t) ≡ before p ++ (entries f t ++ after p)
  unfolding before after plug
  entries-plug [] t = simp append-nil
  entries-plug (left_of k a r ∷ p) t = entries-plug p (node t k a r) ∙ simp append_assoc
  entries-plug (right_of l k a ∷ p) t = entries-plug p (node l k a t) ∙ simp append_assoc

  -- The hole is where the key `k` belongs.
  pub record InGap (k : ℕ) (p : TreePath A) : Type 0 where
    pub low : Below k (before p)
    pub high : Above k (after p)

  pub InGap-root : (k : ℕ) → InGap k []
  unfolding before after
  InGap-root k = record { low = tt; high = tt }

  module _ (k : ℕ) (p : TreePath A) (l : Tree A) (j : ℕ) (a : A) (r : Tree A) where
    -- The descent keeps the gap.
    pub InGap-left :
        k < j → IsSorted (entries f (node l j a r)) → InGap k p → InGap k (left_of j a r ∷ p)
    unfolding before after
    InGap-left h s g =
        let t = Sorted.split (entries f l) (j, f a) (entries f r) s in
        let high =
          Sorted.Above-append k (entries f r) (after p)
            (Sorted.Above-lt k j (entries f r) h t.above) g.high in
        record { low = g.low; high = (h, high) }

    pub InGap-right :
        j < k → IsSorted (entries f (node l j a r)) → InGap k p → InGap k (right_of l j a ∷ p)
    unfolding before after
    InGap-right h s g =
        let t = Sorted.split (entries f l) (j, f a) (entries f r) s in
        let low = Sorted.Below-lt j k (entries f l) h t.below in
        record {
          low =
              Sorted.Below-append k (before p) (entries f l ++ (j, f a) ∷ []) g.low
                (Sorted.Below-append k (entries f l) ((j, f a) ∷ []) low (h, tt));
          high = g.high;
        }

  -- An operation at the key of a gap acts on the focus alone.
  module _ {k : ℕ} {p : TreePath A} (g : InGap k p) (t : Tree A) where
    pub find-plug : find k (entries f (plug p t)) ≡ find k (entries f t)
    find-plug =
        rw (entries-plug p t) (Sorted.find_gap k (before p) (entries f t) (after p) g.low g.high)

    pub insert-plug :
        (v : V)
        → insert k v (entries f (plug p t)) ≡ before p ++ (insert k v (entries f t) ++ after p)
    insert-plug v =
        rw (entries-plug p t)
          (Sorted.insert_gap k v (before p) (entries f t) (after p) g.low g.high)

    pub erase-plug : erase k (entries f (plug p t)) ≡ before p ++ (erase k (entries f t) ++ after p)
    erase-plug =
        rw (entries-plug p t) (Sorted.erase_gap k (before p) (entries f t) (after p) g.low g.high)

  pub IsSorted-focus :
      (p : TreePath A) (t : Tree A) → IsSorted (entries f (plug p t)) → IsSorted (entries f t)
  IsSorted-focus p t s =
      let s' = subst IsSorted (entries-plug p t) s in
      (IsSorted-parts (entries f t) (after p)
        (IsSorted-parts (before p) (entries f t ++ after p) s').1).0
