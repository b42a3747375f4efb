-- ===== src/Btree/Remove/Round.antt =====
-- The rest of the loop of bt_remove below a link, after a move or a merge.
use libalgo.Common.{
  ℕ, suc, ◌<◌, ◌≤◌, ◌≡◌, refl, sym, ap, ◌∙◌, List, [], ◌∷◌, ◌++◌, append_assoc, map, some, Option,
  length, length-set, get_or, get_elem?, take, drop, set, subst, arith,
}
use libalgo.Common.Int.{ℤ}
use libalgo.Tree.Sorted.{Below, Above, IsSorted, Above-parts, Below-parts}
use libalgo.Btree.{BtNode, slot_of, array_remove, relink}
use libalgo.Btree.Arrays.{
  Every, Every-set, Every-take, Every-drop, length-map, get_elem-set, get_elem-set_next,
  get_elem-map,
}
use libalgo.Btree.Weave.{Items, before, after}
use libalgo.Btree.Items.{items, Shape}
use libalgo.Btree.Spot.{Spot, Spot-IsSorted}
use libalgo.Btree.Remove.{joined, moved, merge_siblings, min_node_slots}
use libalgo.Btree.Remove.Pair.{
  after-pair, before-pair, set_twice_left, set_twice_right, set_again, items-pair, items-merge,
  items-whole,
}
use libalgo.Btree.Remove.Cut.{Every-append}
use libalgo.Btree.Remove.Lend.{Lent, FromRight, FromLeft, Joined, joined-Joined}
use libalgo.Btree.Remove.Removed.{Removed, relink-Removed, length-array_remove}

module _ (low h v i : ℕ) (slot : List ℕ) (links : List (BtNode h)) (l r : BtNode h)
    (p : Shape low (suc h) (slot, links)) (w : IsSorted (items (suc h) (slot, links)))
    (lt : i < length slot) (left : get_elem? links i ≡ some l)
    (right : get_elem? links (suc i) ≡ some r) (pl : Shape min_node_slots h l)
    (pr : Shape min_node_slots h r) (go : BtNode h → Option (ℤ × BtNode h)) where
  abbrev all : Items
  all = items (suc h) (slot, links)

  abbrev front : Items
  front = before i slot (map (items h) links)

  abbrev back : Items
  back = after (suc i) slot (map (items h) links)

  abbrev key : ℕ
  key = get_or slot i 0

  pub whole : all ≡ front ++ ((items h l ++ ((get_or slot i 0, tt) ∷ items h r)) ++ back)
  whole = items-whole h i slot links p.2 lt l r left right

  lent-Shape :
      (k : ℕ) (a b : BtNode h)
      → Shape min_node_slots h a
      → Shape min_node_slots h b
      → Shape low (suc h) (set slot i k, set (set links i a) (suc i) b)
  lent-Shape k a b pa pb = (
    omega (arith, length-set slot i k, p.0),
    omega (arith, length-set slot i k, p.1),
    omega (
      arith,
      length-set slot i k,
      length-set (set links i a) (suc i) b,
      length-set links i a,
      p.2,
    ),
    Every-set (Shape min_node_slots h) (set links i a) (suc i) b
        (Every-set (Shape min_node_slots h) links i a p.3 pa) pb,
  )

  moved-step :
      (a : BtNode h) (k : ℕ) (b n : BtNode h) (j : ℕ)
      → get_elem? (set (set links i a) (suc i) b) j ≡ some n
      → moved h slot links i j (a, k, b) go
        ≡ relink h (set slot i k) (set (set links i a) (suc i) b) j (go n)
  unfolding moved
  moved-step a k b n j e = rw (moved, e) refl

  -- The loop goes on with the left one, which has got a slot.
  pub left-Removed :
      (a : BtNode h) (k : ℕ) (b : BtNode h)
      → Lent h (items h l ++ ((key, tt) ∷ items h r)) (a, k, b)
      → FromRight h r (a, k, b)
      → Below v front
      → Above v (after i slot (map (items h) links))
      → (IsSorted (items h a) → Removed min_node_slots h v (items h a) (go a))
      → Removed low (suc h) v all (moved h slot links i i (a, k, b) go)
  left-Removed a k b q u below above ih =
      subst (λ o. Removed low (suc h) v all o) (sym (moved-step a k b a i there))
        (relink-Removed low h v all (set slot i k) (set (set links i a) (suc i) b) i a front
          (((k, tt) ∷ items h b) ++ back) (go a) spot
          (λ m.
            ap (λ z. items (suc h) (set slot i k, z)) (set_twice_left links i a b m)
            ∙ items-pair h i slot links p.2 lt k m b
            ∙ ap (λ z. front ++ z) (append_assoc (items h m) ((k, tt) ∷ items h b) back))
          (λ m pm.
            subst (λ z. Shape low (suc h) (set slot i k, z)) (sym (set_twice_left links i a b m))
              (lent-Shape k m b pm (q.1)))
          (ih (Spot-IsSorted spot w)))
    where
      there : get_elem? (set (set links i a) (suc i) b) i ≡ some a
      there =
          get_elem-set_next (set links i a) i b ∙ get_elem-set links i a (omega (arith, p.2, lt))

      behind :
          after i slot (map (items h) links) ≡ ((key, tt) ∷ u.1) ++ (((k, tt) ∷ items h b) ++ back)
      behind =
          after-pair i slot (map (items h) links) (items h r) (length-map (items h) links ∙ p.2)
            (get_elem-map (items h) links (suc i) r right) lt
          ∙ ap (λ z. (key, tt) ∷ (z ++ back)) (u.2)
          ∙ ap (λ z. (key, tt) ∷ z) (append_assoc (u.1) ((k, tt) ∷ items h b) back)

      spot : Spot v all front (items h a) (((k, tt) ∷ items h b) ++ back)
      spot = record {
        whole =
            whole
            ∙ ap (λ z. front ++ (z ++ back)) (sym (q.2))
            ∙ ap (λ z. front ++ z) (append_assoc (items h a) ((k, tt) ∷ items h b) back);
        front_Below = below;
        back_Above =
            (Above-parts v ((key, tt) ∷ u.1) (((k, tt) ∷ items h b) ++ back)
              (subst (λ z. Above v z) behind above)).1;
      }

  -- The same with the right one.
  pub right-Removed :
      (a : BtNode h) (k : ℕ) (b : BtNode h)
      → Lent h (items h l ++ ((key, tt) ∷ items h r)) (a, k, b)
      → FromLeft h l (a, k, b)
      → Below v (before (suc i) slot (map (items h) links))
      → Above v back
      → (IsSorted (items h b) → Removed min_node_slots h v (items h b) (go b))
      → Removed low (suc h) v all (moved h slot links i (suc i) (a, k, b) go)
  right-Removed a k b q u below above ih =
      subst (λ o. Removed low (suc h) v all o) (sym (moved-step a k b b (suc i) there))
        (relink-Removed low h v all (set slot i k) (set (set links i a) (suc i) b) (suc i) b
          (front ++ (items h a ++ ((k, tt) ∷ []))) back (go b) spot
          (λ m.
            ap (λ z. items (suc h) (set slot i k, z)) (set_twice_right links i a b m)
            ∙ items-pair h i slot links p.2 lt k a m
            ∙ simp append_assoc)
          (λ m pm.
            subst (λ z. Shape low (suc h) (set slot i k, z)) (sym (set_twice_right links i a b m))
              (lent-Shape k a m (q.0) pm))
          (ih (Spot-IsSorted spot w)))
    where
      there : get_elem? (set (set links i a) (suc i) b) (suc i) ≡ some b
      there = get_elem-set (set links i a) (suc i) b (omega (arith, p.2, lt, length-set links i a))

      ahead :
          before (suc i) slot (map (items h) links)
          ≡ (front ++ (items h a ++ ((k, tt) ∷ []))) ++ (u.1 ++ ((key, tt) ∷ []))
      ahead =
          before-pair i slot (map (items h) links) (items h l) (length-map (items h) links ∙ p.2)
            (get_elem-map (items h) links i l left) lt
          ∙ ap (λ z. front ++ (z ++ ((key, tt) ∷ []))) (u.2)
          ∙ simp append_assoc

      spot : Spot v all (front ++ (items h a ++ ((k, tt) ∷ []))) (items h b) back
      spot = record {
        whole = whole ∙ ap (λ z. front ++ (z ++ back)) (sym (q.2)) ∙ simp append_assoc;
        front_Below =
            (Below-parts v (front ++ (items h a ++ ((k, tt) ∷ []))) (u.1 ++ ((key, tt) ∷ []))
              (subst (λ z. Below v z) ahead below)).0;
        back_Above = above;
      }

  -- The loop goes on with the node that the two were merged into.
  pub merge-Removed :
      low < length slot
      → length (slot_of h l) ≤ min_node_slots
      → length (slot_of h r) ≤ min_node_slots
      → Below v front
      → Above v back
      → ((m : BtNode h)
          → Joined key h (items h l ++ ((key, tt) ∷ items h r)) m
          → IsSorted (items h m)
          → Removed min_node_slots h v (items h m) (go m))
      → Removed low (suc h) v all (merge_siblings h slot links i go)
  unfolding merge_siblings array_remove
  merge-Removed spare a b below above ih =
      let (m, e, q) = joined-Joined key h l r pl pr a b in
      let spot : Spot v all front (items h m) back = record {
        whole = whole ∙ ap (λ z. front ++ (z ++ back)) (sym (q.1));
        front_Below = below;
        back_Above = above;
      } in
      subst (λ o. Removed low (suc h) v all o) (sym (step m e))
        (relink-Removed low h v all (array_remove slot i) (set (array_remove links (suc i)) i m) i m
          front back (go m) spot
          (λ n.
            ap (λ z. items (suc h) (array_remove slot i, z))
              (set_again (array_remove links (suc i)) i m n)
            ∙ items-merge h i slot links p.2 lt n)
          (λ n pn.
            subst (λ z. Shape low (suc h) (array_remove slot i, z))
              (sym (set_again (array_remove links (suc i)) i m n)) (rest n pn))
          (ih m q (Spot-IsSorted spot w)))
    where
      step :
          (m : BtNode h)
          → joined h l key r ≡ some m
          → merge_siblings h slot links i go
            ≡ relink h (array_remove slot i) (set (array_remove links (suc i)) i m) i (go m)
      step m e = rw (merge_siblings, left, right, e) refl

      Every-array_remove : (j : ℕ) → Every (Shape min_node_slots h) (array_remove links j)
      Every-array_remove j =
          Every-append (Shape min_node_slots h) (take j links) (drop (suc j) links)
            (Every-take (Shape min_node_slots h) j links p.3)
            (Every-drop (Shape min_node_slots h) (suc j) links p.3)

      rest :
          (n : BtNode h)
          → Shape min_node_slots h n
          → Shape low (suc h) (array_remove slot i, set (array_remove links (suc i)) i n)
      rest n pn =
          let fewer = length-array_remove slot i lt in
          let links_fewer = length-array_remove links (suc i) (omega (arith, p.2, lt)) in
          (
            omega (arith, fewer, spare),
            omega (arith, fewer, p.1),
            omega (arith, fewer, links_fewer, p.2, length-set (array_remove links (suc i)) i n),
            Every-set (Shape min_node_slots h) (array_remove links (suc i)) i n
                (Every-array_remove (suc i)) pn,
          )
