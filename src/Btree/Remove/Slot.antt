-- ===== src/Btree/Remove/Slot.antt =====
-- The removal of a slot of a node with children, which a neighbouring item takes the place of.
use libalgo.Common.{
  ℕ, suc, ◌<◌, ◌≡◌, refl, sym, ap, ◌∙◌, List, [], ◌∷◌, ◌++◌, append_assoc, append-nil, map, some,
  none, Option, false, Bool-cases, inl, inr, ◌==◌, length, length-set, get_or, get_elem?, set,
  subst, arith,
}
use libalgo.Common.Int.{ℤ}
use libalgo.Tree.Sorted.{
  IsSorted, Split, split, find, erase, find_here, erase_here, Above-parts, Below-parts,
}
use libalgo.Tree.Spec.{IsSorted-parts}
use libalgo.Btree.{BtNode, slot_of}
use libalgo.Btree.Arrays.{Every-set}
use libalgo.Btree.Weave.{Items, before, after}
use libalgo.Btree.Items.{items, Shape}
use libalgo.Btree.Remove.{can_lend, min_node_slots}
use libalgo.Btree.Remove.Removed.{Removed}
use libalgo.Btree.Remove.Round.{merge-Removed}
use libalgo.Btree.Arrays.{get_elem-set_after}
use libalgo.Btree.Remove.{Target, to_value, to_slot, replaced, remove_slot}
use libalgo.Btree.Remove.Pair.{set_same, items-pair, items-whole}
use libalgo.Btree.Remove.Ends.{last_slot-Final, first_slot-Initial}
use libalgo.Btree.Remove.Removed.{answer}
use libalgo.Btree.Remove.Below.{can_lend-lt, can_lend-le}

-- Where the target is found.
abbrev pub Aims : (h : ℕ) → Target → BtNode h → ℕ → Type 0
Aims h (to_value w) n v = w ≡ v
Aims h (to_slot i) n v = (i < length (slot_of h n)) × (get_or (slot_of h n) i 0 ≡ v)

module _ (low h i : ℕ) (slot : List ℕ) (links : List (BtNode h)) (l r : BtNode h)
    (p : Shape low (suc h) (slot, links)) (w : IsSorted (items (suc h) (slot, links)))
    (spare : low < length slot) (lt : i < length slot) (left : get_elem? links i ≡ some l)
    (right : get_elem? links (suc i) ≡ some r) (pl : Shape min_node_slots h l)
    (pr : Shape min_node_slots h r) (go : Target → BtNode h → Option (ℤ × BtNode h))
    (ih : (t : Target) (c : BtNode h) (v : ℕ)
      → Shape min_node_slots h c
      → min_node_slots < length (slot_of h c)
      → IsSorted (items h c)
      → Aims h t c v
      → Removed min_node_slots h v (items h c) (go t c)) where
  abbrev v : ℕ
  v = get_or slot i 0

  abbrev all : Items
  all = items (suc h) (slot, links)

  abbrev front : Items
  front = before i slot (map (items h) links)

  abbrev back : Items
  back = after (suc i) slot (map (items h) links)

  whole : all ≡ (front ++ items h l) ++ ((v, tt) ∷ (items h r ++ back))
  whole = items-whole h i slot links p.2 lt l r left right ∙ simp append_assoc

  parts : Split (front ++ items h l) (v, tt) (items h r ++ back)
  parts = split (front ++ items h l) (v, tt) (items h r ++ back) (subst (λ z. IsSorted z) whole w)

  gone : erase v all ≡ (front ++ items h l) ++ (items h r ++ back)
  gone =
      ap (λ z. erase v z) whole
      ∙ erase_here v (v, tt) (items h r ++ back) (front ++ items h l) refl parts.below

  found : find v all ≡ some tt
  found =
      ap (λ z. find v z) whole
      ∙ find_here v (v, tt) (items h r ++ back) (front ++ items h l) refl parts.below

  lent-Shape :
      (k : ℕ) (a b : BtNode h)
      → Shape min_node_slots h a
      → Shape min_node_slots h b
      → Shape low (suc h) (set slot i k, set (set links i a) (suc i) b)
  lent-Shape k a b pa pb = (
    omega (arith, length-set slot i k, p.0),
    omega (arith, length-set slot i k, p.1),
    omega (
      arith,
      length-set slot i k,
      length-set (set links i a) (suc i) b,
      length-set links i a,
      p.2,
    ),
    Every-set (Shape min_node_slots h) (set links i a) (suc i) b
        (Every-set (Shape min_node_slots h) links i a p.3 pa) pb,
  )

  -- The last item of the left neighbour takes the place.
  last-Removed :
      (k : ℕ) (ys : Items) (out : Option (ℤ × BtNode h))
      → items h l ≡ ys ++ ((k, tt) ∷ [])
      → Removed min_node_slots h k (items h l) out
      → Removed low (suc h) v all (replaced h (set slot i k) links i out)
  unfolding replaced
  last-Removed k ys none e o = o
  last-Removed k ys (some (q, n)) e o =
      let own : set (set links i n) (suc i) r ≡ set links i n =
        set_same (set links i n) (suc i) r (get_elem-set_after links i n ∙ right) in
      let sorted = (IsSorted-parts front (items h l) parts.left).1 in
      let t = split ys (k, tt) [] (subst (λ z. IsSorted z) e sorted) in
      let rest : items h n ≡ ys =
        o.1 ∙ ap (λ z. erase k z) e ∙ erase_here k (k, tt) [] ys refl t.below ∙ append-nil ys in
      (
        subst (λ z. Shape low (suc h) (set slot i k, z)) own (lent-Shape k n r (o.0) pr),
        ap (λ z. items (suc h) (set slot i k, z)) (sym own)
            ∙ items-pair h i slot links p.2 lt k n r
            ∙ ap (λ z. front ++ ((z ++ ((k, tt) ∷ items h r)) ++ back)) rest
            ∙ whole_last ys k
            ∙ ap (λ z. (front ++ z) ++ (items h r ++ back)) (sym e)
            ∙ sym gone,
        ap answer (sym found),
      )
    where
      whole_last :
          (ys : Items) (k : ℕ)
          → front ++ ((ys ++ ((k, tt) ∷ items h r)) ++ back)
            ≡ (front ++ (ys ++ ((k, tt) ∷ []))) ++ (items h r ++ back)
      whole_last ys k = simp append_assoc

  -- The first item of the right neighbour takes the place.
  first-Removed :
      (k : ℕ) (ys : Items) (out : Option (ℤ × BtNode h))
      → items h r ≡ (k, tt) ∷ ys
      → Removed min_node_slots h k (items h r) out
      → Removed low (suc h) v all (replaced h (set slot i k) links (suc i) out)
  unfolding replaced
  first-Removed k ys none e o = o
  first-Removed k ys (some (q, n)) e o =
      let own : set (set links i l) (suc i) n ≡ set links (suc i) n =
        ap (λ z. set z (suc i) n) (set_same links i l left) in
      let rest : items h n ≡ ys =
        o.1 ∙ ap (λ z. erase k z) e ∙ erase_here k (k, tt) ys [] refl tt in
      (
        subst (λ z. Shape low (suc h) (set slot i k, z)) own (lent-Shape k l n pl (o.0)),
        ap (λ z. items (suc h) (set slot i k, z)) (sym own)
            ∙ items-pair h i slot links p.2 lt k l n
            ∙ ap (λ z. front ++ ((items h l ++ ((k, tt) ∷ z)) ++ back)) rest
            ∙ whole_first ys k
            ∙ ap (λ z. (front ++ items h l) ++ (z ++ back)) (sym e)
            ∙ sym gone,
        ap answer (sym found),
      )
    where
      whole_first :
          (ys : Items) (k : ℕ)
          → front ++ ((items h l ++ ((k, tt) ∷ ys)) ++ back)
            ≡ (front ++ items h l) ++ (((k, tt) ∷ ys) ++ back)
      whole_first ys k = simp append_assoc

  pub slot-Removed : Removed low (suc h) v all (remove_slot h slot links i go)
  unfolding remove_slot
  slot-Removed = elim (Bool-cases (can_lend h l)) [
    | inl f ↦
        let (k, e, (ys, q)) =
          last_slot-Final h min_node_slots l pl (omega (arith, can_lend-lt h l f)) in
        rw (remove_slot, left, f, e)
          (last-Removed k ys (go (to_value k) l) q
            (ih (to_value k) l k pl (can_lend-lt h l f) sorted_left refl))
    | inr f ↦ elim (Bool-cases (can_lend h r)) [
      | inl g ↦
          let (k, e, (ys, q)) =
            first_slot-Initial h min_node_slots r pr (omega (arith, can_lend-lt h r g)) in
          rw (remove_slot, left, f, right, g, e)
            (first-Removed k ys (go (to_value k) r) q
              (ih (to_value k) r k pr (can_lend-lt h r g) sorted_right refl))
      | inr g ↦
          rw (remove_slot, left, f, right, g, inside)
            (merge-Removed low h v i slot links l r p w lt left right pl pr
              (go (to_slot min_node_slots)) spare (can_lend-le h l f) (can_lend-le h r g)
              (Below-parts v front (items h l) parts.below).0
              (Above-parts v (items h r) back parts.above).1
              (λ m j s.
                ih (to_slot min_node_slots) m v (j.0) (omega (arith, j.2)) s
                  (omega (arith, j.2), j.3)))
    ]
  ]
    where
      sorted_left : IsSorted (items h l)
      sorted_left = (IsSorted-parts front (items h l) parts.left).1

      sorted_right : IsSorted (items h r)
      sorted_right = (IsSorted-parts (items h r) back parts.right).0

      inside : (i == length slot) ≡ false
      inside = ground (arith, lt)
