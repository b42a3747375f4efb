-- ===== src/Btree/Split.antt =====
-- Insertion below a child that is split on the way.
use libalgo.Common.{
  ℕ, suc, ◌<◌, ◌≤◌, ◌≡◌, sym, ap, ◌∙◌, List, ◌∷◌, ◌++◌, map, Option, none, some, true, false, ltb,
  ◌==◌, if◌then◌else◌, Bool-cases, inl, inr, length, get_elem?, set, length-set, subst, arith,
}
use libalgo.Common.Int.{ℤ, pos, negsuc}
use libalgo.Tree.Sorted.{
  IsSorted, Split, split, find, insert, insert_left, insert_right, insert_here, find_left,
  find_right, find_here,
}
use libalgo.Btree.{BtNode, slot_of, array_insert, is_at, relink, insert_from, max_node_slots}
use libalgo.Btree.Index.{rank, rank-le-length}
use libalgo.Btree.Arrays.{
  pair_at, length-array_insert, Every-set, Every-array_insert, get_elem-left, get_elem-right,
  set-left, set-right,
}
use libalgo.Btree.Weave.{Items, before, after}
use libalgo.Btree.Items.{items, Shape, Halved}
use libalgo.Btree.Spot.{Spot, Spot-IsSorted, Spot-insert, Spot-find, items-pair, child-Spot}

-- What the call returns, after what the key led to.
abbrev pub code : Option {0} Unit → ℤ
code none = pos 0
code (some u) = negsuc 0

abbrev pub Inserted : ℕ → (h : ℕ) → ℕ → Items → Option (ℤ × BtNode h) → Type 0
Inserted low h v xs none = ⊥
Inserted low h v xs (some (r, n)) =
    Shape low h n × (items h n ≡ insert v tt xs) × (r ≡ code (find v xs))

-- The two nodes of a split and a key that differs from the slot between them: the insertion into
-- the one on the key's side is one into the items of both.
split_left :
    (v k : ℕ) (xs us ys bs : Items)
    → IsSorted xs
    → xs ≡ us ++ ((k, tt) ∷ bs)
    → v < k
    → ys ≡ insert v tt us
    → (ys ++ ((k, tt) ∷ bs) ≡ insert v tt xs) × (find v us ≡ find v xs)
split_left v k xs us ys bs w e l i =
    let t = split us (k, tt) bs (subst (λ z. IsSorted z) e w) in
    (
      ap (λ z. z ++ ((k, tt) ∷ bs)) i
          ∙ sym (insert_left v (k, tt) bs tt us l)
          ∙ ap (λ z. insert v tt z) (sym e),
      sym (find_left v (k, tt) bs us l t.above) ∙ ap (λ z. find v z) (sym e),
    )

split_right :
    (v k : ℕ) (xs us bs ys : Items)
    → IsSorted xs
    → xs ≡ us ++ ((k, tt) ∷ bs)
    → k < v
    → ys ≡ insert v tt bs
    → (us ++ ((k, tt) ∷ ys) ≡ insert v tt xs) × (find v bs ≡ find v xs)
split_right v k xs us bs ys w e l i =
    let t = split us (k, tt) bs (subst (λ z. IsSorted z) e w) in
    (
      ap (λ z. us ++ ((k, tt) ∷ z)) i
          ∙ sym (insert_right v (k, tt) bs tt us l t.below)
          ∙ ap (λ z. insert v tt z) (sym e),
      sym (find_right v (k, tt) bs us l t.below) ∙ ap (λ z. find v z) (sym e),
    )

-- A node with a split child: the children `y` and `z` with the slot `k` between them.
pair-Shape :
    (low h i k : ℕ) (slot : List ℕ) (links : List (BtNode h)) (y z : BtNode h)
    → Shape low (suc h) (slot, links)
    → length slot < max_node_slots
    → Shape 15 h y
    → Shape 15 h z
    → Shape low (suc h) (array_insert slot i k, pair_at links i y z)
pair-Shape low h i k slot links y z p room py pz =
    let ls = length-array_insert slot i k in
    let ll = length-array_insert (set links i y) (suc i) z in
    (
      omega (arith, ls, p.0),
      omega (arith, ls, room),
      omega (arith, ll, ls, length-set links i y, p.2),
      Every-array_insert (Shape 15 h) (set links i y) (suc i) z
          (Every-set (Shape 15 h) links i y p.3 py) pz,
    )

-- The insertion goes on, after a split, at the half on the key's side.
pub halves-Inserted :
    (low h v : ℕ) (slot : List ℕ) (links : List (BtNode h)) (child a b : BtNode h) (k sep : ℕ)
    → sep ≡ k
    → Shape low (suc h) (slot, links)
    → length slot < max_node_slots
    → IsSorted (items (suc h) (slot, links))
    → is_at slot (rank v slot) v ≡ false
    → set links (rank v slot) child ≡ links
    → Halved h child (a, k, b)
    → ((n : BtNode h)
        → Shape 15 h n
        → length (slot_of h n) < max_node_slots
        → IsSorted (items h n)
        → Inserted 15 h v (items h n) (insert_from h n v))
    → Inserted low (suc h) v (items (suc h) (slot, links)) (
        let slot' = array_insert slot (rank v slot) k in
        let links' = pair_at links (rank v slot) a b in
        elim (sep == v) [
          | true ↦ some (negsuc 0, (slot', links'))
          | false ↦
              let index' = if ltb sep v then suc (rank v slot) else rank v slot in
              elim (get_elem? links' index') [
                | none ↦ none
                | some child' ↦ relink h slot' links' index' (insert_from h child' v)
              ]
        ])
unfolding relink
halves-Inserted low h v slot links child a b k sep same p room w n e hv rec =
    elim (Bool-cases (sep == v)) [
      | inl q ↦ rw q (
        pair-Shape low h i k slot links a b p room hv.1 hv.2,
        items-pair h slot links p.2 i k a b le
            ∙ Spot-insert s (items h a ++ ((k, tt) ∷ items h b)) (
                sym (
                  insert_here v (k, tt) (items h b) tt (items h a) (ground (arith, q, same))
                    t.below)
                ∙ ap (λ z. insert v tt z) (sym (hv.0))),
        ap code (
            sym (
              Spot-find s
              ∙ ap (λ z. find v z) (hv.0)
              ∙ find_here v (k, tt) (items h b) (items h a) (ground (arith, q, same)) t.below)),
      )
      | inr q ↦ elim (Bool-cases (ltb sep v)) [
        | inl g ↦
            rw (q, g, get_elem-right links i a b in_range, g)
              (right (insert_from h b v) (ground (arith, g, same))
                (rec b (hv.2) (omega (arith, hv.4)) t.right))
        | inr g ↦
            rw (q, g, get_elem-left links i a b in_range, g)
              (left (insert_from h a v) (ground (arith, q, g, same))
                (rec a (hv.1) (omega (arith, hv.3)) t.left))
      ]
    ]
  where
    i : ℕ
    i = rank v slot

    le : i ≤ length slot
    le = rank-le-length v slot

    in_range : i < length links
    in_range = omega (arith, p.2, le)

    s :
        Spot v
          (items (suc h) (slot, links))
          (before i slot (map (items h) links))
          (items h child)
          (after i slot (map (items h) links))
    s = child-Spot h slot links p.2 v child w n le e

    t : Split (items h a) (k, tt) (items h b)
    t = split (items h a) (k, tt) (items h b) (subst (λ z. IsSorted z) (hv.0) (Spot-IsSorted s w))

    right :
        (out : Option (ℤ × BtNode h))
        → k < v
        → Inserted 15 h v (items h b) out
        → Inserted low
            (suc h)
            v
            (items (suc h) (slot, links))
            (relink h (array_insert slot i k) (pair_at links i a b) (suc i) out)
    right none l o = o
    right (some (r, m)) l o =
        let u =
          split_right v k (items h child) (items h a) (items h b) (items h m) (Spot-IsSorted s w)
            (hv.0) l (o.1) in
        (
          subst (λ z. Shape low (suc h) (array_insert slot i k, z))
              (sym (set-right links i a b m in_range))
              (pair-Shape low h i k slot links a m p room hv.1 (o.0)),
          ap (λ z. items (suc h) (array_insert slot i k, z)) (set-right links i a b m in_range)
              ∙ items-pair h slot links p.2 i k a m le
              ∙ Spot-insert s (items h a ++ ((k, tt) ∷ items h m)) (u.0),
          o.2 ∙ ap code (u.1 ∙ sym (Spot-find s)),
        )

    left :
        (out : Option (ℤ × BtNode h))
        → v < k
        → Inserted 15 h v (items h a) out
        → Inserted low
            (suc h)
            v
            (items (suc h) (slot, links))
            (relink h (array_insert slot i k) (pair_at links i a b) i out)
    left none l o = o
    left (some (r, m)) l o =
        let u =
          split_left v k (items h child) (items h a) (items h m) (items h b) (Spot-IsSorted s w)
            (hv.0) l (o.1) in
        (
          subst (λ z. Shape low (suc h) (array_insert slot i k, z))
              (sym (set-left links i a b m in_range))
              (pair-Shape low h i k slot links m b p room (o.0) (hv.2)),
          ap (λ z. items (suc h) (array_insert slot i k, z)) (set-left links i a b m in_range)
              ∙ items-pair h slot links p.2 i k m b le
              ∙ Spot-insert s (items h m ++ ((k, tt) ∷ items h b)) (u.0),
          o.2 ∙ ap code (u.1 ∙ sym (Spot-find s)),
        )
