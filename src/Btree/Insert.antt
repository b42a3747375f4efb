-- ===== src/Btree/Insert.antt =====
-- Insertion into a B-tree against the sorted list of its items.
use libalgo.Common.{
  ℕ, zero, suc, ◌<◌, ◌≤◌, ◌≡◌, refl, sym, ap, ◌∙◌, List, map, Option, none, some, true, false, ltb,
  ◌==◌, if◌then◌else◌, Bool-cases, lt→ltb, inl, inr, length, get_or, get_elem?, set, length-set,
  subst, arith,
}
use libalgo.Common.Int.{ℤ, negsuc}
use libalgo.Tree.Sorted.{IsSorted}
use libalgo.Btree.{
  BtNode, slot_of, array_insert, is_at, is_bt_node_full, bt_split_child_node, halves, relink,
  insert_from, insert_round, bt_insert_to_node, max_node_slots,
}
use libalgo.Btree.Index.{rank, rank-le-length, bt_search_node_index-rank}
use libalgo.Btree.Arrays.{
  pair_at, length-map, length-array_insert, Every-set, get_elem-Every, get_or-array_insert,
}
use libalgo.Btree.Weave.{Items, tag}
use libalgo.Btree.Gap.{weave-IsRising, weave-present}
use libalgo.Btree.Items.{items, Shape, tag-IsRising, tag-present, tag-absent, halves-Halved}
use libalgo.Btree.Split.{code, Inserted, halves-Inserted}
use libalgo.Btree.Spot.{Spot-IsSorted, Spot-insert, Spot-find, items-set, child-Spot}

leaf-Inserted :
    (low v : ℕ) (slot : List ℕ)
    → Shape low 0 slot
    → length slot < max_node_slots
    → IsSorted (tag slot)
    → Inserted low 0 v (tag slot) (insert_from 0 slot v)
unfolding insert_from bt_insert_to_node
leaf-Inserted low v slot p room w =
    rw (bt_search_node_index-rank slot v (tag-IsRising slot w))
      (elim (Bool-cases (is_at slot (rank v slot) v)) [
        | inl e ↦ let q = tag-present v slot e w in rw e (p, sym (q.0), ap code (sym (q.1)))
        | inr e ↦
            let q = tag-absent v slot e w in
            let l = length-array_insert slot (rank v slot) v in
            rw (e, inserts)
              ((omega (arith, l, p.0), omega (arith, l, room)), q.0, ap code (sym (q.1)))
      ])
  where
    inserts : bt_insert_to_node slot (rank v slot) v ≡ some (array_insert slot (rank v slot) v)
    inserts = rw (lt→ltb (rank v slot) 31 (omega (arith, room, rank-le-length v slot))) refl

-- The result below a link is put back.
relink-Inserted :
    (low h v : ℕ) (slot : List ℕ) (links : List (BtNode h)) (child : BtNode h)
    (out : Option (ℤ × BtNode h))
    → Shape low (suc h) (slot, links)
    → IsSorted (items (suc h) (slot, links))
    → is_at slot (rank v slot) v ≡ false
    → set links (rank v slot) child ≡ links
    → Inserted 15 h v (items h child) out
    → Inserted low (suc h) v (items (suc h) (slot, links)) (relink h slot links (rank v slot) out)
unfolding relink
relink-Inserted low h v slot links child none p w n e o = o
relink-Inserted low h v slot links child (some (r, m)) p w n e o =
    let s = child-Spot h slot links p.2 v child w n (rank-le-length v slot) e in
    (
      (
        p.0,
        p.1,
        length-set links (rank v slot) m ∙ p.2,
        Every-set (Shape 15 h) links (rank v slot) m p.3 (o.0),
      ),
      items-set h slot links p.2 (rank v slot) m (rank-le-length v slot)
          ∙ Spot-insert s (items h m) (o.1),
      o.2 ∙ ap code (sym (Spot-find s)),
    )

pub full_length : (slot : List ℕ) → is_bt_node_full slot ≡ true → length slot ≡ max_node_slots
unfolding is_bt_node_full
full_length slot e = ground (arith, e)

pub room_length :
    (slot : List ℕ)
    → is_bt_node_full slot ≡ false
    → length slot ≤ max_node_slots
    → length slot < max_node_slots
unfolding is_bt_node_full
room_length slot e l = ground (arith, e, l)

pub slot-most : (low h : ℕ) (n : BtNode h) → Shape low h n → length (slot_of h n) ≤ max_node_slots
unfolding slot_of
slot-most low zero n p = p.1
slot-most low (suc h) n p = p.1

-- The three ways of a round.
module _ (h : ℕ) (slot : List ℕ) (links : List (BtNode h)) (i v : ℕ)
    (go : BtNode h → Option (ℤ × BtNode h)) where
  round_found :
      is_at slot i v ≡ true → insert_round h slot links i v go ≡ some (negsuc 0, (slot, links))
  unfolding insert_round
  round_found e = rw (insert_round, e) refl

  round_below :
      (child : BtNode h)
      → is_at slot i v ≡ false
      → get_elem? links i ≡ some child
      → is_bt_node_full (slot_of h child) ≡ false
      → insert_round h slot links i v go ≡ relink h slot links i (go child)
  unfolding insert_round
  round_below child e g f = rw (insert_round, e, g, f) refl

  round_split :
      (child : BtNode h)
      → is_at slot i v ≡ false
      → get_elem? links i ≡ some child
      → is_bt_node_full (slot_of h child) ≡ true
      → insert_round h slot links i v go ≡ (
          let (a, k, b) = halves h child in
          let slot' = array_insert slot i k in
          let links' = pair_at links i a b in
          elim (get_or slot' i 0 == v) [
            | true ↦ some (negsuc 0, (slot', links'))
            | false ↦
                let index' = if ltb (get_or slot' i 0) v then suc i else i in
                elim (get_elem? links' index') [
                  | none ↦ none
                  | some child' ↦ relink h slot' links' index' (go child')
                ]
          ])
  unfolding insert_round bt_split_child_node
  round_split child e g f = rw (insert_round, e, g, f) refl

-- The loop of bt_insert, from a node that is not full.
pub insert_from-Inserted :
    (h low v : ℕ) (n : BtNode h)
    → Shape low h n
    → length (slot_of h n) < max_node_slots
    → IsSorted (items h n)
    → Inserted low h v (items h n) (insert_from h n v)
unfolding insert_from slot_of
insert_from-Inserted zero low v slot p room w = leaf-Inserted low v slot p room w
insert_from-Inserted (suc h) low v (slot, links) p room w =
    subst (λ j. Inserted low (suc h) v all (insert_round h slot links j v go))
      (sym (bt_search_node_index-rank slot v (weave-IsRising slot (map (items h) links) len w)))
      (elim (Bool-cases (is_at slot i v)) [
        | inl e ↦
            let q = weave-present v slot (map (items h) links) len w e in
            subst (λ o. Inserted low (suc h) v all o) (sym (round_found h slot links i v go e))
              (p, sym (q.0), ap code (sym (q.1)))
        | inr e ↦
            let (child, g, pc, same) =
              get_elem-Every (Shape 15 h) links i (omega (arith, p.2, rank-le-length v slot)) p.3 in
            elim (Bool-cases (is_bt_node_full (slot_of h child))) [
              | inl f ↦
                  subst (λ o. Inserted low (suc h) v all o)
                    (sym (round_split h slot links i v go child e g f))
                    (halves-Inserted low h v slot links child ((halves h child).0)
                      ((halves h child).2) ((halves h child).1)
                      (get_or (array_insert slot i ((halves h child).1)) i 0)
                      (get_or-array_insert slot i ((halves h child).1) 0 (rank-le-length v slot)) p
                      room w e same (halves-Halved 15 h child pc (full_length (slot_of h child) f))
                      (λ n. insert_from-Inserted h 15 v n))
              | inr f ↦
                  subst (λ o. Inserted low (suc h) v all o)
                    (sym (round_below h slot links i v go child e g f))
                    (relink-Inserted low h v slot links child (insert_from h child v) p w e same (
                      insert_from-Inserted h 15 v child pc
                        (room_length (slot_of h child) f (slot-most 15 h child pc))
                        (Spot-IsSorted
                          (child-Spot h slot links p.2 v child w e (rank-le-length v slot) same)
                          w)))
            ]
      ])
  where
    i : ℕ
    i = rank v slot

    all : Items
    all = items (suc h) (slot, links)

    go : BtNode h → Option (ℤ × BtNode h)
    go n = insert_from h n v

    len : length (map (items h) links) ≡ suc (length slot)
    len = length-map (items h) links ∙ p.2
