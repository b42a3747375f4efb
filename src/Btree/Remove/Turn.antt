-- ===== src/Btree/Remove/Turn.antt =====
-- A round of the first loop of bt_remove, at a node that does not have the value.
use libalgo.Common.{
  ℕ, suc, ◌<◌, ◌≤◌, ◌≡◌, ◌∙◌, List, map, Option, false, ltb, Bool-cases, inl, inr, length,
  length-set, arith,
}
use libalgo.Common.Int.{ℤ}
use libalgo.Tree.Sorted.{IsSorted}
use libalgo.Btree.{BtNode, slot_of, is_at}
use libalgo.Btree.Index.{rank, rank-le-length}
use libalgo.Btree.Arrays.{Every-set, get_elem-Every}
use libalgo.Btree.Weave.{before, after}
use libalgo.Btree.Items.{items, Shape}
use libalgo.Btree.Spot.{Spot-IsSorted, items-set, child-Spot}
use libalgo.Btree.Remove.{can_lend, remove_below, min_node_slots}
use libalgo.Btree.Remove.Removed.{Removed, relink-Removed}
use libalgo.Btree.Remove.Below.{can_lend-lt, can_lend-le, from_right, from_left-Removed}

pub remove_below-Removed :
    (low h v : ℕ) (slot : List ℕ) (links : List (BtNode h)) (go : BtNode h → Option (ℤ × BtNode h))
    → Shape low (suc h) (slot, links)
    → IsSorted (items (suc h) (slot, links))
    → low < length slot
    → is_at slot (rank v slot) v ≡ false
    → ((c : BtNode h)
        → Shape min_node_slots h c
        → min_node_slots < length (slot_of h c)
        → IsSorted (items h c)
        → Removed min_node_slots h v (items h c) (go c))
    → Removed low
        (suc h)
        v
        (items (suc h) (slot, links))
        (remove_below h slot links (rank v slot) go)
unfolding remove_below
remove_below-Removed low h v slot links go p w spare n ih =
    let (sub, g, q, own) =
      get_elem-Every (Shape min_node_slots h) links i (omega (arith, p.2, le)) p.3 in
    let s = child-Spot h slot links p.2 v sub w n le own in
    elim (Bool-cases (can_lend h sub)) [
      | inl f ↦
          rw (remove_below, g, f)
            (relink-Removed low h v (items (suc h) (slot, links)) slot links i sub
              (before i slot (map (items h) links)) (after i slot (map (items h) links)) (go sub) s
              (λ m. items-set h slot links p.2 i m le)
              (λ m pm. (
                p.0,
                p.1,
                length-set links i m ∙ p.2,
                Every-set (Shape min_node_slots h) links i m p.3 pm,
              ))
              (ih sub q (can_lend-lt h sub f) (Spot-IsSorted s w)))
      | inr f ↦
          let few = can_lend-le h sub f in
          let left =
            from_left-Removed low h v i slot links sub p w spare le g q few s.front_Below
              s.back_Above go ih in
          elim (Bool-cases (ltb i (length slot))) [
            | inr o ↦ rw (remove_below, g, f, o) (left (λ lt. absurd (ground (arith, o, lt))))
            | inl o ↦
                let (r, gr, qr, own_r) =
                  get_elem-Every (Shape min_node_slots h) links (suc i) (ground (arith, o, p.2))
                    p.3 in
                elim (Bool-cases (can_lend h r)) [
                  | inl e ↦
                      rw (remove_below, g, f, o, gr, e)
                        (from_right low h v i slot links sub p w spare le g q few s.front_Below
                          s.back_Above go ih r (ground (arith, o)) gr qr (can_lend-lt h r e))
                  | inr e ↦
                      rw (remove_below, g, f, o, gr, e)
                        (left (λ lt. (r, gr, qr, can_lend-le h r e)))
                ]
          ]
    ]
  where
    i : ℕ
    i = rank v slot

    le : i ≤ length slot
    le = rank-le-length v slot
