-- ===== src/Btree/Remove/Loop.antt =====
-- The loops of bt_remove, from a node that can lose a slot.
use libalgo.Common.{
  ℕ, zero, suc, ◌<◌, ◌≡◌, refl, sym, ap, ◌∙◌, List, ◌∷◌, ◌++◌, map, some, Option, true, Bool-cases,
  inl, inr, length, get_or, take, drop, subst, arith,
}
use libalgo.Common.Int.{ℤ, pos}
use libalgo.Tree.Sorted.{IsSorted, find, erase, split, find_here, erase_here}
use libalgo.Tree.Spec.{erase_absent}
use libalgo.Btree.{BtNode, slot_of, is_at, array_remove, bt_search_node_index}
use libalgo.Btree.Index.{rank, bt_search_node_index-rank}
use libalgo.Btree.Arrays.{length-map, get_elem-Every}
use libalgo.Btree.Weave.{tag}
use libalgo.Btree.Gap.{weave-IsRising}
use libalgo.Btree.Items.{items, Shape, tag-cut, tag-IsRising, tag-absent}
use libalgo.Btree.Remove.{
  Target, to_value, to_slot, bt_node_delete_key, remove_slot, remove_from, min_node_slots,
}
use libalgo.Btree.Remove.Cut.{tag-append}
use libalgo.Btree.Remove.Removed.{answer, Removed, Spare, length-array_remove}
use libalgo.Btree.Remove.Turn.{remove_below-Removed}
use libalgo.Btree.Remove.Slot.{Aims, slot-Removed}

at-Aims :
    (slot : List ℕ) (i v : ℕ) → is_at slot i v ≡ true → (i < length slot) × (get_or slot i 0 ≡ v)
unfolding is_at
at-Aims slot i v e = (ground (arith, e), ground (arith, e))

leaf-Removed :
    (low i v : ℕ) (slot : List ℕ)
    → Shape low 0 slot
    → Spare low 0 slot
    → IsSorted (tag slot)
    → i < length slot
    → get_or slot i 0 ≡ v
    → Removed low 0 v (tag slot) (some (pos 0, bt_node_delete_key slot i))
unfolding bt_node_delete_key array_remove
leaf-Removed low i v slot p spare w l e =
    let shorter = length-array_remove slot i l in
    let cut : tag slot ≡ tag (take i slot) ++ ((v, tt) ∷ tag (drop (suc i) slot)) =
      tag-cut i slot l ∙ ap (λ z. tag (take i slot) ++ ((z, tt) ∷ tag (drop (suc i) slot))) e in
    let t =
      split (tag (take i slot)) (v, tt) (tag (drop (suc i) slot)) (subst (λ z. IsSorted z) cut w) in
    (
      (omega (arith, shorter, spare), omega (arith, shorter, p.1)),
      tag-append (take i slot) (drop (suc i) slot)
          ∙ sym (erase_here v (v, tt) (tag (drop (suc i) slot)) (tag (take i slot)) refl t.below)
          ∙ ap (λ z. erase v z) (sym cut),
      sym (
          ap answer (
            ap (λ z. find v z) cut
            ∙ find_here v (v, tt) (tag (drop (suc i) slot)) (tag (take i slot)) refl t.below)),
    )

long-Spare :
    (h : ℕ) (n : BtNode h) → min_node_slots < length (slot_of h n) → Spare min_node_slots h n
unfolding slot_of
long-Spare zero n l = omega (arith, l)
long-Spare (suc h) n l = l

inner-Removed :
    (h low i v : ℕ) (slot : List ℕ) (links : List (BtNode h))
    (go : Target → BtNode h → Option (ℤ × BtNode h))
    → Shape low (suc h) (slot, links)
    → low < length slot
    → IsSorted (items (suc h) (slot, links))
    → i < length slot
    → get_or slot i 0 ≡ v
    → ((t : Target) (c : BtNode h) (x : ℕ)
        → Shape min_node_slots h c
        → min_node_slots < length (slot_of h c)
        → IsSorted (items h c)
        → Aims h t c x
        → Removed min_node_slots h x (items h c) (go t c))
    → Removed low (suc h) v (items (suc h) (slot, links)) (remove_slot h slot links i go)
inner-Removed h low i v slot links go p spare w l e ih =
    let (x, gx, px, own_x) =
      get_elem-Every (Shape min_node_slots h) links i (omega (arith, p.2, l)) p.3 in
    let (y, gy, py, own_y) =
      get_elem-Every (Shape min_node_slots h) links (suc i) (omega (arith, p.2, l)) p.3 in
    subst (λ z. Removed low (suc h) z (items (suc h) (slot, links)) (remove_slot h slot links i go))
      e (slot-Removed low h i slot links x y p w spare l gx gy px py go ih)

pub remove_from-Removed :
    (h low : ℕ) (t : Target) (v : ℕ) (n : BtNode h)
    → Shape low h n
    → Spare low h n
    → IsSorted (items h n)
    → Aims h t n v
    → Removed low h v (items h n) (remove_from h t n)
unfolding remove_from slot_of
remove_from-Removed zero low (to_slot i) v slot p spare w aim =
    leaf-Removed low i v slot p spare w (aim.0) (aim.1)
remove_from-Removed zero low (to_value x) v slot p spare w aim =
    subst (λ z. Removed low 0 z (tag slot) (remove_from 0 (to_value x) slot)) aim
      (elim (Bool-cases (is_at slot (rank x slot) x)) [
        | inl e ↦
            let (l, g) = at-Aims slot (rank x slot) x e in
            rw (index, e) (leaf-Removed low (rank x slot) x slot p spare w l g)
        | inr e ↦
            let missing = (tag-absent x slot e w).1 in
            rw (index, e) (p, sym (erase_absent x (tag slot) missing), sym (ap answer missing))
      ])
  where
    index : bt_search_node_index slot x ≡ rank x slot
    index = bt_search_node_index-rank slot x (tag-IsRising slot w)
remove_from-Removed (suc h) low (to_slot i) v (slot, links) p spare w aim =
    inner-Removed h low i v slot links (λ t n. remove_from h t n) p spare w (aim.0) (aim.1)
      (λ t c x q l s a. remove_from-Removed h min_node_slots t x c q (long-Spare h c l) s a)
remove_from-Removed (suc h) low (to_value x) v (slot, links) p spare w aim =
    subst
      (λ z.
        Removed low (suc h) z (items (suc h) (slot, links))
          (remove_from (suc h) (to_value x) (slot, links)))
      aim
      (elim (Bool-cases (is_at slot (rank x slot) x)) [
        | inl e ↦
            let (l, g) = at-Aims slot (rank x slot) x e in
            rw (remove_from, index, e, index)
              (inner-Removed h low (rank x slot) x slot links (λ t n. remove_from h t n) p spare w l
                g
                (λ t c y q l s a.
                  remove_from-Removed h min_node_slots t y c q (long-Spare h c l) s a))
        | inr e ↦
            rw (remove_from, index, e, index)
              (remove_below-Removed low h x slot links (λ n. remove_from h (to_value x) n) p w spare
                e
                (λ c q l s.
                  remove_from-Removed h min_node_slots (to_value x) x c q (long-Spare h c l) s
                    refl))
      ])
  where
    index : bt_search_node_index slot x ≡ rank x slot
    index =
        bt_search_node_index-rank slot x
          (weave-IsRising slot (map (items h) links) (length-map (items h) links ∙ p.2) w)
