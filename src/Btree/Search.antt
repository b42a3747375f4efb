-- ===== src/Btree/Search.antt =====
-- Lookup in a B-tree against the sorted list of its items.
use libalgo.Common.{
  ℕ, zero, suc, ◌≡◌, refl, sym, ◌∙◌, map, Option, none, some, true, Bool-cases, inl, inr, length,
  subst, arith,
}
use libalgo.Tree.Sorted.{IsSorted, find}
use libalgo.Btree.{BtNode, Found, slot_of, is_at, bt_search_node_index, bt_search}
use libalgo.Btree.Index.{rank, rank-le-length, bt_search_node_index-rank}
use libalgo.Btree.Arrays.{length-map, get_elem-Every}
use libalgo.Btree.Gap.{weave-IsRising, weave-present}
use libalgo.Btree.Items.{items, Shape, tag-IsRising, tag-present, tag-absent}
use libalgo.Btree.Spot.{Spot-IsSorted, Spot-find, child-Spot}

-- What bt_search answers, after what the key leads to.
abbrev pub Answers : ℕ → Option {0} Unit → Option Found → Type 0
Answers v none out = out ≡ none
Answers v (some u) out =
    (c : Found) × (out ≡ some c) × (is_at (slot_of c.height c.node) c.position v ≡ true)

-- On a well-shaped B-tree with sorted items bt_search returns NULL for a key that is not there, and
-- else a node with a position at which the node has the key.
pub bt_search-Answers :
    (h low v : ℕ) (n : BtNode h)
    → Shape low h n
    → IsSorted (items h n)
    → Answers v (find v (items h n)) (bt_search h n v)
unfolding bt_search slot_of
bt_search-Answers zero low v slot p w =
    rw (bt_search_node_index-rank slot v (tag-IsRising slot w))
      (elim (Bool-cases (is_at slot (rank v slot) v)) [
        | inl e ↦
            rw (e, (tag-present v slot e w).1)
              (record { height = 0; node = slot; position = rank v slot }, refl, e)
        | inr e ↦ rw (e, (tag-absent v slot e w).1) refl
      ])
bt_search-Answers (suc h) low v (slot, links) p w = elim (Bool-cases (is_at slot (rank v slot) v)) [
  | inl e ↦ rw ((weave-present v slot (map (items h) links) len w e).1) (
    record { height = suc h; node = (slot, links); position = rank v slot },
    rw (bt_search, index, e, index) refl,
    e,
  )
  | inr e ↦
      let (child, g, pc, same) =
        get_elem-Every (Shape 15 h) links (rank v slot) (omega (arith, p.2, rank-le-length v slot))
          p.3 in
      let s = child-Spot h slot links p.2 v child w e (rank-le-length v slot) same in
      let step : bt_search (suc h) (slot, links) v ≡ bt_search h child v =
        rw (bt_search, index, e, index, g) refl in
      subst (λ o. Answers v o (bt_search (suc h) (slot, links) v)) (sym (Spot-find s))
        (subst (λ o. Answers v (find v (items h child)) o) (sym step)
          (bt_search-Answers h 15 v child pc (Spot-IsSorted s w)))
]
  where
    len : length (map (items h) links) ≡ suc (length slot)
    len = length-map (items h) links ∙ p.2

    index : bt_search_node_index slot v ≡ rank v slot
    index = bt_search_node_index-rank slot v (weave-IsRising slot (map (items h) links) len w)
