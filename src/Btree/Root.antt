-- ===== src/Btree/Root.antt =====
-- The whole of bt_insert: the split of a full root, and the loop from the root.
use libalgo.Common.{
  ℕ, zero, suc, ◌<◌, ◌≡◌, refl, sym, Option, none, some, Bool-cases, inl, inr, length, subst, arith,
}
use libalgo.Common.Int.{ℤ}
use libalgo.Tree.Sorted.{IsSorted, find, insert}
use libalgo.Tree.Spec.{insert-IsSorted}
use libalgo.Btree.{
  BtNode, Bt, slot_of, is_bt_node_full, bt_split_child_node, array_insert, insert_from, grown,
  bt_insert, max_node_slots,
}
use libalgo.Btree.Weave.{Items}
use libalgo.Btree.Items.{items, Shape, halves-Halved}
use libalgo.Btree.Split.{code, Inserted}
use libalgo.Btree.Insert.{insert_from-Inserted, full_length, room_length, slot-most}

-- A root has a slot, unless it is a leaf.
abbrev pub least : ℕ → ℕ
least zero = 0
least (suc h) = 1

abbrev pub bt_items : Bt → Items
bt_items t = items t.height t.root

abbrev pub IsValid : Bt → Type 0
IsValid t = Shape (least t.height) t.height t.root × IsSorted (bt_items t)

-- A valid tree with the given items and room in the root.
abbrev Ready : Bt → Items → Type 0
Ready u xs =
    Shape (least u.height) u.height u.root
    × (length (slot_of u.height u.root) < max_node_slots)
    × (bt_items u ≡ xs)

grown-Ready : (t : Bt) → IsValid t → Ready (grown t) (bt_items t)
unfolding grown bt_split_child_node array_insert slot_of
grown-Ready t (p, w) = elim (Bool-cases (is_bt_node_full (slot_of t.height t.root))) [
  | inr f ↦
      rw (grown, f)
        (
          p,
          room_length (slot_of t.height t.root) f (slot-most (least t.height) t.height t.root p),
          refl,
        )
  | inl f ↦
      let hv =
        halves-Halved (least t.height) t.height t.root p
          (full_length (slot_of t.height t.root) f) in
      rw (grown, f) ((omega arith, omega arith, refl, (hv.1, (hv.2, tt))), omega arith, sym (hv.0))
]

-- What the call returns, after what the key led to.
abbrev pub BtInserted : ℕ → Items → Option (ℤ × Bt) → Type 0
BtInserted v xs none = ⊥
BtInserted v xs (some (r, t)) = IsValid t × (bt_items t ≡ insert v tt xs) × (r ≡ code (find v xs))

-- On a valid B-tree bt_insert does not crash and leaves a valid B-tree: it refuses a present key
-- with -1 and keeps the keys, else it returns 0 and adds the key in its place.
pub bt_insert-Inserted : (t : Bt) (v : ℕ) → IsValid t → BtInserted v (bt_items t) (bt_insert t v)
unfolding bt_insert
bt_insert-Inserted t v valid =
    let (p, room, e) = grown-Ready t valid in
    done (insert_from u.height u.root v) (
      subst (λ xs. Inserted (least u.height) u.height v xs (insert_from u.height u.root v)) e
        (insert_from-Inserted u.height (least u.height) v u.root p room
          (subst (λ xs. IsSorted xs) (sym e) valid.1)))
  where
    u : Bt
    u = grown t

    done :
        (out : Option (ℤ × BtNode u.height))
        → Inserted (least u.height) u.height v (bt_items t) out
        → BtInserted v (bt_items t) (elim out [
          | none ↦ none
          | some (r, n) ↦ some (r, record { height = u.height; root = n })
        ])
    done none o = o
    done (some (r, n)) o = (
      (o.0, subst (λ xs. IsSorted xs) (sym (o.1)) (insert-IsSorted v tt (bt_items t) valid.1)),
      o.1,
      o.2,
    )
