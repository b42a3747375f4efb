-- ===== src/Tests/BtreeRemove.antt =====
-- bt_remove of libtree/btree/btree.c on small trees.
use libalgo.Common.{ℕ, zero, suc, ◌≡◌, refl, List, [], ◌∷◌, ◌++◌, some, none, arith}
use libalgo.Common.Int.{pos}
use libalgo.Tree.Sorted.{find}
use libalgo.Btree.{Bt, bt_insert, bt_search_node_index, is_at, slot_of, array_remove, relink}
use libalgo.Btree.Root.{IsValid, bt_items}
use libalgo.Btree.Remove.{
  can_lend, move_left, joined, moved, merge_siblings, remove_below, first_slot, replaced,
  remove_slot, bt_node_delete_key, remove_from, lowered, bt_remove,
}
use libalgo.Btree.Remove.Root.{BtRemoved, bt_remove-BtRemoved}
use libalgo.Btree.Remove.Roundtrip.{InsertThenRemove, bt_remove-bt_insert}

-- The even numbers from `i` on, `n` of them.
abbrev evens : ℕ → ℕ → List ℕ
evens i zero = []
evens i (suc n) = i ∷ evens (suc (suc i)) n

abbrev small : Bt
small = record { height = 1; root = (30 ∷ [], evens 0 15 ∷ evens 32 15 ∷ []) }

abbrev lender : Bt
lender = record { height = 1; root = (30 ∷ [], evens 0 15 ∷ evens 32 16 ∷ []) }

-- The left leaf gets the slot of the root, and the root the first slot of the right leaf.
remove_moves :
    bt_remove lender 0
    ≡ some (pos 0, record { height = 1; root = (32 ∷ [], evens 2 15 ∷ evens 34 15 ∷ []) })
unfolding bt_remove remove_from bt_search_node_index is_at remove_below can_lend slot_of moved
    move_left relink bt_node_delete_key array_remove lowered
remove_moves = refl

-- The two leaves are merged, and the tree loses a level.
remove_merges :
    bt_remove small 30 ≡ some (pos 0, record { height = 0; root = evens 0 15 ++ evens 32 15 })
unfolding bt_remove remove_from bt_search_node_index is_at remove_slot can_lend slot_of
    merge_siblings joined relink bt_node_delete_key array_remove lowered
remove_merges = refl

-- The first slot of the right leaf replaces the slot of the root.
remove_replaces :
    bt_remove lender 30
    ≡ some (pos 0, record { height = 1; root = (32 ∷ [], evens 0 15 ∷ evens 34 15 ∷ []) })
unfolding bt_remove remove_from bt_search_node_index is_at remove_slot can_lend slot_of first_slot
    replaced bt_node_delete_key array_remove lowered
remove_replaces = refl

lender-IsValid : IsValid lender
lender-IsValid = (
  (omega arith, omega arith, refl, ((omega arith, omega arith), ((omega arith, omega arith), tt))),
  omega arith,
)

bt_remove-BtRemoved_example : BtRemoved 30 (bt_items lender) (bt_remove lender 30)
bt_remove-BtRemoved_example = bt_remove-BtRemoved lender 30 lender-IsValid

odd_missing : find 31 (bt_items lender) ≡ none
unfolding find
odd_missing = refl

bt_remove-bt_insert_example : InsertThenRemove 31 (bt_items lender) (bt_insert lender 31)
bt_remove-bt_insert_example = bt_remove-bt_insert lender 31 lender-IsValid odd_missing
