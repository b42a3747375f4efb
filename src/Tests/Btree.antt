-- ===== src/Tests/Btree.antt =====
-- libtree/btree/btree.c on small trees.
use libalgo.Common.{ℕ, zero, suc, ◌≡◌, refl, List, [], ◌∷◌, some, arith}
use libalgo.Common.Int.{pos, negsuc}
use libalgo.Btree.{
  BtNode, Bt, bt_insert, bt_search_node_index, array_insert, bt_insert_to_node, is_at,
  is_bt_node_full, slot_of, bt_split_child_node,
}
use libalgo.Btree.Index.{rank, bt_search_node_index-rank}
use libalgo.Tree.Sorted.{IsSorted, find}
use libalgo.Btree.{bt_search}
use libalgo.Btree.Items.{items}
use libalgo.Btree.Search.{Answers, bt_search-Answers}
use libalgo.Btree.Root.{IsValid, bt_items, BtInserted, bt_insert-Inserted}

-- The even numbers from 2 * i on, `n` of them.
abbrev evens : ℕ → ℕ → List ℕ
evens i zero = []
evens i (suc n) = i ∷ evens (suc (suc i)) n

abbrev full : Bt
full = record { height = 0; root = evens 0 31 }

-- The root is split before the insertion, and the key goes into its right half.
split_root :
    bt_insert full 33
    ≡ some
        (pos 0, record { height = 1; root = (30 ∷ [], evens 0 15 ∷ (32 ∷ 33 ∷ evens 34 14) ∷ []) })
unfolding bt_insert bt_search_node_index is_at is_bt_node_full slot_of array_insert
    bt_insert_to_node bt_split_child_node
split_root = refl

-- A key that is there: the root is split all the same.
split_refused :
    bt_insert full 30
    ≡ some (negsuc 0, record { height = 1; root = (30 ∷ [], evens 0 15 ∷ evens 32 15 ∷ []) })
unfolding bt_insert bt_search_node_index is_at is_bt_node_full slot_of array_insert
    bt_insert_to_node bt_split_child_node
split_refused = refl

full-IsValid : IsValid full
full-IsValid = ((omega arith, omega arith), omega arith)

bt_insert-Inserted_example : BtInserted 33 (bt_items full) (bt_insert full 33)
bt_insert-Inserted_example = bt_insert-Inserted full 33 full-IsValid

bt_search_node_index-rank_example :
    bt_search_node_index (2 ∷ 4 ∷ 6 ∷ 8 ∷ []) 5 ≡ rank 5 (2 ∷ 4 ∷ 6 ∷ 8 ∷ [])
bt_search_node_index-rank_example = bt_search_node_index-rank (2 ∷ 4 ∷ 6 ∷ 8 ∷ []) 5 (omega arith)

abbrev branch : BtNode 1
branch = (30 ∷ [], evens 0 15 ∷ evens 32 15 ∷ [])

branch-IsSorted : IsSorted (items 1 branch)
branch-IsSorted = omega arith

bt_search-Answers_example : Answers 34 (find 34 (items 1 branch)) (bt_search 1 branch 34)
bt_search-Answers_example =
    bt_search-Answers 1 1 34 branch
      (
        omega arith,
        omega arith,
        refl,
        ((omega arith, omega arith), ((omega arith, omega arith), tt)),
      )
      branch-IsSorted

-- The key is the second slot of the right leaf.
search_branch :
    bt_search 1 branch 34 ≡ some (record { height = 0; node = evens 32 15; position = 1 })
unfolding bt_search bt_search_node_index is_at
search_branch = refl
