-- ===== src/Tests/Avl.antt =====
-- libtree/avltree/avl.c on small trees.
use libalgo.Common.{◌≡◌, refl, some, arith}
use libalgo.Common.Int.{pos, negsuc, ◌+ℤ◌, ◌-ℤ◌}
use libalgo.Tree.{leaf, node}
use libalgo.Tree.Sorted.{IsSorted}
use libalgo.Avl.{AvlNode, avl_insert, avl_lookup}
use libalgo.Avl.Balance.{IsAvl}
use libalgo.Avl.Pivot.{keys, Rebalances, right_heavy, rotate-Rebalances}
use libalgo.Avl.Insert.{Inserted, avl_insert-Inserted}
use libalgo.Avl.Lookup.{Answers, avl_lookup-Answers}

abbrev sample : AvlNode
sample =
    node (node leaf 2 (pos 0) leaf) 5 (pos 1)
      (node (node leaf 6 (pos 0) leaf) 8 (pos 0) (node leaf 9 (pos 0) leaf))

sample-IsAvl : IsAvl sample
sample-IsAvl = omega arith

sample-IsSorted : IsSorted (keys sample)
sample-IsSorted = omega arith

-- A right-left rotation at the root.
insert_seven :
    avl_insert sample 7
    ≡ some (
      1,
      node
          (node (node leaf 2 (pos 0) leaf) 5 (negsuc 0) leaf)
          6
          (pos 0)
          (node (node leaf 7 (pos 0) leaf) 8 (pos 0) (node leaf 9 (pos 0) leaf)),
    )
unfolding avl_insert ◌+ℤ◌ ◌-ℤ◌
insert_seven = refl

insert_present : avl_insert sample 6 ≡ some (0, sample)
unfolding avl_insert
insert_present = refl

avl_insert-Inserted_example : Inserted 7 sample (avl_insert sample 7)
avl_insert-Inserted_example = avl_insert-Inserted sample 7 sample-IsAvl sample-IsSorted

avl_lookup-Answers_example : Answers 8 sample (avl_lookup sample 8)
avl_lookup-Answers_example = avl_lookup-Answers sample 8 sample-IsSorted

abbrev chain : AvlNode
chain = node leaf 3 (pos 1) (node leaf 4 (pos 0) leaf)

rotate-Rebalances_example : Rebalances (node leaf 2 (pos 2) chain) 2
rotate-Rebalances_example =
    rotate-Rebalances (right_heavy leaf 2 chain tt (omega arith) (omega arith) (omega arith))
