-- ===== src/Tests/Bstree.antt =====
-- libtree/bstree/bstree.c on small trees.
use libalgo.Common.{ℕ, ◌≡◌, refl, some, arith, ◌∷◌, []}
use libalgo.Common.Int.{pos, negsuc}
use libalgo.Tree.{leaf, node}
use libalgo.Tree.Sorted.{IsSorted}
use libalgo.Bstree.{BstNode, bst_lookup, bst_insert, bst_remove, walk_tree}
use libalgo.Bstree.Lookup.{items, Answers, bst_lookup-Answers}
use libalgo.Bstree.Insert.{Inserted, bst_insert-Inserted}
use libalgo.Bstree.Remove.{Removed, bst_remove-Removed}

-- The keys 5, 2, 8, 6 and 9, inserted in this order.
abbrev sample : BstNode ℕ
sample = node (node leaf 2 20 leaf) 5 50 (node (node leaf 6 60 leaf) 8 80 (node leaf 9 90 leaf))

sample-IsSorted : IsSorted (items sample)
sample-IsSorted = omega arith

insert_five : bst_insert sample (some (7, 70)) ≡ (
  1,
  node
      (node leaf 2 20 leaf)
      5
      50
      (node (node leaf 6 60 (node leaf 7 70 leaf)) 8 80 (node leaf 9 90 leaf)),
)
unfolding bst_insert
insert_five = refl

-- The root has two children: its successor takes its place.
remove_root :
    bst_remove sample 5
    ≡ (pos 1, node (node leaf 2 20 leaf) 6 60 (node leaf 8 80 (node leaf 9 90 leaf)))
unfolding bst_remove
remove_root = refl

-- The successor is the right child of the root, and has no child.
remove_pair :
    bst_remove {A = ℕ} (node (node leaf 2 20 leaf) 5 50 (node leaf 8 80 leaf)) 5
    ≡ (pos 1, node (node leaf 2 20 leaf) 8 80 leaf)
unfolding bst_remove
remove_pair = refl

remove_missing : bst_remove sample 7 ≡ (negsuc 0, sample)
unfolding bst_remove
remove_missing = refl

walk : walk_tree sample ≡ 2 ∷ 5 ∷ 6 ∷ 8 ∷ 9 ∷ []
unfolding walk_tree
walk = refl

bst_lookup-Answers_example : Answers 6 sample (bst_lookup sample 6)
bst_lookup-Answers_example = bst_lookup-Answers sample 6 sample-IsSorted

bst_insert-Inserted_example : Inserted 7 70 sample (bst_insert sample (some (7, 70)))
bst_insert-Inserted_example = bst_insert-Inserted sample 7 70 sample-IsSorted

bst_remove-Removed_example : Removed 5 sample (bst_remove sample 5)
bst_remove-Removed_example = bst_remove-Removed sample 5 sample-IsSorted
