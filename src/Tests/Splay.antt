-- ===== src/Tests/Splay.antt =====
-- libtree/splaytree/splay.c on small trees.
use libalgo.Common.{ℕ, ◌≡◌, refl, some, arith}
use libalgo.Tree.{leaf, node}
use libalgo.Tree.Sorted.{IsSorted, erase}
use libalgo.Splay.{Sizes, SplayNode, top_down_splay, splay_insert, splay_remove_init}
use libalgo.Splay.Loop.{items}
use libalgo.Splay.Keys.{Parts, top_down_splay-Parts}
use libalgo.Splay.Insert.{Inserted, splay_insert-Inserted}
use libalgo.Splay.Remove.{Holds, splay_remove_init-Holds}
use libalgo.Splay.Augment.{IsAugmented}
use libalgo.Splay.Refit.{Augmented, splay_insert-Augmented, splay_remove_init-Augmented}
use libalgo.Splay.{compute_subtree_max_size}

abbrev sizes : ℕ → ℕ → Sizes
sizes s m = record { size = s; max_size = m }

abbrev sample : SplayNode
sample =
    node (node leaf 2 (sizes 4 4) leaf) 5 (sizes 1 9)
      (node (node leaf 6 (sizes 2 2) leaf) 8 (sizes 9 9) leaf)

sample-IsSorted : IsSorted (items sample)
sample-IsSorted = omega arith

sample-IsAugmented : IsAugmented sample
unfolding compute_subtree_max_size
sample-IsAugmented = ((tt, refl, tt), refl, ((tt, refl, tt), refl, tt))

-- A search for 6 brings it to the root, with the greatest size computed anew.
splay_six :
    top_down_splay 6 sample
    ≡ some (
        node
          (node (node leaf 2 (sizes 4 4) leaf) 5 (sizes 1 4) leaf)
          6
          (sizes 2 9)
          (node leaf 8 (sizes 9 9) leaf))
unfolding top_down_splay compute_subtree_max_size
splay_six = refl

-- Inserting the key again returns the same tree.
insert_six : splay_insert 6 (sizes 3 3) sample ≡ top_down_splay 6 sample
unfolding splay_insert compute_subtree_max_size
insert_six = refl

top_down_splay-Parts_example : Parts 6 (items sample) (top_down_splay 6 sample)
top_down_splay-Parts_example = top_down_splay-Parts 6 sample tt sample-IsSorted

splay_insert-Inserted_example :
    Inserted 7 (sizes 3 0) (items sample) (splay_insert 7 (sizes 3 0) sample)
splay_insert-Inserted_example = splay_insert-Inserted 7 (sizes 3 0) sample sample-IsSorted

splay_remove_init-Holds_example : Holds (erase 5 (items sample)) (splay_remove_init 5 sample)
splay_remove_init-Holds_example = splay_remove_init-Holds 5 sample sample-IsSorted

splay_insert-Augmented_example : Augmented (splay_insert 7 (sizes 3 0) sample)
splay_insert-Augmented_example =
    splay_insert-Augmented 7 (sizes 3 0) sample sample-IsSorted sample-IsAugmented

splay_remove_init-Augmented_example : Augmented (splay_remove_init 5 sample)
splay_remove_init-Augmented_example =
    splay_remove_init-Augmented 5 sample sample-IsSorted sample-IsAugmented
