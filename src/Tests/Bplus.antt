-- ===== src/Tests/Bplus.antt =====
-- libtree/b+tree/b+tree.c on small trees.
use libalgo.Common.{ℕ, ◌+◌, ◌≡◌, refl, List, [], ◌∷◌, some, none, ◌==◌, if◌then◌else◌, arith}
use libalgo.Common.Int.{pos}
use libalgo.Btree.{array_remove}
use libalgo.Bplus.{
  Record, split, slot_insert, subl_insert, keys_of, entries, is_bpn_full, is_bpn_gt_min,
  bpn_bin_search, followed, bpn_insert_to_leaf, bpn_remove_from_leaf, bpn_halves, bpn_split, relink,
  insert_round, insert_from,
}
use libalgo.Vm.Search
use libalgo.Bplus.Delete.{
  shift_left, bpn_try_shift_left, bpn_try_shift_right, merged, delete_at, delete_round, leaf_remove,
  delete_from,
}
use libalgo.Tree.Sorted.{find}
use libalgo.Bplus.Delete.Leaf.{record_of}
use libalgo.Bplus.Root.{Bpt, bpt_high, planted, bpt_po_insert, bpt_lookup, shrunk, bpt_po_delete}
use libalgo.Bplus.Root.Validity.{
  key_bound, IsValid, bpt_items, BptInserted, bpt_po_insert-BptInserted,
}
use libalgo.Bplus.Root.Lookup.{bpt_high-height, LookedUp, bpt_lookup-LookedUp}
use libalgo.Bplus.Root.Removal.{BptDeleted, bpt_po_delete-BptDeleted}
use libalgo.Bplus.Root.Roundtrip.{
  InsertThenDelete, bpt_po_delete-bpt_po_insert, InsertThenLookup, bpt_lookup-bpt_po_insert,
}

-- Each record at a thousand and its key.
abbrev rec : ℕ → Record
rec k = (k, 1000 + k)

abbrev lower : List Record
lower = rec 1 ∷ []

abbrev upper_leaf : List Record
upper_leaf = rec 3 ∷ rec 5 ∷ rec 7 ∷ []

abbrev two_leaves : Bpt
two_leaves = record { height = 1; root = (3 ∷ [], lower ∷ upper_leaf ∷ []) }

-- The upper leaf is full, and split on the way.
insert_splits :
    bpt_po_insert two_leaves (rec 9)
    ≡ some (
      pos 0,
      record {
        height = 1;
        root = (3 ∷ 5 ∷ [], lower ∷ (rec 3 ∷ []) ∷ (rec 5 ∷ rec 7 ∷ rec 9 ∷ []) ∷ []);
      },
    )
unfolding bpt_po_insert is_bpn_full entries planted insert_from insert_round bpn_bin_search
    Search.bpn_bin_search Search.bin_loop Search.pos_cc keys_of followed bpn_split bpn_halves split
    slot_insert subl_insert relink bpn_insert_to_leaf
insert_splits = refl

-- The lower leaf has one record and borrows from the upper one before its record goes.
delete_borrows :
    bpt_po_delete two_leaves 1
    ≡ some (
      some (rec 1),
      record { height = 1; root = (5 ∷ [], (rec 3 ∷ []) ∷ (rec 5 ∷ rec 7 ∷ []) ∷ []) },
    )
unfolding bpt_po_delete delete_from delete_round delete_at bpn_bin_search Search.bpn_bin_search
    Search.bin_loop Search.pos_cc keys_of followed is_bpn_gt_min is_bpn_full entries
    bpn_try_shift_left bpn_try_shift_right shift_left relink leaf_remove bpn_remove_from_leaf
    array_remove shrunk
delete_borrows = refl

-- Two leaves of one record each are merged, and the tree loses a level.
delete_merges :
    bpt_po_delete (record { height = 1; root = (3 ∷ [], lower ∷ (rec 3 ∷ []) ∷ []) }) 3
    ≡ some (some (rec 3), record { height = 0; root = lower })
unfolding bpt_po_delete delete_from delete_round delete_at bpn_bin_search Search.bpn_bin_search
    Search.bin_loop Search.pos_cc keys_of followed is_bpn_gt_min is_bpn_full entries
    bpn_try_shift_left bpn_try_shift_right merged relink leaf_remove bpn_remove_from_leaf
    array_remove shrunk
delete_merges = refl

two_leaves-IsValid : IsValid two_leaves
two_leaves-IsValid = ground arith

bpt_po_insert-BptInserted_example :
    BptInserted (rec 9) (bpt_items two_leaves) (bpt_po_insert two_leaves (rec 9))
bpt_po_insert-BptInserted_example =
    bpt_po_insert-BptInserted two_leaves (rec 9) two_leaves-IsValid (omega arith)

bpt_lookup-LookedUp_example : LookedUp 5 (bpt_items two_leaves) (bpt_lookup two_leaves 5)
bpt_lookup-LookedUp_example = bpt_lookup-LookedUp two_leaves 5 two_leaves-IsValid (omega arith)

bpt_po_delete-BptDeleted_example : BptDeleted 1 (bpt_items two_leaves) (bpt_po_delete two_leaves 1)
bpt_po_delete-BptDeleted_example =
    bpt_po_delete-BptDeleted two_leaves 1 two_leaves-IsValid (omega arith)

four_missing : find 4 (bpt_items two_leaves) ≡ none
unfolding find
four_missing = refl

bpt_po_delete-bpt_po_insert_example :
    InsertThenDelete (rec 4) (bpt_items two_leaves) (bpt_po_insert two_leaves (rec 4))
bpt_po_delete-bpt_po_insert_example =
    bpt_po_delete-bpt_po_insert two_leaves (rec 4) two_leaves-IsValid (omega arith) four_missing

bpt_lookup-bpt_po_insert_example :
    InsertThenLookup 4
      (if 4 == 4 then some (rec 4) else record_of 4 (find 4 (bpt_items two_leaves)))
      (bpt_po_insert two_leaves (rec 4))
bpt_lookup-bpt_po_insert_example =
    bpt_lookup-bpt_po_insert two_leaves (rec 4) 4 two_leaves-IsValid (omega arith) (omega arith)
      four_missing

high_two : bpt_high 1 two_leaves.root ≡ some 1
high_two = bpt_high-height 1 1 0 key_bound two_leaves.root two_leaves-IsValid
