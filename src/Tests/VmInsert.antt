-- ===== src/Tests/VmInsert.antt =====
-- vm/vm.c and vm/vm_ops.c: the insertion of free areas, with merges.
use libalgo.Common.{if◌then◌else◌, ℕ, zero, suc, ◌+◌, ◌*◌, ◌≡◌, refl, List, [], ◌∷◌, some, arith}
use libalgo.Common.Int.{pos, negsuc}
use libalgo.Btree.{array_insert, array_remove}
use libalgo.Btree.Arrays.{Every}
use libalgo.Bplus.{followed}
use libalgo.Vm.{VmapArea, va_size}
use libalgo.Vm.Search
use libalgo.Vm.Search.{validate_insert_req}
use libalgo.Vm.Node.{avail_loop, bpn_max_avail, keys_of, entries, is_bpn_full, bpn_bin_search}
use libalgo.Vm.Delete.{
  BptRoot, bpt_po_delete, delete_from, leaf_remove, bpn_remove_from_leaf, leaf_cleared, shrunk,
}
use libalgo.Vm.Delete.Root.{IsValid, bpt_areas}
use libalgo.Vm.Merge.{
  ends_at, starts_at, can_merge_to_left, can_merge_to_right, can_merge_to_left_leaf,
  can_merge_to_right_leaf, get_va_merge_state, can_merge, do_merge_va,
}
use libalgo.Vm.Merge.Across.{
  last_area, first_area, before_link, behind_link, subavail_round, extend_last, join_left_at,
  join_at, climb_round, rejoin,
}
use libalgo.Vm.Insert.{
  bpn_insert_to_leaf, reaches_right, reaches_left, put_in_leaf, merge_in_leaf, store_in_leaf,
  descend, insert_round, insert_from, delete_out_of, settled, bpt_po_insert, free_vmap_area,
  vm_init_free_space,
}
use libalgo.Vm.Insert.Leaf.{IsApart}
use libalgo.Vm.Insert.Order.{starts, overlaps_any, insert_area, bpn_insert_to_leaf-insert_area}
use libalgo.Vm.Insert.Place.{IsRanged}
use libalgo.Vm.Delete.{fixup_round}
use libalgo.Vm.Insert.Root.{VmInserted, bpt_po_insert-VmInserted}

abbrev pages : ℕ → ℕ → VmapArea
pages page count = record { va_start = page * 4096; va_end = (page + count) * 4096 }

abbrev gap : List VmapArea
gap = pages 1 1 ∷ pages 3 1 ∷ []

-- The freed page touches both areas of the leaf.
fills_gap :
    bpt_po_insert (record { height = 0; node = gap }) (pages 2 1)
    ≡ some (pos 0, record { height = 0; node = pages 1 3 ∷ [] })
unfolding bpt_po_insert is_bpn_full entries insert_from bpn_bin_search Search.bpn_bin_search
    Search.bin_loop Search.pos_cc keys_of store_in_leaf validate_insert_req get_va_merge_state
    can_merge_to_left can_merge_to_right can_merge_to_left_leaf can_merge_to_right_leaf ends_at
    starts_at can_merge merge_in_leaf do_merge_va settled delete_out_of bpt_po_delete delete_from
    leaf_remove bpn_remove_from_leaf leaf_cleared array_remove shrunk
fills_gap = refl

-- An area that overlaps a free one is refused.
overlap_refused :
    free_vmap_area (record { height = 0; node = gap }) (some (pages 0 2))
    ≡ some (negsuc 0, record { height = 0; node = gap })
unfolding free_vmap_area bpt_po_insert is_bpn_full entries insert_from bpn_bin_search
    Search.bpn_bin_search Search.bin_loop Search.pos_cc keys_of store_in_leaf validate_insert_req
    get_va_merge_state can_merge_to_left can_merge_to_right can_merge_to_left_leaf
    can_merge_to_right_leaf ends_at starts_at can_merge merge_in_leaf do_merge_va put_in_leaf
    bpn_insert_to_leaf reaches_right reaches_left settled
overlap_refused = refl

-- An area that overlaps one free area is merged with another that it touches, without the check.
overlap_merged :
    free_vmap_area (record { height = 0; node = gap }) (some (pages 2 3))
    ≡ some (pos 0, record { height = 0; node = pages 1 4 ∷ pages 3 1 ∷ [] })
unfolding free_vmap_area bpt_po_insert is_bpn_full entries insert_from bpn_bin_search
    Search.bpn_bin_search Search.bin_loop Search.pos_cc keys_of store_in_leaf validate_insert_req
    get_va_merge_state can_merge_to_left can_merge_to_right can_merge_to_left_leaf
    can_merge_to_right_leaf ends_at starts_at can_merge merge_in_leaf do_merge_va settled
overlap_merged = refl

starts_with_all :
    vm_init_free_space 4096 8192 ≡ some (pos 0, record { height = 0; node = pages 1 1 ∷ [] })
unfolding vm_init_free_space bpt_po_insert is_bpn_full entries insert_from bpn_bin_search
    Search.bpn_bin_search Search.bin_loop Search.pos_cc keys_of store_in_leaf validate_insert_req
    get_va_merge_state can_merge_to_left can_merge_to_right can_merge_to_left_leaf
    can_merge_to_right_leaf ends_at starts_at can_merge put_in_leaf bpn_insert_to_leaf reaches_right
    reaches_left array_insert settled
starts_with_all = refl

-- The freed page belongs to the right leaf, by its key, and touches the last area of the left one.
joins_left :
    bpt_po_insert
      (record {
        height = 1;
        node = record {
          slot = 5 * 4096 ∷ [];
          suba = 2 * 4096 ∷ 4096 ∷ [];
          subl = (pages 1 1 ∷ pages 3 2 ∷ []) ∷ (pages 8 1 ∷ []) ∷ [];
        };
      })
      (pages 5 1)
    ≡ some (
      pos 0,
      record {
        height = 1;
        node = record {
          slot = 8 * 4096 ∷ [];
          suba = 3 * 4096 ∷ 4096 ∷ [];
          subl = (pages 1 1 ∷ pages 3 3 ∷ []) ∷ (pages 8 1 ∷ []) ∷ [];
        };
      },
    )
unfolding bpt_po_insert is_bpn_full entries insert_from insert_round descend before_link behind_link
    last_area first_area followed bpn_bin_search Search.bpn_bin_search Search.bin_loop Search.pos_cc
    keys_of store_in_leaf validate_insert_req get_va_merge_state can_merge_to_left
    can_merge_to_right can_merge_to_left_leaf can_merge_to_right_leaf ends_at starts_at can_merge
    merge_in_leaf do_merge_va rejoin climb_round join_at join_left_at extend_last subavail_round
    bpn_max_avail avail_loop va_size settled
joins_left = refl

abbrev row : ℕ → ℕ → List VmapArea
row page zero = []
row page (suc n) = pages page 1 ∷ row (page + 2) n

abbrev thin : BptRoot
thin = record {
  height = 1;
  node = record {
    slot = 101 * 4096 ∷ [];
    suba = 4096 ∷ 4096 ∷ [];
    subl = row 1 11 ∷ row 101 11 ∷ [];
  };
}

thin-IsValid : IsValid thin
unfolding bpn_max_avail avail_loop va_size
thin-IsValid = ground arith

thin-IsApart : Every (IsApart (pages 50 2)) (bpt_areas thin)
thin-IsApart = ground arith

thin-IsRanged : IsRanged 0 (200 * 4096) 1 thin.node
thin-IsRanged = ground arith

bpt_po_insert-VmInserted_example :
    VmInserted (pages 50 2) (bpt_areas thin) (bpt_po_insert thin (pages 50 2))
bpt_po_insert-VmInserted_example =
    bpt_po_insert-VmInserted thin (200 * 4096) (pages 50 2) thin-IsValid thin-IsRanged thin-IsApart
      (omega arith) (omega arith)

bpn_insert_to_leaf-insert_area_example :
    bpn_insert_to_leaf gap ((Search.bpn_bin_search (starts gap) 0).0) (pages 0 2) ≡ (
      if overlaps_any (pages 0 2) gap
      then some (negsuc 0, gap)
      else some (pos 0, insert_area (pages 0 2) gap))
bpn_insert_to_leaf-insert_area_example =
    bpn_insert_to_leaf-insert_area 0 (4 * 4096) gap (pages 0 2) (omega arith) (omega arith)
      (omega arith)

-- An area that overlaps the first area of the leaf behind is accepted.
overlap_across :
    bpt_po_insert
      (record {
        height = 1;
        node = record {
          slot = 8 * 4096 ∷ [];
          suba = 4096 ∷ 4096 ∷ [];
          subl = (pages 1 1 ∷ []) ∷ (pages 8 1 ∷ []) ∷ [];
        };
      })
      (pages 5 5)
    ≡ some (
      pos 0,
      record {
        height = 1;
        node = record {
          slot = 8 * 4096 ∷ [];
          suba = 5 * 4096 ∷ 4096 ∷ [];
          subl = (pages 1 1 ∷ pages 5 5 ∷ []) ∷ (pages 8 1 ∷ []) ∷ [];
        };
      },
    )
unfolding bpt_po_insert is_bpn_full entries insert_from insert_round descend before_link behind_link
    last_area first_area followed bpn_bin_search Search.bpn_bin_search Search.bin_loop Search.pos_cc
    keys_of store_in_leaf validate_insert_req get_va_merge_state can_merge_to_left
    can_merge_to_right can_merge_to_left_leaf can_merge_to_right_leaf ends_at starts_at can_merge
    put_in_leaf bpn_insert_to_leaf reaches_right reaches_left array_insert rejoin climb_round
    fixup_round bpn_max_avail avail_loop va_size settled
overlap_across = refl
