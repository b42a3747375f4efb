-- ===== src/Tests/VmTree.antt =====
-- vm/vm.c and vm/vm_ops.c on small trees of free areas.
use libalgo.Common.{Option, ℕ, zero, suc, ◌+◌, ◌*◌, ◌≡◌, refl, List, [], ◌∷◌, map, some, arith}
use mathlib.Core.Option
use libalgo.Vm.{VmapArea, align_up, va_size}
use libalgo.Vm.Node.{Bpn, avail_loop, bpn_max_avail}
use libalgo.Vm.Node.Avail.{areas, greatest, HasAvail, bpn_max_avail-greatest}
use libalgo.Vm.Lookup.{
  lowest_link, under, bpt_lookup_lowest_leaf, lookup_smallest_va, lin_lookup_smallest_va, leaves,
}
use libalgo.Vm.Lookup.Way.{IsFree}
use libalgo.Vm.Lookup.Rounds.{area_of}
use libalgo.Vm.Lookup.Lowest.{Lowest, lookup_smallest_va-Lowest}
use libalgo.Vm.Lookup.Linear.{lookup_smallest_va-lin_lookup_smallest_va}
use libalgo.Vm.Delete.{BptRoot, bpt_po_delete}
use libalgo.Vm.Delete.Root.{IsValid, bpt_areas, VmDeleted, bpt_po_delete-VmDeleted}

-- The free area of pages from the page `page` on.
abbrev pages : ℕ → ℕ → VmapArea
pages page count = record { va_start = page * 4096; va_end = (page + count) * 4096 }

abbrev low_leaf : List VmapArea
low_leaf = pages 1 1 ∷ pages 3 1 ∷ []

abbrev high_leaf : List VmapArea
high_leaf = pages 5 5 ∷ pages 12 2 ∷ []

abbrev two_leaves : Bpn 1
two_leaves = record {
  slot = 5 * 4096 ∷ [];
  suba = 4096 ∷ 5 * 4096 ∷ [];
  subl = low_leaf ∷ high_leaf ∷ [];
}

two_leaves-IsFree : IsFree 4096 0 (20 * 4096) 1 two_leaves
unfolding bpn_max_avail align_up
two_leaves-IsFree = ground arith

-- The first round comes to the lower leaf, which has a page, but not behind vstart.
lookup_smallest_va-Lowest_example :
    (o : Option VmapArea) × (Option.map area_of
        (lookup_smallest_va 1 two_leaves 4096 4096 (4 * 4096))
      ≡ some o)
    × Lowest 4096 4096 (4 * 4096) (areas 1 two_leaves) o
unfolding align_up
lookup_smallest_va-Lowest_example =
    lookup_smallest_va-Lowest 1 (20 * 4096) two_leaves 4096 4096 (4 * 4096) two_leaves-IsFree
      (omega arith) (omega arith) (omega arith) (omega arith) (omega arith) refl

lookup_smallest_va-lin_lookup_smallest_va_example :
    Option.map area_of (lookup_smallest_va 1 two_leaves 8192 4096 4096)
    ≡ some (area_of (lin_lookup_smallest_va (leaves 1 two_leaves) 8192 4096 4096))
unfolding align_up
lookup_smallest_va-lin_lookup_smallest_va_example =
    lookup_smallest_va-lin_lookup_smallest_va 1 (20 * 4096) two_leaves 8192 4096 4096
      two_leaves-IsFree (omega arith) (omega arith) (omega arith) (omega arith) refl

two_leaves-HasAvail : HasAvail 1 two_leaves
unfolding bpn_max_avail
two_leaves-HasAvail = (refl, (tt, (tt, tt)))

bpn_max_avail-greatest_example :
    bpn_max_avail 1 two_leaves ≡ greatest (map va_size (areas 1 two_leaves))
bpn_max_avail-greatest_example = bpn_max_avail-greatest 1 two_leaves two_leaves-HasAvail

-- The lower half of a tree has an area of 9 pages, but before vstart: the search ends in the last
-- leaf of that half, with no such area, and not in the last leaf of the tree.
abbrev half : VmapArea → ℕ → VmapArea → Bpn 1
half a key b = record {
  slot = key * 4096 ∷ [];
  suba = va_size a ∷ va_size b ∷ [];
  subl = (a ∷ []) ∷ (b ∷ []) ∷ [];
}

abbrev two_halves : Bpn 2
two_halves = record {
  slot = 100 * 4096 ∷ [];
  suba = 9 * 4096 ∷ 4096 ∷ [];
  subl = half (pages 1 9) 50 (pages 50 1) ∷ half (pages 100 1) 150 (pages 150 1) ∷ [];
}

lowest_leaf_inner :
    Option.map (λ r. r.1) (bpt_lookup_lowest_leaf 2 two_halves (9 * 4096) (60 * 4096))
    ≡ some (pages 50 1 ∷ [])
unfolding bpt_lookup_lowest_leaf lowest_link under va_size
lowest_leaf_inner = refl

-- Leaves of the least number of areas: a removal merges them and the tree loses a level.
abbrev row : ℕ → ℕ → List VmapArea
row page zero = []
row page (suc n) = pages page 1 ∷ row (page + 2) n

abbrev thin : BptRoot
thin = record {
  height = 1;
  node = record {
    slot = 101 * 4096 ∷ [];
    suba = 4096 ∷ 4096 ∷ [];
    subl = row 1 11 ∷ row 101 11 ∷ [];
  };
}

thin-IsValid : IsValid thin
unfolding bpn_max_avail avail_loop va_size
thin-IsValid = ground arith

bpt_po_delete-VmDeleted_example :
    VmDeleted (3 * 4096) (bpt_areas thin) (bpt_po_delete thin (3 * 4096))
bpt_po_delete-VmDeleted_example = bpt_po_delete-VmDeleted thin (3 * 4096) thin-IsValid
