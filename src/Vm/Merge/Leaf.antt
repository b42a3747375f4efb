-- ===== src/Vm/Merge/Leaf.antt =====
-- The addresses that the areas of a leaf cover after a merge within it.
use libalgo.Common.{◌⊎◌, ℕ, ◌≡◌, List, Option, none, some, ◌||◌, get_elem?}
use libalgo.Btree.{array_remove}
use libalgo.Btree.Arrays.{Every}
use libalgo.Vm.{VmapArea}
use libalgo.Vm.Clip.{covers}
use libalgo.Vm.Merge.{
  MergeState, do_merge_va, Todo, finished, delete_out, once_more, join_left, join_right, Climb,
  stopped, by_ppos, by_key,
}
use libalgo.Vm.Merge.Covers.{some_covers, IsForward}
use libalgo.Vm.Merge.Touch.{
  left_neighbour, right_neighbour, EndsAt, StartsAt, TouchesRight, TouchesLeft,
}

-- What `do_merge_va` leaves of the leaf `n` and the area `va` at the position `i`. The leaf, less an
-- area that is to be deleted, covers the addresses of both; or the area has grown by one of the leaf
-- that is to be deleted, and touches an area of another leaf; or it only touches an area of another
-- leaf, which is to grow; or it touches neither neighbour.
module _ (before behind : Option VmapArea) (n : List VmapArea) (va : VmapArea) (i : ℕ) where
  abbrev pub Merged : Option (Todo × Climb × List VmapArea) → Type 0
  Merged none = ⊥
  Merged (some (finished, stopped, n')) =
      (n' ≡ n)
      × ¬ EndsAt (left_neighbour before n i) va.va_start
      × ¬ StartsAt (right_neighbour behind n i) va.va_end
  Merged (some (finished, by_ppos, n')) =
      (x : ℕ) → some_covers n' x ≡ (some_covers n x || covers va x)
  Merged (some (finished, by_key key, n')) = ⊥
  Merged (some (delete_out key, climb, n')) =
      (j : ℕ) × (r : VmapArea) × (get_elem? n' j ≡ some r)
      × (r.va_start ≡ key)
      × ((x : ℕ) → some_covers (array_remove n' j) x ≡ (some_covers n x || covers va x))
  Merged (some (once_more va' key, climb, n')) =
      (n' ≡ n)
      × (EndsAt before va'.va_start ⊎ StartsAt behind va'.va_end)
      × ((a : VmapArea) × (j : ℕ) × (get_elem? n j ≡ some a)
          × (a.va_start ≡ key)
          × ((x : ℕ) → covers va' x ≡ (covers a x || covers va x)))
  Merged (some (join_left e start, climb, n')) =
      (n' ≡ n)
      × (e ≡ va.va_end)
      × EndsAt before va.va_start
      × StartsAt (get_elem? n 0) start
      × ¬ StartsAt (get_elem? n i) va.va_end
  Merged (some (join_right v start, climb, n')) =
      (n' ≡ n)
      × (v ≡ va.va_start)
      × (start ≡ va.va_end)
      × StartsAt behind va.va_end
      × ¬ EndsAt (left_neighbour before n i) va.va_start

module _ (before behind : Option VmapArea) (n : List VmapArea) (va : VmapArea) (i : ℕ)
    (ms : MergeState) (every : Every IsForward n) (ahead : IsForward va)
    (on_right : TouchesRight behind va ms) (on_left : TouchesLeft before va ms) where
  abbrev Goal : Type 0
  Goal = Merged before behind n va i (do_merge_va ms behind n va i)
