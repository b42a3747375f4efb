-- ===== src/Vm/Merge.antt =====
-- vm/vm_ops.c: whether a freed area touches its neighbours, and what becomes of the leaf it belongs
-- to. The last area of the leaf before and the first of the leaf behind are arguments.
pub mod Across
pub mod Covers
pub mod Touch
pub mod Leaf
use libalgo.Common.{
  ℕ, zero, suc, ◌+◌, ◌-◌, List, [], ◌∷◌, Option, none, some, Bool, true, false, ltb, ◌==◌, ◌||◌,
  ◌&&◌, not, if◌then◌else◌, length, get_or, get_elem?, set,
}
use libalgo.Vm.{VmapArea}

unfoldable pub ends_at : Option VmapArea → ℕ → Bool
ends_at none x = false
ends_at (some va) x = va.va_end == x

unfoldable pub starts_at : Option VmapArea → ℕ → Bool
starts_at none x = false
starts_at (some va) x = va.va_start == x

-- The four bits.
pub record MergeState : Type 0 where
  pub merge_with_left : Bool
  pub merge_with_right : Bool
  pub merge_with_left_leaf : Bool
  pub merge_with_right_leaf : Bool

unfoldable pub can_merge_to_left : List VmapArea → VmapArea → ℕ → Bool
unfolding ends_at
can_merge_to_left n va zero = false
can_merge_to_left n va (suc i) = ends_at (get_elem? n i) va.va_start

unfoldable pub can_merge_to_right : List VmapArea → VmapArea → ℕ → Bool
unfolding starts_at
can_merge_to_right n va position = starts_at (get_elem? n position) va.va_end

unfoldable pub can_merge_to_left_leaf : Option VmapArea → VmapArea → ℕ → Bool
unfolding ends_at
can_merge_to_left_leaf before va zero = ends_at before va.va_start
can_merge_to_left_leaf before va (suc i) = false

unfoldable pub can_merge_to_right_leaf : Option VmapArea → List VmapArea → VmapArea → ℕ → Bool
unfolding starts_at
can_merge_to_right_leaf behind n va position =
    if position == length n then starts_at behind va.va_end else false

unfoldable pub get_va_merge_state :
    Option VmapArea → Option VmapArea → List VmapArea → VmapArea → ℕ → MergeState
unfolding can_merge_to_left can_merge_to_right can_merge_to_left_leaf can_merge_to_right_leaf
get_va_merge_state before behind n va position =
    let left = can_merge_to_left n va position in
    let right = can_merge_to_right n va position in
    let inside = left && right in
    record {
      merge_with_left = left;
      merge_with_right = right;
      merge_with_left_leaf = not inside && can_merge_to_left_leaf before va position;
      merge_with_right_leaf = not inside && can_merge_to_right_leaf behind n va position;
    }

unfoldable pub can_merge : MergeState → Bool
can_merge ms =
    ms.merge_with_left || ms.merge_with_right || ms.merge_with_left_leaf || ms.merge_with_right_leaf

-- What is left to do when the leaf is dealt with: to delete the area at a key, which is `*out`; to
-- do so and merge the grown area again; to let the last area of the leaf before end at the first
-- address, where the leaf's own first area starts at the second; to let the first area of the leaf
-- behind start at the first address instead of the second.
pub data Todo : Type 0 where
  finished : Todo
  delete_out : ℕ → Todo
  once_more : VmapArea → ℕ → Todo
  join_left join_right : ℕ → ℕ → Todo

-- Whether the greatest free sizes are updated on the way up, by `info.ppos` or by a key.
pub data Climb : Type 0 where
  stopped by_ppos : Climb
  by_key : ℕ → Climb

-- `do_merge_va` as far as the leaf goes; `none` is a dereference of NULL.
unfoldable pub do_merge_va :
    MergeState
    → Option VmapArea
    → List VmapArea
    → VmapArea
    → ℕ
    → Option (Todo × Climb × List VmapArea)
do_merge_va ms behind n va position =
    let left = get_elem? n (position - 1) in
    let right = get_elem? n position in
    if ms.merge_with_left
    then elim left [
      | none ↦ none
      | some l ↦
          if ms.merge_with_right
          then elim right [
            | none ↦ none
            | some r ↦ some (
              delete_out r.va_start,
              by_ppos,
              set n (position - 1) (record l { va_end = r.va_end }),
            )
          ]
          else if ms.merge_with_right_leaf
          then some (once_more (record va { va_start = l.va_start }) l.va_start, stopped, n)
          else some (finished, by_ppos, set n (position - 1) (record l { va_end = va.va_end }))
    ]
    else if ms.merge_with_right
    then elim right [
      | none ↦ none
      | some r ↦
          if ms.merge_with_left_leaf
          then some (once_more (record va { va_end = r.va_end }) r.va_start, stopped, n)
          else some (finished, by_ppos, set n position (record r { va_start = va.va_start }))
    ]
    else if ms.merge_with_left_leaf
    then elim (get_elem? n 0) [
      | none ↦ none
      | some r ↦ some (join_left va.va_end r.va_start, stopped, n)
    ]
    else if ms.merge_with_right_leaf
    then elim behind [ none ↦ none | some r ↦ some (join_right va.va_start r.va_start, stopped, n) ]
    else some (finished, stopped, n)
