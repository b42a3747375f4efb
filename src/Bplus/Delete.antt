-- ===== src/Bplus/Delete.antt =====
-- libtree/b+tree/b+tree.c: the deletion from a node. A sibling lends an entry, or is merged.
pub mod Pair
pub mod Cut
pub mod Borrow
pub mod Leaf
pub mod Round
pub mod Rebalance
pub mod Loop
use libalgo.Common.{
  ℕ, zero, suc, ◌+◌, ◌-◌, List, [], ◌∷◌, ◌++◌, Option, none, some, Bool, true, false, ltb, leb,
  ◌==◌, ◌||◌, not, if◌then◌else◌, length, get_or, get_elem?, set, take, drop,
}
use libalgo.Vm.Search.{PosCc, pos_cc_eq, pos_cc_lt, pos_cc_gt}
use libalgo.Btree.{array_remove}
use libalgo.Bplus.{
  BpNode, Record, entries, keys_of, is_bpn_full, is_bpn_gt_min, bpn_bin_search, followed,
  bpn_remove_from_leaf, relink, max_entries,
}

-- The first entry of `r` moves to the end of `l`: both nodes with the new key between them.
unfoldable pub shift_left : (h : ℕ) → BpNode h → ℕ → BpNode h → BpNode h × ℕ × BpNode h
unfolding keys_of
shift_left zero l key r = (l ++ take 1 r, get_or (keys_of 0 r) 1 0, drop 1 r)
shift_left (suc h) (l, ls) key (r, rs) =
    ((l ++ (key ∷ []), ls ++ take 1 rs), get_or r 0 0, (drop 1 r, drop 1 rs))

-- The last entry of `l` moves to the front of `r`.
unfoldable pub shift_right : (h : ℕ) → BpNode h → ℕ → BpNode h → BpNode h × ℕ × BpNode h
unfolding keys_of
shift_right zero l key r =
    let n = length l - 1 in (take n l, get_or (keys_of 0 l) n 0, drop n l ++ r)
shift_right (suc h) (l, ls) key (r, rs) =
    let n = length l - 1 in
    ((take n l, take (length l) ls), get_or l n 0, (key ∷ r, drop (length l) ls ++ rs))

-- `bpn_try_shift_left` and `bpn_try_shift_right` at the key `key` of the parent; `none` is `false`.
unfoldable pub bpn_try_shift_left :
    (h : ℕ) → BpNode h → ℕ → BpNode h → Option (BpNode h × ℕ × BpNode h)
unfolding is_bpn_full is_bpn_gt_min shift_left
bpn_try_shift_left h l key r =
    if is_bpn_full h l || not (is_bpn_gt_min h r) then none else some (shift_left h l key r)

unfoldable pub bpn_try_shift_right :
    (h : ℕ) → BpNode h → ℕ → BpNode h → Option (BpNode h × ℕ × BpNode h)
unfolding is_bpn_full is_bpn_gt_min shift_right
bpn_try_shift_right h l key r =
    if is_bpn_full h r || not (is_bpn_gt_min h l) then none else some (shift_right h l key r)

-- The node that `bpn_merge_siblings` leaves of the two; `none` is BUG().
unfoldable pub merged : (h : ℕ) → BpNode h → ℕ → BpNode h → Option (BpNode h)
merged zero l key r = if ltb max_entries (length l + length r) then none else some (l ++ r)
merged (suc h) (l, ls) key (r, rs) =
    if ltb max_entries (length l + length r + 1) then none else some (l ++ (key ∷ r), ls ++ rs)

-- The round at the link `index`, which leads to one of the links `at` and `at + 1`. `go` is the
-- rest of the loop; `none` is BUG() or a dereference of NULL.
unfoldable pub delete_at :
    (h : ℕ)
    → ℕ
    → ℕ
    → List ℕ
    → List (BpNode h)
    → (BpNode h → Option (Option Record × BpNode h))
    → Option (Option Record × BpNode (suc h))
unfolding is_bpn_gt_min bpn_try_shift_left bpn_try_shift_right merged array_remove relink
delete_at h at index slot subl go = elim (get_elem? subl index) [
  | none ↦ none
  | some n ↦ elim (is_bpn_gt_min h n) [
    | true ↦ relink h slot subl index (go n)
    | false ↦ elim (get_elem? subl at) [
      | none ↦ none
      | some l ↦ elim (get_elem? subl (suc at)) [
        | none ↦ none
        | some r ↦
            elim (if index == at
              then bpn_try_shift_left h l (get_or slot at 0) r
              else bpn_try_shift_right h l (get_or slot at 0) r) [
                | some (l', key, r') ↦
                    let subl' = set (set subl at l') (suc at) r' in
                    elim (get_elem? subl' index) [
                      | none ↦ none
                      | some n' ↦ relink h (set slot at key) subl' index (go n')
                    ]
                | none ↦ elim (merged h l (get_or slot at 0) r) [
                  | none ↦ none
                  | some m ↦
                      relink h (array_remove slot at) (set (array_remove subl (suc at)) at m) at
                        (go m)
                ]
              ]
      ]
    ]
  ]
]

-- A round of the loop of `bpt_po_delete` at an internal node, where the search has found `found`.
-- `bpn_get_left` and `bpn_get_right` give the links `at` and `at + 1`.
unfoldable pub delete_round :
    (h : ℕ)
    → List ℕ
    → List (BpNode h)
    → ℕ × PosCc
    → (BpNode h → Option (Option Record × BpNode h))
    → Option (Option Record × BpNode (suc h))
unfolding followed delete_at
delete_round h slot subl found go =
    delete_at h (if ltb found.0 (length slot) then found.0 else found.0 - 1) (followed found) slot
      subl go

-- The end of `bpt_po_delete`, at the leaf, after the search there.
unfoldable pub leaf_remove : List Record → ℕ × PosCc → ℕ → Option (Option Record × List Record)
unfolding bpn_remove_from_leaf
leaf_remove n (position, pos_cc_eq) key = bpn_remove_from_leaf n position key
leaf_remove n (position, pos_cc_lt) key = some (none, n)
leaf_remove n (position, pos_cc_gt) key = some (none, n)

-- The loop of `bpt_po_delete` from the node `n`: the record that it returns, and the node after it.
unfoldable pub delete_from : (h : ℕ) → BpNode h → ℕ → Option (Option Record × BpNode h)
unfolding bpn_bin_search leaf_remove delete_round
delete_from zero n key = leaf_remove n (bpn_bin_search 0 n key) key
delete_from (suc h) (slot, subl) key =
    delete_round h slot subl (bpn_bin_search (suc h) (slot, subl) key) (λ n. delete_from h n key)
