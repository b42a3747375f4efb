-- ===== src/Vm/Delete.antt =====
-- vm/vm.c: the removal of an area from the tree, with the greatest free sizes kept up to date. A
-- sibling lends an entry, or is merged. The nodes stand for what the source changes in place, and
-- BUG() and a dereference of NULL are `none`.
pub mod Shape
pub mod Pair
pub mod Links
pub mod Pruned
pub mod Round
pub mod Rebalance
pub mod Loop
pub mod Root
use libalgo.Common.{
  ℕ, zero, suc, ◌+◌, ◌-◌, List, [], ◌∷◌, ◌++◌, Option, none, some, Bool, true, false, ltb, ◌==◌,
  ◌||◌, not, if◌then◌else◌, length, get_or, get_elem?, set, take, drop,
}
use libalgo.Btree.{array_remove}
use libalgo.Bplus.{followed}
use libalgo.Vm.{VmapArea}
use libalgo.Vm.Search.{PosCc, pos_cc_eq, pos_cc_lt, pos_cc_gt, max_entries}
use libalgo.Vm.Node.{
  Bpn, Internal, keys_of, is_bpn_full, is_bpn_gt_min, bpn_bin_search, bpn_max_avail,
}

-- The first entry of `r` moves to the end of `l`: both nodes with the new key between them.
unfoldable pub shift_left : (h : ℕ) → Bpn h → ℕ → Bpn h → Bpn h × ℕ × Bpn h
unfolding keys_of
shift_left zero l key r = (l ++ take 1 r, get_or (keys_of 0 r) 1 0, drop 1 r)
shift_left (suc h) l key r = (
  record {
    slot = l.slot ++ (key ∷ []);
    suba = l.suba ++ take 1 r.suba;
    subl = l.subl ++ take 1 r.subl;
  },
  get_or r.slot 0 0,
  record { slot = drop 1 r.slot; suba = drop 1 r.suba; subl = drop 1 r.subl },
)

-- The last entry of `l` moves to the front of `r`.
unfoldable pub shift_right : (h : ℕ) → Bpn h → ℕ → Bpn h → Bpn h × ℕ × Bpn h
unfolding keys_of
shift_right zero l key r =
    let n = length l - 1 in (take n l, get_or (keys_of 0 l) n 0, drop n l ++ r)
shift_right (suc h) l key r =
    let n = length l.slot in
    (
      record { slot = take (n - 1) l.slot; suba = take n l.suba; subl = take n l.subl },
      get_or l.slot (n - 1) 0,
      record {
        slot = key ∷ r.slot;
        suba = drop n l.suba ++ r.suba;
        subl = drop n l.subl ++ r.subl;
      },
    )

-- `bpn_try_shift_left` and `bpn_try_shift_right` at the key `key` of the parent; `none` is `false`.
unfoldable pub bpn_try_shift_left : (h : ℕ) → Bpn h → ℕ → Bpn h → Option (Bpn h × ℕ × Bpn h)
unfolding is_bpn_full is_bpn_gt_min shift_left
bpn_try_shift_left h l key r =
    if is_bpn_full h l || not (is_bpn_gt_min h r) then none else some (shift_left h l key r)

unfoldable pub bpn_try_shift_right : (h : ℕ) → Bpn h → ℕ → Bpn h → Option (Bpn h × ℕ × Bpn h)
unfolding is_bpn_full is_bpn_gt_min shift_right
bpn_try_shift_right h l key r =
    if is_bpn_full h r || not (is_bpn_gt_min h l) then none else some (shift_right h l key r)

-- The node that `bpn_merge_siblings` leaves of the two.
unfoldable pub merged : (h : ℕ) → Bpn h → ℕ → Bpn h → Option (Bpn h)
merged zero l key r = if ltb max_entries (length l + length r) then none else some (l ++ r)
merged (suc h) l key r =
    if ltb max_entries (length l.slot + length r.slot + 1)
    then none
    else some (record {
      slot = l.slot ++ (key ∷ r.slot);
      suba = l.suba ++ r.suba;
      subl = l.subl ++ r.subl;
    })

-- The parent whose links `at` and `at + 1` lead to `l` and `r` after a shift with the new key, and
-- after a merge that leaves `m`.
unfoldable pub balanced : (h : ℕ) → Internal (Bpn h) → ℕ → Bpn h × ℕ × Bpn h → Internal (Bpn h)
unfolding bpn_max_avail
balanced h p at (l, key, r) = record {
  slot = set p.slot at key;
  suba = set (set p.suba at (bpn_max_avail h l)) (suc at) (bpn_max_avail h r);
  subl = set (set p.subl at l) (suc at) r;
}

unfoldable pub united : (h : ℕ) → Internal (Bpn h) → ℕ → Bpn h → Internal (Bpn h)
unfolding bpn_max_avail array_remove
united h p at m = record {
  slot = array_remove p.slot at;
  suba = set (array_remove p.suba (suc at)) at (bpn_max_avail h m);
  subl = set (array_remove p.subl (suc at)) at m;
}

-- What the removal returns, whether `fixup_metadata` still climbs, and the node after it.
abbrev pub Cleared : ℕ → Type 0
Cleared h = Option VmapArea × Bool × Bpn h

-- A round of `fixup_metadata` at the parent `p` of the node `n`, with `index` for `info.ppos`.
unfoldable pub fixup_round : (h : ℕ) → Internal (Bpn h) → ℕ → Bool → Bpn h → Bool × Internal (Bpn h)
unfolding bpn_max_avail
fixup_round h p index climbs n =
    let avail = bpn_max_avail h n in
    let q = record p { subl = set p.subl index n } in
    if not climbs || get_or p.suba index 0 == avail
    then (false, q)
    else (true, record q { suba = set p.suba index avail })

-- What comes of the loop below the link at `index`, put back in its place.
unfoldable pub relink :
    (h : ℕ) → Internal (Bpn h) → ℕ → Option (Cleared h) → Option (Cleared (suc h))
unfolding fixup_round
relink h p index none = none
relink h p index (some (va, climbs, n)) =
    let (climbs', q) = fixup_round h p index climbs n in some (va, climbs', q)

-- The round at the link `index`, which leads to one of the links `at` and `at + 1`. `go` is the
-- rest of the loop.
unfoldable pub delete_at :
    (h : ℕ) → ℕ → ℕ → Internal (Bpn h) → (Bpn h → Option (Cleared h)) → Option (Cleared (suc h))
unfolding is_bpn_gt_min bpn_try_shift_left bpn_try_shift_right merged balanced united relink
delete_at h at index p go = elim (get_elem? p.subl index) [
  | none ↦ none
  | some n ↦ elim (is_bpn_gt_min h n) [
    | true ↦ relink h p index (go n)
    | false ↦ elim (get_elem? p.subl at) [
      | none ↦ none
      | some l ↦ elim (get_elem? p.subl (suc at)) [
        | none ↦ none
        | some r ↦
            elim (if index == at
              then bpn_try_shift_left h l (get_or p.slot at 0) r
              else bpn_try_shift_right h l (get_or p.slot at 0) r) [
                | some pair ↦
                    let q = balanced h p at pair in
                    relink h q index (go (if index == at then pair.0 else pair.2))
                | none ↦ elim (merged h l (get_or p.slot at 0) r) [
                  | none ↦ none
                  | some m ↦ relink h (united h p at m) at (go m)
                ]
              ]
      ]
    ]
  ]
]

-- A round of the loop of `bpt_po_delete` at an internal node, where the search has found `found`.
-- `bpn_get_left` and `bpn_get_right` give the links `at` and `at + 1`.
unfoldable pub delete_round :
    (h : ℕ) → Internal (Bpn h) → ℕ × PosCc → (Bpn h → Option (Cleared h)) → Option (Cleared (suc h))
unfolding followed delete_at
delete_round h p found go =
    delete_at h (if ltb found.0 (length p.slot) then found.0 else found.0 - 1) (followed found) p go

-- NULL is `none` in the pair.
unfoldable pub bpn_remove_from_leaf :
    List VmapArea → ℕ → ℕ → Option (Option VmapArea × List VmapArea)
unfolding keys_of array_remove
bpn_remove_from_leaf n position key =
    if ltb position max_entries
    then if get_or (keys_of 0 n) position 0 == key
      then some (get_elem? n position, array_remove n position)
      else some (none, n)
    else none

-- `fixup_metadata` is called where an area was removed.
unfoldable pub leaf_cleared : Option (Option VmapArea × List VmapArea) → Option (Cleared 0)
leaf_cleared none = none
leaf_cleared (some (none, n)) = some (none, false, n)
leaf_cleared (some (some va, n)) = some (some va, true, n)

-- The end of `bpt_po_delete`, at the leaf, after the search there.
unfoldable pub leaf_remove : List VmapArea → ℕ × PosCc → ℕ → Option (Cleared 0)
unfolding bpn_remove_from_leaf leaf_cleared
leaf_remove n (position, pos_cc_eq) key = leaf_cleared (bpn_remove_from_leaf n position key)
leaf_remove n (position, pos_cc_lt) key = some (none, false, n)
leaf_remove n (position, pos_cc_gt) key = some (none, false, n)

-- The loop of `bpt_po_delete` from the node `n`.
unfoldable pub delete_from : (h : ℕ) → Bpn h → ℕ → Option (Cleared h)
unfolding bpn_bin_search leaf_remove delete_round
delete_from zero n key = leaf_remove n (bpn_bin_search 0 n key) key
delete_from (suc h) n key =
    delete_round h n (bpn_bin_search (suc h) n key) (λ c. delete_from h c key)

pub record BptRoot : Type 0 where
  pub height : ℕ
  pub node : Bpn height

-- A root whose last key the merge of its children took gives way to the merged node.
unfoldable pub shrunk : (h : ℕ) → Bpn h → Option BptRoot
shrunk zero n = some (record { height = 0; node = n })
shrunk (suc h) n = elim (n.slot) [
  | k ∷ slot ↦ some (record { height = suc h; node = n })
  | [] ↦ elim (n.subl) [ [] ↦ none | c ∷ subl ↦ some (record { height = h; node = c }) ]
]

unfoldable pub bpt_po_delete : BptRoot → ℕ → Option (Option VmapArea × BptRoot)
unfolding delete_from shrunk
bpt_po_delete t key = elim (delete_from t.height t.node key) [
  | none ↦ none
  | some (va, climbs, n) ↦ elim (shrunk t.height n) [ none ↦ none | some t' ↦ some (va, t') ]
]
