-- ===== src/Vm/Insert.antt =====
-- vm/vm.c: the insertion of an area, with its splits and the merge with areas that it touches.
-- BUG() and a dereference of NULL are `none`.
pub mod Order
pub mod Place
pub mod Halves
pub mod Leaf
pub mod Round
pub mod Loop
pub mod Root
use libalgo.Common.{
  ℕ, zero, suc, ◌+◌, ◌-◌, List, [], ◌∷◌, Option, none, some, Bool, true, false, ltb, leb, ◌||◌,
  if◌then◌else◌, length, get_or, get_elem?, set, take, drop,
}
use libalgo.Common.Int.{ℤ, pos, negsuc}
use libalgo.Btree.{array_insert}
use libalgo.Bplus.{split, followed}
use libalgo.Vm.{VmapArea}
use libalgo.Vm.Search.{PosCc, max_entries, validate_insert_req}
use libalgo.Vm.Node.{Bpn, Internal, keys_of, is_bpn_full, bpn_bin_search, bpn_max_avail}
use libalgo.Vm.Delete.{BptRoot, bpt_po_delete}
use libalgo.Vm.Split.{bpn_split, bpn_split_root}
use libalgo.Vm.Merge.{
  MergeState, get_va_merge_state, can_merge, do_merge_va, finished, delete_out, once_more,
  join_left, join_right, Todo, Climb, stopped, by_ppos,
}
use libalgo.Vm.Merge.Across.{Stored, before_link, behind_link, rejoin}

-- The sanity checks for the right and for the left.
unfoldable pub reaches_right : List VmapArea → ℕ → VmapArea → Bool
reaches_right n position va = elim (get_elem? n position) [
  | none ↦ false
  | some sibling ↦ ltb sibling.va_start va.va_end
]

unfoldable pub reaches_left : List VmapArea → ℕ → VmapArea → Bool
reaches_left n zero va = false
reaches_left n (suc i) va = elim (get_elem? n i) [
  | none ↦ false
  | some sibling ↦ ltb va.va_start sibling.va_end
]

-- The result is what the function returns, and the leaf after it.
unfoldable pub bpn_insert_to_leaf : List VmapArea → ℕ → VmapArea → Option (ℤ × List VmapArea)
unfolding reaches_right reaches_left array_insert
bpn_insert_to_leaf n position va =
    if ltb position max_entries
    then if reaches_right n position va || reaches_left n position va
      then some (negsuc 0, n)
      else some (pos 0, array_insert n position va)
    else none

-- `fixup_metadata` is called where the area was put into the leaf.
unfoldable pub put_in_leaf : List VmapArea → ℕ → VmapArea → Option (Stored 0)
unfolding bpn_insert_to_leaf
put_in_leaf n position va = elim (bpn_insert_to_leaf n position va) [
  | none ↦ none
  | some (pos k, n') ↦ some (pos k, finished, by_ppos, n')
  | some (negsuc k, n') ↦ some (negsuc k, finished, stopped, n')
]

-- `do_merge_va`, after which the insertion returns 0.
unfoldable pub merge_in_leaf :
    Option VmapArea → Option VmapArea → List VmapArea → VmapArea → ℕ → Option (Stored 0)
unfolding get_va_merge_state do_merge_va
merge_in_leaf before behind n va position =
    elim (do_merge_va (get_va_merge_state before behind n va position) behind n va position) [
      | none ↦ none
      | some (todo, climb, n') ↦ some (pos 0, todo, climb, n')
    ]

-- The end of `bpt_insert_non_full`, with `try_merge_va` as far as the first `do_merge_va`.
unfoldable pub store_in_leaf :
    Option VmapArea → Option VmapArea → List VmapArea → VmapArea → ℕ → Option (Stored 0)
unfolding validate_insert_req keys_of get_va_merge_state can_merge merge_in_leaf put_in_leaf
store_in_leaf before behind n va position =
    elim (validate_insert_req (keys_of 0 n) position va.va_start) [
      | none ↦ none
      | some (negsuc k) ↦ put_in_leaf n position va
      | some (pos k) ↦ elim (can_merge (get_va_merge_state before behind n va position)) [
        | true ↦ merge_in_leaf before behind n va position
        | false ↦ put_in_leaf n position va
      ]
    ]

-- The rest of the loop below the link `index`, with the areas before and behind.
unfoldable pub descend :
    (h : ℕ)
    → Option VmapArea
    → Option VmapArea
    → Internal (Bpn h)
    → ℕ
    → (Option VmapArea → Option VmapArea → Bpn h → Option (Stored h))
    → Option (Stored (suc h))
unfolding before_link behind_link rejoin
descend h before behind p index go = elim (get_elem? p.subl index) [
  | none ↦ none
  | some n ↦ rejoin h p index (go (before_link h p index before) (behind_link h p index behind) n)
]

-- A round of the loop of `bpt_insert_non_full` at an internal node, where the search has found
-- `found`.
unfoldable pub insert_round :
    (h : ℕ)
    → Option VmapArea
    → Option VmapArea
    → Internal (Bpn h)
    → ℕ × PosCc
    → ℕ
    → (Option VmapArea → Option VmapArea → Bpn h → Option (Stored h))
    → Option (Stored (suc h))
unfolding followed is_bpn_full bpn_split descend
insert_round h before behind p found key go =
    let index = followed found in
    elim (get_elem? p.subl index) [
      | none ↦ none
      | some n ↦ elim (is_bpn_full h n) [
        | false ↦ descend h before behind p index go
        | true ↦ elim (bpn_split h p index n) [
          | none ↦ none
          | some q ↦
              descend h before behind q
                (if leb (get_or q.slot found.0 0) key then suc found.0 else index) go
        ]
      ]
    ]

-- The loop of `bpt_insert_non_full` from the node `n`.
unfoldable pub insert_from :
    (h : ℕ) → VmapArea → Option VmapArea → Option VmapArea → Bpn h → Option (Stored h)
unfolding bpn_bin_search store_in_leaf insert_round
insert_from zero va before behind n =
    store_in_leaf before behind n va (bpn_bin_search 0 n va.va_start).0
insert_from (suc h) va before behind n =
    insert_round h before behind n (bpn_bin_search (suc h) n va.va_start) va.va_start
      (λ b c m. insert_from h va b c m)

-- The second descent of `try_merge_va`, to the second `do_merge_va`.
unfoldable pub merge_from :
    (h : ℕ) → VmapArea → Option VmapArea → Option VmapArea → Bpn h → Option (Stored h)
unfolding bpn_bin_search followed merge_in_leaf descend
merge_from zero va before behind n =
    merge_in_leaf before behind n va (bpn_bin_search 0 n va.va_start).0
merge_from (suc h) va before behind n =
    descend h before behind n (followed (bpn_bin_search (suc h) n va.va_start))
      (λ b c m. merge_from h va b c m)

-- `bpt_po_delete` of `*out`, and BUG() where it returns NULL.
unfoldable pub delete_out_of : BptRoot → ℕ → Option BptRoot
unfolding bpt_po_delete
delete_out_of t key = elim (bpt_po_delete t key) [
  | none ↦ none
  | some (none, t') ↦ none
  | some (some va, t') ↦ some t'
]

-- The end of `try_merge_va`. The two merges that remain are those whose key between the leaves no
-- parent has: the area is freed and merged with none.
unfoldable pub merge_again : VmapArea → BptRoot → Option (ℤ × BptRoot)
unfolding merge_from
merge_again va t = elim (merge_from t.height va none none t.node) [
  | none ↦ none
  | some (rv, delete_out key, climb, n) ↦ none
  | some (rv, once_more va' key, climb, n) ↦ none
  | some (rv, todo, climb, n) ↦ some (rv, record { height = t.height; node = n })
]

unfoldable pub settled : (h : ℕ) → Option (Stored h) → Option (ℤ × BptRoot)
unfolding delete_out_of merge_again
settled h none = none
settled h (some (rv, delete_out key, climb, n)) =
    elim (delete_out_of (record { height = h; node = n }) key) [
      | none ↦ none
      | some t ↦ some (rv, t)
    ]
settled h (some (rv, once_more va key, climb, n)) =
    elim (delete_out_of (record { height = h; node = n }) key) [
      | none ↦ none
      | some t ↦ merge_again va t
    ]
settled h (some (rv, finished, climb, n)) = some (rv, record { height = h; node = n })
settled h (some (rv, join_left e start, climb, n)) = some (rv, record { height = h; node = n })
settled h (some (rv, join_right v start, climb, n)) = some (rv, record { height = h; node = n })

unfoldable pub bpt_po_insert : BptRoot → VmapArea → Option (ℤ × BptRoot)
unfolding is_bpn_full settled
bpt_po_insert t va = elim (is_bpn_full t.height t.node) [
  | false ↦ settled t.height (insert_from t.height va none none t.node)
  | true ↦ elim (bpn_split_root t.height t.node) [
    | none ↦ none
    | some n ↦ settled (suc t.height) (insert_from (suc t.height) va none none n)
  ]
]

-- -1 for NULL.
unfoldable pub free_vmap_area : BptRoot → Option VmapArea → Option (ℤ × BptRoot)
unfolding bpt_po_insert
free_vmap_area t none = some (negsuc 0, t)
free_vmap_area t (some va) = bpt_po_insert t va

-- An external node with no area.
abbrev pub bpt_root_init : BptRoot
bpt_root_init = record { height = 0; node = [] }

unfoldable pub vm_init_free_space : ℕ → ℕ → Option (ℤ × BptRoot)
unfolding bpt_po_insert
vm_init_free_space vstart vend =
    bpt_po_insert bpt_root_init (record { va_start = vstart; va_end = vend })
