-- ===== src/Bplus/Root.antt =====
-- libtree/b+tree/b+tree.c: the operations on the whole tree.
pub mod Validity
pub mod Lookup
pub mod Removal
pub mod Roundtrip
use libalgo.Common.{ℕ, zero, suc, List, [], ◌∷◌, Option, none, some, Bool, true, false, get_elem?}
use libalgo.Common.Int.{ℤ}
use libalgo.Vm.Search.{PosCc, pos_cc_eq, pos_cc_lt, pos_cc_gt}
use libalgo.Bplus.{BpNode, Record, is_bpn_full, bpn_bin_search, followed, bpn_split, insert_from}
use libalgo.Bplus.Delete.{delete_from}

pub record Bpt : Type 0 where
  pub height : ℕ
  pub root : BpNode height

-- An external node with no record.
abbrev pub bpt_root_init : Bpt
bpt_root_init = record { height = 0; root = [] }

-- The links that `bpt_high` goes down, all of them the first of their nodes.
unfoldable pub bpt_high : (h : ℕ) → BpNode h → Option ℕ
bpt_high zero n = some 0
bpt_high (suc h) (slot, []) = none
bpt_high (suc h) (slot, c ∷ subl) = elim (bpt_high h c) [ none ↦ none | some k ↦ some (suc k) ]

unfoldable pub bpn_split_root : (h : ℕ) → BpNode h → Option (BpNode (suc h))
unfolding bpn_split
bpn_split_root h root = bpn_split h [] (root ∷ []) 0 root

-- What `bpt_insert_non_full` returns, and the tree whose root has the height `h`.
unfoldable pub planted {κ} : {R : Type κ} (h : ℕ) → Option (R × BpNode h) → Option (R × Bpt)
planted h none = none
planted h (some (r, n)) = some (r, record { height = h; root = n })

unfoldable pub bpt_po_insert : Bpt → Record → Option (ℤ × Bpt)
unfolding is_bpn_full planted
bpt_po_insert t r = elim (is_bpn_full t.height t.root) [
  | false ↦ planted t.height (insert_from t.height t.root r)
  | true ↦ elim (bpn_split_root t.height t.root) [
    | none ↦ none
    | some n ↦ planted (suc t.height) (insert_from (suc t.height) n r)
  ]
]

unfoldable pub bpt_find_leaf : (h : ℕ) → BpNode h → ℕ → Option (List Record)
unfolding followed bpn_bin_search
bpt_find_leaf zero n val = some n
bpt_find_leaf (suc h) (slot, subl) val =
    elim (get_elem? subl (followed (bpn_bin_search (suc h) (slot, subl) val))) [
      | none ↦ none
      | some n ↦ bpt_find_leaf h n val
    ]

-- What `bpt_lookup` returns of the position and the code that the search in a leaf gives.
unfoldable pub record_at : List Record → ℕ × PosCc → Option Record
record_at n (position, pos_cc_eq) = get_elem? n position
record_at n (position, pos_cc_lt) = none
record_at n (position, pos_cc_gt) = none

-- With the value of `out_pos`.
unfoldable pub bpt_lookup : Bpt → ℕ → Option (ℕ × Option Record)
unfolding bpt_find_leaf bpn_bin_search record_at
bpt_lookup t val = elim (bpt_find_leaf t.height t.root val) [
  | none ↦ none
  | some n ↦ let found = bpn_bin_search 0 n val in some (found.0, record_at n found)
]

-- A root whose last key the merge of its children took gives way to the merged node.
unfoldable pub shrunk : (h : ℕ) → Option (Option Record × BpNode h) → Option (Option Record × Bpt)
shrunk h none = none
shrunk zero (some (r, n)) = some (r, record { height = 0; root = n })
shrunk (suc h) (some (r, ([], n ∷ subl))) = some (r, record { height = h; root = n })
shrunk (suc h) (some (r, ([], []))) = none
shrunk (suc h) (some (r, (k ∷ slot, subl))) =
    some (r, record { height = suc h; root = (k ∷ slot, subl) })

unfoldable pub bpt_po_delete : Bpt → ℕ → Option (Option Record × Bpt)
unfolding delete_from shrunk
bpt_po_delete t val = shrunk t.height (delete_from t.height t.root val)
