-- ===== src/Bplus.antt =====
-- libtree/b+tree/b+tree.c, with b+tree.h and array.h: the B+ tree with preemptive splits and merges.
-- A record is its key with its address. A leaf is the list of its records; an internal node is
-- the list of its keys with the list of its links, and has the height of its subtree in its type.
-- Parent links, parent_key_idx and the list of the leaves, which the leaves of the tree in order
-- are, have no place in the model, nor has the check of the node's geometry in the search.
pub mod Chain
pub mod Focus
pub mod Gap
pub mod Leaf
pub mod Node
pub mod Insert
pub mod Delete
pub mod Root
use libalgo.Common.{
  ℕ, zero, suc, ◌+◌, ◌-◌, ◌*◌, ◌/◌, ◌%◌, List, [], ◌∷◌, ◌++◌, map, Option, none, some, Bool, true,
  false, ltb, leb, ◌==◌, ◌&&◌, ◌||◌, not, if◌then◌else◌, length, get_or, get_elem?, set, take, drop,
}
use libalgo.Common.Int.{ℤ, pos, negsuc}
use libalgo.Btree.{array_insert, array_remove}
use libalgo.Vm.Search
use libalgo.Vm.Search.{PosCc, pos_cc_eq, pos_cc_lt, pos_cc_gt}

abbrev pub bpt_order : ℕ
bpt_order = 4

abbrev pub max_entries : ℕ
max_entries = 3

abbrev pub max_children : ℕ
max_children = bpt_order

-- MIN_ENTRIES_EXTER and MIN_ENTRIES_INTER.
abbrev pub min_entries : ℕ
min_entries = 1

abbrev pub Record : Type 0
Record = ℕ × ℕ

abbrev pub BpNode : ℕ → Type 0
BpNode zero = List Record
BpNode (suc h) = List ℕ × List (BpNode h)

-- Halve an index with adjustment for odd numbers.
unfoldable pub split : ℕ → ℕ
split x = x / 2 + x % 2

-- BUG_ON(pos >= MAX_ENTRIES) and BUG_ON(pos >= MAX_CHILDREN) answer `none`.
unfoldable pub slot_insert {ℓ} : {A : Type ℓ} → List A → ℕ → A → Option (List A)
unfolding array_insert
slot_insert xs i x = if ltb i max_entries then some (array_insert xs i x) else none

unfoldable pub subl_insert {ℓ} : {A : Type ℓ} → List A → ℕ → A → Option (List A)
unfolding array_insert
subl_insert xs i x = if ltb i max_children then some (array_insert xs i x) else none

-- bpn_get_key at each position.
unfoldable pub keys_of : (h : ℕ) → BpNode h → List ℕ
keys_of zero n = map (λ r. r.0) n
keys_of (suc h) n = n.0

unfoldable pub entries : (h : ℕ) → BpNode h → ℕ
entries zero n = length n
entries (suc h) n = length n.0

unfoldable pub is_bpn_full : (h : ℕ) → BpNode h → Bool
unfolding entries
is_bpn_full h n = entries h n == max_entries

unfoldable pub is_bpn_gt_min : (h : ℕ) → BpNode h → Bool
unfolding entries
is_bpn_gt_min h n = ltb min_entries (entries h n)

unfoldable pub bpn_bin_search : (h : ℕ) → BpNode h → ℕ → ℕ × PosCc
unfolding keys_of Search.bpn_bin_search
bpn_bin_search h n key = Search.bpn_bin_search (keys_of h n) key

-- The link to follow: right of an equal key.
unfoldable pub followed : ℕ × PosCc → ℕ
followed (position, pos_cc_eq) = suc position
followed (position, pos_cc_lt) = position
followed (position, pos_cc_gt) = position

-- The result is what the function returns, and the leaf after it.
unfoldable pub bpn_insert_to_leaf : List Record → ℕ → Record → Option (ℤ × List Record)
unfolding keys_of slot_insert
bpn_insert_to_leaf n position r =
    if ltb position max_entries
    then if ltb position (length n) && get_or (keys_of 0 n) position 0 == r.0
      then some (negsuc 0, n)
      else elim (slot_insert n position r) [ none ↦ none | some n' ↦ some (pos 0, n') ]
    else none

-- NULL is `none` in the pair.
unfoldable pub bpn_remove_from_leaf : List Record → ℕ → ℕ → Option (Option Record × List Record)
unfolding keys_of array_remove
bpn_remove_from_leaf n position key =
    if ltb position max_entries
    then if get_or (keys_of 0 n) position 0 == key
      then some (get_elem? n position, array_remove n position)
      else some (none, n)
    else none

-- `bpn_split_external` and `bpn_split_internal`, with the key for the parent.
unfoldable pub bpn_halves : (h : ℕ) → BpNode h → BpNode h × ℕ × BpNode h
unfolding split keys_of
bpn_halves zero n =
    let r_entries = split max_entries in
    let l_entries = max_entries - r_entries in
    let right = take r_entries (drop l_entries n) in
    (take l_entries n, get_or (keys_of 0 right) 0 0, right)
bpn_halves (suc h) (slot, subl) =
    let r_entries = split max_entries - 1 in
    let l_entries = max_entries - (r_entries + 1) in
    (
      (take l_entries slot, take (l_entries + 1) subl),
      get_or slot l_entries 0,
      (
        take r_entries (drop (l_entries + 1) slot),
        take (r_entries + 1) (drop (l_entries + 1) subl),
      ),
    )

-- `bpn_split` of the child `n` at `pindex` of the parent with the given slots and links.
unfoldable pub bpn_split :
    (h : ℕ) → List ℕ → List (BpNode h) → ℕ → BpNode h → Option (BpNode (suc h))
unfolding bpn_halves slot_insert subl_insert
bpn_split h slot subl pindex n =
    let (left, split_key, right) = bpn_halves h n in
    elim (slot_insert slot pindex split_key) [
      | none ↦ none
      | some slot' ↦ elim (subl_insert (set subl pindex left) (suc pindex) right) [
        | none ↦ none
        | some subl' ↦ some (slot', subl')
      ]
    ]

-- What comes of the loop below the link at `index`, put back in its place.
unfoldable pub relink {κ} :
    {R : Type κ} (h : ℕ)
    → List ℕ
    → List (BpNode h)
    → ℕ
    → Option (R × BpNode h)
    → Option (R × BpNode (suc h))
relink h slot subl index none = none
relink h slot subl index (some (r, n)) = some (r, (slot, set subl index n))

-- A round of the loop of `bpt_insert_non_full` at an internal node, where the search has found
-- `found`; `go` is the rest of the loop. `none` is BUG() or a dereference of NULL.
unfoldable pub insert_round :
    (h : ℕ)
    → List ℕ
    → List (BpNode h)
    → ℕ × PosCc
    → ℕ
    → (BpNode h → Option (ℤ × BpNode h))
    → Option (ℤ × BpNode (suc h))
unfolding followed is_bpn_full bpn_split relink
insert_round h slot subl found key go =
    let index = followed found in
    elim (get_elem? subl index) [
      | none ↦ none
      | some n ↦ elim (is_bpn_full h n) [
        | false ↦ relink h slot subl index (go n)
        | true ↦ elim (bpn_split h slot subl index n) [
          | none ↦ none
          | some (slot', subl') ↦
              let index' = if leb (get_or slot' found.0 0) key then suc found.0 else index in
              elim (get_elem? subl' index') [
                | none ↦ none
                | some n' ↦ relink h slot' subl' index' (go n')
              ]
        ]
      ]
    ]

-- The loop of `bpt_insert_non_full` from the node `n`.
unfoldable pub insert_from : (h : ℕ) → BpNode h → Record → Option (ℤ × BpNode h)
unfolding bpn_bin_search bpn_insert_to_leaf insert_round
insert_from zero n r = bpn_insert_to_leaf n (bpn_bin_search 0 n r.0).0 r
insert_from (suc h) (slot, subl) r =
    insert_round h slot subl (bpn_bin_search (suc h) (slot, subl) r.0) r.0 (λ n. insert_from h n r)
