-- ===== src/Btree.antt =====
-- libtree/btree/btree.c: the B-tree with preemptive splits. A node is the list of its slots in use,
-- with the list of its links where it is not a leaf, and has the height of its subtree in its type:
-- the operations add a level only above the root. Parent links, which only the splits write, are
-- left out, and so are the slots beyond slot_len.
pub mod Index
pub mod Arrays
pub mod Weave
pub mod Gap
pub mod Items
pub mod Spot
pub mod Split
pub mod Insert
pub mod Root
pub mod Search
pub mod Remove
use libalgo.Common.{
  ℕ, zero, suc, ◌+◌, ◌-◌, ◌*◌, ◌/◌, List, [], ◌∷◌, ◌++◌, Option, none, some, Bool, true, false, ltb,
  ◌==◌, ◌&&◌, if◌then◌else◌, length, get_or, get_elem?, set, take, drop,
}
use libalgo.Common.Int.{ℤ, pos, negsuc}

abbrev pub min_degree : ℕ
min_degree = 16

abbrev pub max_node_slots : ℕ
max_node_slots = 2 * min_degree - 1

abbrev pub BtNode : ℕ → Type 0
BtNode zero = List ℕ
BtNode (suc h) = List ℕ × List (BtNode h)

unfoldable pub slot_of : (h : ℕ) → BtNode h → List ℕ
slot_of zero n = n
slot_of (suc h) n = n.0

-- The loop of `bt_search_node_index`, with `lo + 1` for `lo`.
unfoldable pub index_loop : ℕ → List ℕ → ℕ → ℕ → ℕ → ℕ
index_loop zero slot key lo hi = hi
index_loop (suc fuel) slot key lo hi =
    let mid = (lo + hi - 1) / 2 in
    elim (ltb lo hi) [
      | false ↦ hi
      | true ↦ elim (get_or slot mid 0 == key) [
        | true ↦ mid
        | false ↦ elim (ltb (get_or slot mid 0) key) [
          | true ↦ index_loop fuel slot key (suc mid) hi
          | false ↦ index_loop fuel slot key lo mid
        ]
      ]
    ]

unfoldable pub bt_search_node_index : List ℕ → ℕ → ℕ
unfolding index_loop
bt_search_node_index slot key = index_loop (length slot) slot key 0 (length slot)

-- `index < n->slot_len && n->slot[index] == val`.
unfoldable pub is_at : List ℕ → ℕ → ℕ → Bool
is_at slot index val = ltb index (length slot) && get_or slot index 0 == val

unfoldable pub is_bt_node_full : List ℕ → Bool
is_bt_node_full slot = length slot == max_node_slots

-- ARRAY_INSERT.
unfoldable pub array_insert {ℓ} : {A : Type ℓ} → List A → ℕ → A → List A
array_insert xs i x = take i xs ++ x ∷ drop i xs

-- ARRAY_MOVE of the entries behind `i` by one to the left.
unfoldable pub array_remove {ℓ} : {A : Type ℓ} → List A → ℕ → List A
array_remove xs i = take i xs ++ drop (suc i) xs

-- `none` is BUG().
unfoldable pub bt_insert_to_node : List ℕ → ℕ → ℕ → Option (List ℕ)
unfolding array_insert
bt_insert_to_node slot index val =
    if ltb index max_node_slots then some (array_insert slot index val) else none

-- The two halves of a full child and the slot between them.
unfoldable pub halves : (h : ℕ) → BtNode h → BtNode h × ℕ × BtNode h
halves zero slot = (
  take (min_degree - 1) slot,
  get_or slot (min_degree - 1) 0,
  take (min_degree - 1) (drop min_degree slot),
)
halves (suc h) (slot, links) = (
  (take (min_degree - 1) slot, take min_degree links),
  get_or slot (min_degree - 1) 0,
  (take (min_degree - 1) (drop min_degree slot), take min_degree (drop min_degree links)),
)

-- `bt_split_child_node` of the child at `pindex` of the parent with the given slots and links.
unfoldable pub bt_split_child_node :
    (h : ℕ) → List ℕ → List (BtNode h) → ℕ → BtNode h → List ℕ × List (BtNode h)
unfolding halves array_insert
bt_split_child_node h slot links pindex child =
    let (left, key, right) = halves h child in
    (array_insert slot pindex key, array_insert (set links pindex left) (suc pindex) right)

-- The result of the loop below the link at `index`, put back in its place.
unfoldable pub relink :
    (h : ℕ) → List ℕ → List (BtNode h) → ℕ → Option (ℤ × BtNode h) → Option (ℤ × BtNode (suc h))
relink h slot links index none = none
relink h slot links index (some (r, n)) = some (r, (slot, set links index n))

-- A round of the loop of `bt_insert` at a node with children, where `bt_search_node_index` has
-- found `index`; `go` is the rest of the loop. The result is what the call returns, and the node
-- after it; `none` is a dereference of NULL.
unfoldable pub insert_round :
    (h : ℕ)
    → List ℕ
    → List (BtNode h)
    → ℕ
    → ℕ
    → (BtNode h → Option (ℤ × BtNode h))
    → Option (ℤ × BtNode (suc h))
unfolding is_at is_bt_node_full bt_split_child_node relink slot_of
insert_round h slot links index val go = elim (is_at slot index val) [
  | true ↦ some (negsuc 0, (slot, links))
  | false ↦ elim (get_elem? links index) [
    | none ↦ none
    | some child ↦ elim (is_bt_node_full (slot_of h child)) [
      | false ↦ relink h slot links index (go child)
      | true ↦
          let (slot', links') = bt_split_child_node h slot links index child in
          elim (get_or slot' index 0 == val) [
            | true ↦ some (negsuc 0, (slot', links'))
            | false ↦
                let index' = if ltb (get_or slot' index 0) val then suc index else index in
                elim (get_elem? links' index') [
                  | none ↦ none
                  | some child' ↦ relink h slot' links' index' (go child')
                ]
          ]
    ]
  ]
]

-- The loop of `bt_insert` from a node that is not full.
unfoldable pub insert_from : (h : ℕ) → BtNode h → ℕ → Option (ℤ × BtNode h)
unfolding bt_search_node_index is_at insert_round bt_insert_to_node
insert_from zero slot val =
    let index = bt_search_node_index slot val in
    if is_at slot index val
    then some (negsuc 0, slot)
    else elim (bt_insert_to_node slot index val) [ none ↦ none | some n ↦ some (pos 0, n) ]
insert_from (suc h) (slot, links) val =
    insert_round h slot links (bt_search_node_index slot val) val (λ n. insert_from h n val)

-- The node and the position that `bt_search` returns.
pub record Found : Type 0 where
  pub height : ℕ
  pub node : BtNode height
  pub position : ℕ

unfoldable pub bt_search : (h : ℕ) → BtNode h → ℕ → Option Found
unfolding bt_search_node_index is_at
bt_search zero slot val =
    let index = bt_search_node_index slot val in
    if is_at slot index val
    then some (record { height = 0; node = slot; position = index })
    else none
bt_search (suc h) (slot, links) val =
    let index = bt_search_node_index slot val in
    elim (is_at slot index val) [
      | true ↦ some (record { height = suc h; node = (slot, links); position = index })
      | false ↦ elim (get_elem? links index) [ none ↦ none | some child ↦ bt_search h child val ]
    ]

pub record Bt : Type 0 where
  pub height : ℕ
  pub root : BtNode height

-- `bt_split_root_node`, where the root is full.
unfoldable pub grown : Bt → Bt
unfolding bt_split_child_node is_bt_node_full slot_of
grown t = elim (is_bt_node_full (slot_of t.height t.root)) [
  | true ↦ record {
    height = suc t.height;
    root = bt_split_child_node t.height [] (t.root ∷ []) 0 t.root;
  }
  | false ↦ t
]

unfoldable pub bt_insert : Bt → ℕ → Option (ℤ × Bt)
unfolding grown insert_from
bt_insert t val =
    let u = grown t in
    elim (insert_from u.height u.root val) [
      | none ↦ none
      | some (r, n) ↦ some (r, record { height = u.height; root = n })
    ]
