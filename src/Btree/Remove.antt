-- ===== src/Btree/Remove.antt =====
-- libtree/btree/btree.c: bt_remove, with the moves and the merge that leave room on the way.
pub mod Pair
pub mod Cut
pub mod Lend
pub mod Ends
pub mod Removed
pub mod Round
pub mod Below
pub mod Turn
pub mod Slot
pub mod Loop
pub mod Root
pub mod Roundtrip
use libalgo.Common.{
  ℕ, zero, suc, ◌+◌, ◌-◌, List, [], ◌∷◌, ◌++◌, Option, none, some, Bool, true, false, ltb, ◌==◌,
  ◌&&◌, if◌then◌else◌, length, get_or, get_elem?, set, take, drop,
}
use libalgo.Common.Int.{ℤ, pos, negsuc}
use libalgo.Btree.{
  BtNode, Bt, slot_of, is_at, bt_search_node_index, array_remove, relink, max_node_slots,
  min_degree,
}

abbrev pub min_node_slots : ℕ
min_node_slots = min_degree - 1

-- What the loops of `bt_remove` are about to remove: the first loop a value, and what follows the
-- label `loop` the slot with a number.
pub data Target : Type 0 where
  to_value : ℕ → Target
  to_slot : ℕ → Target

-- The last slot of the node that `bt_max_node` returns, and the first of that of `bt_min_node`.
unfoldable pub last_slot : (h : ℕ) → BtNode h → Option ℕ
last_slot zero slot = get_elem? slot (length slot - 1)
last_slot (suc h) (slot, links) = elim (get_elem? links (length slot)) [
  | none ↦ none
  | some n ↦ last_slot h n
]

unfoldable pub first_slot : (h : ℕ) → BtNode h → Option ℕ
first_slot zero slot = get_elem? slot 0
first_slot (suc h) (slot, links) = elim (get_elem? links 0) [
  | none ↦ none
  | some n ↦ first_slot h n
]

unfoldable pub bt_node_delete_key : List ℕ → ℕ → List ℕ
unfolding array_remove
bt_node_delete_key slot idx = array_remove slot idx

-- `links[i]->slot_len > MIN_NODE_SLOTS`.
unfoldable pub can_lend : (h : ℕ) → BtNode h → Bool
unfolding slot_of
can_lend h n = ltb min_node_slots (length (slot_of h n))

-- What `bt_move_to_left` makes of the links on the sides of the slot `key`, and of the slot.
unfoldable pub move_left : (h : ℕ) → BtNode h → ℕ → BtNode h → BtNode h × ℕ × BtNode h
move_left zero l key r = (l ++ (key ∷ []), get_or r 0 0, drop 1 r)
move_left (suc h) (l, ls) key (r, rs) =
    ((l ++ (key ∷ []), ls ++ take 1 rs), get_or r 0 0, (drop 1 r, drop 1 rs))

-- The same of `bt_move_to_right`.
unfoldable pub move_right : (h : ℕ) → BtNode h → ℕ → BtNode h → BtNode h × ℕ × BtNode h
move_right zero l key r = let n = length l - 1 in (take n l, get_or l n 0, key ∷ r)
move_right (suc h) (l, ls) key (r, rs) =
    let n = length l - 1 in
    ((take n l, take (length l) ls), get_or l n 0, (key ∷ r, drop (length l) ls ++ rs))

-- The node that `bt_merge_siblings` leaves of two that have MIN_NODE_SLOTS slots; `none` is BUG().
unfoldable pub joined : (h : ℕ) → BtNode h → ℕ → BtNode h → Option (BtNode h)
joined zero l key r =
    if ltb max_node_slots (length l + length r + 1)
    then none
    else some (take min_node_slots l ++ (key ∷ take min_node_slots r))
joined (suc h) (l, ls) key (r, rs) =
    if ltb max_node_slots (length l + length r + 1)
    then none
    else some (
      take min_node_slots l ++ (key ∷ take min_node_slots r),
      take min_degree ls ++ take min_degree rs,
    )

-- `bt_merge_siblings` of the links `idx` and `idx + 1`, and the rest of the loop below the node
-- that it returns.
unfoldable pub merge_siblings :
    (h : ℕ)
    → List ℕ
    → List (BtNode h)
    → ℕ
    → (BtNode h → Option (ℤ × BtNode h))
    → Option (ℤ × BtNode (suc h))
unfolding joined array_remove relink
merge_siblings h slot links idx go = elim (get_elem? links idx) [
  | none ↦ none
  | some n1 ↦ elim (get_elem? links (suc idx)) [
    | none ↦ none
    | some n2 ↦ elim (joined h n1 (get_or slot idx 0) n2) [
      | none ↦ none
      | some n ↦
          relink h (array_remove slot idx) (set (array_remove links (suc idx)) idx n) idx (go n)
    ]
  ]
]

-- The links `idx` and `idx + 1` after a move, and the rest of the loop below the link `index`.
unfoldable pub moved :
    (h : ℕ)
    → List ℕ
    → List (BtNode h)
    → ℕ
    → ℕ
    → BtNode h × ℕ × BtNode h
    → (BtNode h → Option (ℤ × BtNode h))
    → Option (ℤ × BtNode (suc h))
unfolding relink
moved h slot links idx index (l, key, r) go =
    let links' = set (set links idx l) (suc idx) r in
    elim (get_elem? links' index) [
      | none ↦ none
      | some n ↦ relink h (set slot idx key) links' index (go n)
    ]

-- The link `index` with the fewest slots, where no slot comes from its right: one comes from its
-- left, or it is merged.
unfoldable pub from_left :
    (h : ℕ)
    → List ℕ
    → List (BtNode h)
    → ℕ
    → BtNode h
    → (BtNode h → Option (ℤ × BtNode h))
    → Option (ℤ × BtNode (suc h))
unfolding can_lend move_right moved merge_siblings
from_left h slot links zero sub go = merge_siblings h slot links 0 go
from_left h slot links (suc i) sub go = elim (get_elem? links i) [
  | none ↦ none
  | some l ↦ elim (can_lend h l) [
    | true ↦ moved h slot links i (suc i) (move_right h l (get_or slot i 0) sub) go
    | false ↦ merge_siblings h slot links (if suc i == length slot then i else suc i) go
  ]
]

-- The loop goes on with the link `index`, once the node there has more than the fewest slots.
unfoldable pub remove_below :
    (h : ℕ)
    → List ℕ
    → List (BtNode h)
    → ℕ
    → (BtNode h → Option (ℤ × BtNode h))
    → Option (ℤ × BtNode (suc h))
unfolding can_lend move_left moved from_left relink
remove_below h slot links index go = elim (get_elem? links index) [
  | none ↦ none
  | some sub ↦ elim (can_lend h sub) [
    | true ↦ relink h slot links index (go sub)
    | false ↦ elim (ltb index (length slot)) [
      | false ↦ from_left h slot links index sub go
      | true ↦ elim (get_elem? links (suc index)) [
        | none ↦ none
        | some r ↦ elim (can_lend h r) [
          | true ↦ moved h slot links index index (move_left h sub (get_or slot index 0) r) go
          | false ↦ from_left h slot links index sub go
        ]
      ]
    ]
  ]
]

-- `return 0` after the inner call of `bt_remove` on the link `index`.
unfoldable pub replaced :
    (h : ℕ) → List ℕ → List (BtNode h) → ℕ → Option (ℤ × BtNode h) → Option (ℤ × BtNode (suc h))
replaced h slot links index none = none
replaced h slot links index (some (r, n)) = some (pos 0, (slot, set links index n))

-- What follows the label `loop` at a node with children.
unfoldable pub remove_slot :
    (h : ℕ)
    → List ℕ
    → List (BtNode h)
    → ℕ
    → (Target → BtNode h → Option (ℤ × BtNode h))
    → Option (ℤ × BtNode (suc h))
unfolding can_lend last_slot first_slot replaced merge_siblings
remove_slot h slot links idx go = elim (get_elem? links idx) [
  | none ↦ none
  | some l ↦ elim (can_lend h l) [
    | true ↦ elim (last_slot h l) [
      | none ↦ none
      | some key ↦ replaced h (set slot idx key) links idx (go (to_value key) l)
    ]
    | false ↦ elim (get_elem? links (suc idx)) [
      | none ↦ none
      | some r ↦ elim (can_lend h r) [
        | true ↦ elim (first_slot h r) [
          | none ↦ none
          | some key ↦ replaced h (set slot idx key) links (suc idx) (go (to_value key) r)
        ]
        | false ↦
            merge_siblings h slot links (if idx == length slot then idx - 1 else idx)
              (go (to_slot min_node_slots))
      ]
    ]
  ]
]

-- The loops of `bt_remove` from a node. The result is what it returns, and the node after it.
unfoldable pub remove_from : (h : ℕ) → Target → BtNode h → Option (ℤ × BtNode h)
unfolding bt_search_node_index is_at bt_node_delete_key remove_slot remove_below
remove_from zero (to_slot idx) slot = some (pos 0, bt_node_delete_key slot idx)
remove_from zero (to_value val) slot =
    let idx = bt_search_node_index slot val in
    if is_at slot idx val then some (pos 0, bt_node_delete_key slot idx) else some (negsuc 0, slot)
remove_from (suc h) (to_slot idx) (slot, links) =
    remove_slot h slot links idx (λ t n. remove_from h t n)
remove_from (suc h) (to_value val) (slot, links) =
    let idx = bt_search_node_index slot val in
    elim (is_at slot idx val) [
      | true ↦ remove_slot h slot links idx (λ t n. remove_from h t n)
      | false ↦ remove_below h slot links idx (λ n. remove_from h (to_value val) n)
    ]

-- A root that lost its last slot in a merge gives way to the merged node.
unfoldable pub lowered : (h : ℕ) → Option (ℤ × BtNode h) → Option (ℤ × Bt)
lowered h none = none
lowered zero (some (r, n)) = some (r, record { height = 0; root = n })
lowered (suc h) (some (r, ([], n ∷ links))) = some (r, record { height = h; root = n })
lowered (suc h) (some (r, ([], []))) = none
lowered (suc h) (some (r, (s ∷ slot, links))) =
    some (r, record { height = suc h; root = (s ∷ slot, links) })

unfoldable pub bt_remove : Bt → ℕ → Option (ℤ × Bt)
unfolding remove_from lowered
bt_remove t val = lowered t.height (remove_from t.height (to_value val) t.root)
