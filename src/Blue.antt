-- ===== src/Blue.antt =====
-- libtree/btree_blue/btree_blue.c: the search for a key in a node, whose keys fall, and in the tree.
-- A key is the list of its words, a node the list of its slots in use. The values are addresses of
-- data, which are not NULL.
pub mod Order
pub mod Getpos
pub mod Geteqv
pub mod Lookup
pub mod Descent
use libalgo.Common.{
  ℕ, zero, suc, ◌+◌, ◌*◌, ◌/◌, ◌%◌, List, [], ◌∷◌, Bool, true, false, ltb, if◌then◌else◌, length,
  get_or, get_elem?, Option, some, none,
}

-- The -1, 0 and 1 of `longcmp`.
pub data Comparison : Type 0 where
  below same above : Comparison

abbrev pub Key : Type 0
Key = List ℕ

-- A word beyond the end of a list is not compared.
unfoldable pub longcmp : ℕ → Key → Key → Comparison
longcmp zero l1 l2 = same
longcmp (suc n) [] l2 = same
longcmp (suc n) (x ∷ l1) [] = same
longcmp (suc n) (x ∷ l1) (y ∷ l2) =
    if ltb x y then below else if ltb y x then above else longcmp n l1 l2

-- `keylen` stands for the field of the head.
unfoldable pub keycmp : ℕ → List Key → Key → ℕ → Comparison
unfolding longcmp
keycmp keylen keys key position = longcmp keylen (get_or keys position []) key

-- `for (i = 0; i < k; i++)` from the position `p` on, up to a comparison that is not positive.
unfoldable pub scan_slots : ℕ → (ℕ → Comparison) → ℕ → ℕ
scan_slots zero cmp p = p
scan_slots (suc k) cmp p = elim (cmp p) [ below ↦ p | same ↦ p | above ↦ scan_slots k cmp (suc p) ]

-- The loop of `getpos` over the last slots of the `q` blocks of eight from the block `b` on, and
-- the `r` slots that are left.
unfoldable pub getpos_blocks : ℕ → ℕ → (ℕ → Comparison) → ℕ → ℕ
unfolding scan_slots
getpos_blocks zero r cmp b = scan_slots r cmp (b * 8)
getpos_blocks (suc q) r cmp b = elim (cmp (b * 8 + 7)) [
  | below ↦ scan_slots 7 cmp (b * 8)
  | same ↦ b * 8 + 7
  | above ↦ getpos_blocks q r cmp (suc b)
]

unfoldable pub getpos : ℕ → List Key → Key → ℕ
unfolding getpos_blocks keycmp
getpos keylen keys key =
    let nr = length keys in getpos_blocks (nr / 8) (nr % 8) (keycmp keylen keys key) 0

-- The same for `geteqv`, up to a comparison that is 0.
unfoldable pub find_eqv : ℕ → (ℕ → Comparison) → ℕ → ℕ → ℕ
find_eqv zero cmp p nr = nr
find_eqv (suc k) cmp p nr = elim (cmp p) [
  | below ↦ find_eqv k cmp (suc p) nr
  | same ↦ p
  | above ↦ find_eqv k cmp (suc p) nr
]

unfoldable pub geteqv_blocks : ℕ → ℕ → (ℕ → Comparison) → ℕ → ℕ → ℕ
unfolding find_eqv
geteqv_blocks zero r cmp b nr = find_eqv r cmp (b * 8) nr
geteqv_blocks (suc q) r cmp b nr = elim (cmp (b * 8 + 7)) [
  | below ↦ find_eqv 7 cmp (b * 8) nr
  | same ↦ b * 8 + 7
  | above ↦ geteqv_blocks q r cmp (suc b) nr
]

unfoldable pub geteqv : ℕ → List Key → Key → ℕ
unfolding geteqv_blocks keycmp
geteqv keylen keys key =
    let nr = length keys in geteqv_blocks (nr / 8) (nr % 8) (keycmp keylen keys key) 0 nr

-- A node at the lowest level is the list of its slots, a key with a value each; a node above it
-- has a node for each value.
abbrev pub BlueNode : ℕ → Type 0
BlueNode zero = List (Key × ℕ)
BlueNode (suc h) = List (Key × BlueNode h)

abbrev pub keys {ℓ} : {A : Type ℓ} → List (Key × A) → List Key
keys [] = []
keys (s ∷ slots) = s.0 ∷ keys slots

-- What `head->node` leads to in a tree of the given `head->height`; a tree of height 0 has no node.
abbrev pub BlueTree : ℕ → Type 0
BlueTree zero = Unit
BlueTree (suc h) = BlueNode h

-- The loop of `btree_blue_lookup_node`; `none` is NULL.
unfoldable pub lookup_levels : ℕ → (h : ℕ) → BlueNode h → Key → Option (List (Key × ℕ))
lookup_levels keylen zero node key = some node
lookup_levels keylen (suc h) node key = elim (get_elem? node (getpos keylen (keys node) key)) [
  | none ↦ none
  | some s ↦ lookup_levels keylen h (s.1) key
]

unfoldable pub btree_blue_lookup_node :
    ℕ → (height : ℕ) → BlueTree height → Key → Option (List (Key × ℕ))
unfolding lookup_levels
btree_blue_lookup_node keylen zero tree key = none
btree_blue_lookup_node keylen (suc h) tree key = lookup_levels keylen h tree key

unfoldable pub value_at : List (Key × ℕ) → ℕ → Option ℕ
value_at node position = elim (get_elem? node position) [ none ↦ none | some s ↦ some s.1 ]

unfoldable pub btree_blue_lookup : ℕ → (height : ℕ) → BlueTree height → Key → Option ℕ
unfolding btree_blue_lookup_node value_at
btree_blue_lookup keylen height tree key = elim (btree_blue_lookup_node keylen height tree key) [
  | none ↦ none
  | some leaf ↦ value_at leaf (geteqv keylen (keys leaf) key)
]
