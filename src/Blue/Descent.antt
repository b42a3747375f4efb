-- ===== src/Blue/Descent.antt =====
-- The lookup through the levels of the tree, down to a leaf and in it.
use libalgo.Common.{
  ℕ, zero, suc, ◌<◌, ◌≤◌, ◌≡◌, refl, sym, ap, ◌∙◌, List, [], ◌∷◌, ◌++◌, true, false, Option, some,
  none, length, get_elem?, order, Order, lt, eq, gt, subst, arith,
}
use mathlib.Core.Option.{some-injective, none-ne-some}
use libalgo.Blue.{
  Comparison, below, same, above, Key, keycmp, getpos, geteqv, BlueNode, keys,
  btree_blue_lookup_node, lookup_levels, BlueTree, value_at, btree_blue_lookup,
}
use libalgo.Blue.Order.{is_below, is_same, Falls, keycmp-IsSteep}
use libalgo.Blue.Getpos.{Splits, getpos-Splits}
use libalgo.Blue.Geteqv.{Finds, geteqv-Finds, above-not_same}
use libalgo.Blue.Lookup.{
  Slots, find_slot, NotBelow, AllBelow, find_slot-before, find_slot-none, find_slot-after,
}

module _ {C : Type 0} (f : C → Slots) where
  -- The slots at the lowest level below a list of slots.
  abbrev pub gathered : List (Key × C) → Slots
  gathered [] = []
  gathered (s ∷ slots) = f s.1 ++ gathered slots

module _ {C : Type 0} (f : C → Slots) (P : C → Type 0) (n : ℕ) where
  -- Each slot's key is at most the keys below it, and above those of the slots that follow.
  abbrev pub Layered : List (Key × C) → Type 0
  Layered [] = Unit
  Layered (s ∷ slots) =
      P s.1
      × (length s.0 ≡ n)
      × NotBelow n s.0 (f s.1)
      × AllBelow n s.0 (gathered f slots)
      × Layered slots

  -- What the slot at a position leads to.
  abbrev pub below_at : Key → Option (Key × C) → Option ℕ
  below_at key none = none
  below_at key (some s) = find_slot n (f s.1) key

  pub Layered-get :
      (slots : List (Key × C)) (p : ℕ) (s : Key × C)
      → get_elem? slots p ≡ some s
      → Layered slots
      → P s.1
  Layered-get [] p s e o = absurd (none-ne-some s e)
  Layered-get (x ∷ slots) zero s e o = subst (λ z. P z.1) (some-injective x s e) o.0
  Layered-get (x ∷ slots) (suc p) s e o = Layered-get slots p s e o.4

  pub gathered-find :
      (slots : List (Key × C)) (key : Key) (p : ℕ)
      → length key ≡ n
      → Layered slots
      → Splits (length (keys slots)) (keycmp n (keys slots) key) p
      → find_slot n (gathered f slots) key ≡ below_at key (get_elem? slots p)
  unfolding find_slot keycmp
  gathered-find [] key p l o s = refl
  gathered-find (x ∷ slots) key zero l o s =
      find_slot-after n key (f x.1) (gathered f slots)
        (find_slot-none n x.0 key (gathered f slots) o.1 l o.3 (s.2 (omega arith)))
  gathered-find (x ∷ slots) key (suc p) l o s =
      find_slot-before n x.0 key (f x.1) (gathered f slots) o.1 l o.2 (s.1 0 (omega arith))
      ∙ gathered-find slots key p l o.4
          (omega (arith, s.0), λ j m. s.1 (suc j) (omega (arith, m)), λ m. s.2 (omega (arith, m)))

abbrev pub entries : (h : ℕ) → BlueNode h → Slots
entries zero node = node
entries (suc h) node = gathered (entries h) node

-- The keys of every node fall, and those of the levels above fit the ones below.
abbrev pub IsBlue : ℕ → (h : ℕ) → BlueNode h → Type 0
IsBlue n zero node = Falls n (keys node)
IsBlue n (suc h) node = Falls n (keys node) × Layered (entries h) (IsBlue n h) n node

leaf-find :
    (n : ℕ) (es : Slots) (key : Key) (p : ℕ)
    → p ≤ length (keys es)
    → ((j : ℕ) → j < p → is_same (keycmp n (keys es) key j) ≡ false)
    → (p < length (keys es) → is_same (keycmp n (keys es) key p) ≡ true)
    → find_slot n es key ≡ value_at es p
unfolding find_slot keycmp value_at
leaf-find n [] key p l f g = refl
leaf-find n (e ∷ es) key zero l f g = rw (g (omega arith)) refl
leaf-find n (e ∷ es) key (suc p) l f g = rw (f 0 (omega arith)) (
    leaf-find n es key p (omega (arith, l)) (λ j m. f (suc j) (omega (arith, m)))
      (λ m. g (omega (arith, m))))

same-not_below : (c : Comparison) → is_same c ≡ true → is_below c ≡ false
same-not_below below e = sym e
same-not_below same e = refl
same-not_below above e = refl

lookup_none :
    (n h : ℕ) (node : BlueNode (suc h)) (key : Key)
    → get_elem? node (getpos n (keys node) key) ≡ none
    → btree_blue_lookup n (suc (suc h)) node key ≡ none
unfolding btree_blue_lookup btree_blue_lookup_node lookup_levels
lookup_none n h node key e = rw (btree_blue_lookup, btree_blue_lookup_node, lookup_levels, e) refl

lookup_some :
    (n h : ℕ) (node : BlueNode (suc h)) (key : Key) (x : Key × BlueNode h)
    → get_elem? node (getpos n (keys node) key) ≡ some x
    → btree_blue_lookup n (suc (suc h)) node key ≡ btree_blue_lookup n (suc h) (x.1) key
unfolding btree_blue_lookup btree_blue_lookup_node lookup_levels
lookup_some n h node key x e = rw (btree_blue_lookup, btree_blue_lookup_node, lookup_levels, e) refl

node-find_slot :
    (keylen h : ℕ) (node : BlueNode h) (key : Key)
    → length key ≡ keylen
    → IsBlue keylen h node
    → btree_blue_lookup keylen (suc h) node key ≡ find_slot keylen (entries h node) key
unfolding btree_blue_lookup btree_blue_lookup_node lookup_levels
node-find_slot n zero node key l b = sym (
    leaf-find n node key (geteqv n (keys node) key) (s.0)
      (λ j m. earlier j m (order (geteqv n (keys node) key) (length (keys node)))) s.1)
  where
    s : Finds (length (keys node)) (keycmp n (keys node) key) (geteqv n (keys node) key)
    s = geteqv-Finds n (keys node) key l b

    earlier :
        (j : ℕ)
        → j < geteqv n (keys node) key
        → Order (geteqv n (keys node) key) (length (keys node))
        → is_same (keycmp n (keys node) key j) ≡ false
    earlier j m (lt o) = above-not_same (keycmp n (keys node) key j) (
        keycmp-IsSteep n (keys node) key l b j (geteqv n (keys node) key) m o
          (same-not_below (keycmp n (keys node) key (geteqv n (keys node) key)) (s.1 o)))
    earlier j m (eq o) = s.2 o j (omega (arith, m, o))
    earlier j m (gt o) = absurd (omega (arith, o, s.0))
node-find_slot n (suc h) node key l b =
    go (get_elem? node p) refl (λ c q. node-find_slot n h c key l q)
  where
    p : ℕ
    p = getpos n (keys node) key

    found :
        find_slot n (gathered (entries h) node) key
        ≡ below_at (entries h) (IsBlue n h) n key (get_elem? node p)
    found =
        gathered-find (entries h) (IsBlue n h) n node key p l b.1
          (getpos-Splits n (keys node) key l b.0)

    go :
        (o : Option (Key × BlueNode h))
        → get_elem? node p ≡ o
        → ((c : BlueNode h)
            → IsBlue n h c
            → btree_blue_lookup n (suc h) c key ≡ find_slot n (entries h c) key)
        → btree_blue_lookup n (suc (suc h)) node key ≡ find_slot n (gathered (entries h) node) key
    go none e rec =
        lookup_none n h node key e ∙ sym (found ∙ ap (below_at (entries h) (IsBlue n h) n key) e)
    go (some x) e rec =
        lookup_some n h node key x e
        ∙ rec (x.1) (Layered-get (entries h) (IsBlue n h) n node p x e b.1)
        ∙ sym (found ∙ ap (below_at (entries h) (IsBlue n h) n key) e)

-- The slots of the leaves, from left to right.
abbrev pub slots_of : (height : ℕ) → BlueTree height → Slots
slots_of zero tree = []
slots_of (suc h) tree = entries h tree

abbrev pub IsBlueTree : ℕ → (height : ℕ) → BlueTree height → Type 0
IsBlueTree keylen zero tree = Unit
IsBlueTree keylen (suc h) tree = IsBlue keylen h tree

-- On a tree in order, with keys of `keylen` words, btree_blue_lookup returns the value of the slot at
-- the lowest level that has the key, NULL where there is none.
pub btree_blue_lookup-find_slot :
    (keylen height : ℕ) (tree : BlueTree height) (key : Key)
    → length key ≡ keylen
    → IsBlueTree keylen height tree
    → btree_blue_lookup keylen height tree key ≡ find_slot keylen (slots_of height tree) key
unfolding btree_blue_lookup btree_blue_lookup_node find_slot
btree_blue_lookup-find_slot n zero tree key l b = refl
btree_blue_lookup-find_slot n (suc h) tree key l b = node-find_slot n h tree key l b
