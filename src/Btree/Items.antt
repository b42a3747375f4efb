-- ===== src/Btree/Items.antt =====
-- The items of a B-tree node in order, the shape of a node, and the two halves of a full one.
use libalgo.Common.{
  ℕ, zero, suc, ◌-◌, ◌<◌, ◌≤◌, ◌≡◌, refl, sym, ap, ◌∙◌, List, [], ◌∷◌, ◌++◌, map, none, some, true,
  false, ltb, length, get_or, take, drop, take_all, arith, Bool-cases, inl, inr,
}
use libalgo.Tree.Sorted.{
  Above, IsSorted, find, insert, find-Above, Above-lt, insert_left, insert_right,
}
use libalgo.Btree.{BtNode, slot_of, halves, is_at, array_insert, max_node_slots, min_degree}
use libalgo.Btree.Index.{rank, Greater, IsRising}
use libalgo.Btree.Arrays.{
  Every, length-take, length-drop, Every-take, Every-drop, length-map, map-take, map-drop,
}
use libalgo.Btree.Weave.{Items, tag, weave, weave-cut}

abbrev pub items : (h : ℕ) → BtNode h → Items
items zero slot = tag slot
items (suc h) n = weave n.0 (map (items h) n.1)

-- At least `low` and at most 31 slots, one link more than slots, and at least 15 slots below.
abbrev pub Shape : ℕ → (h : ℕ) → BtNode h → Type 0
Shape low zero slot = (low ≤ length slot) × (length slot ≤ max_node_slots)
Shape low (suc h) n =
    (low ≤ length n.0)
    × (length n.0 ≤ max_node_slots)
    × (length n.1 ≡ suc (length n.0))
    × Every (Shape (min_degree - 1) h) n.1

pub tag-IsRising : (ss : List ℕ) → IsSorted (tag ss) → IsRising ss
tag-IsRising [] w = tt
tag-IsRising (s ∷ ss) w = (greater ss w.0, tag-IsRising ss w.1)
  where
    greater : (xs : List ℕ) → Above s (tag xs) → Greater s xs
    greater [] a = tt
    greater (x ∷ xs) a = (a.0, greater xs a.1)

-- A key in a leaf.
pub tag-present :
    (v : ℕ) (ss : List ℕ)
    → is_at ss (rank v ss) v ≡ true
    → IsSorted (tag ss)
    → (insert v tt (tag ss) ≡ tag ss) × (find v (tag ss) ≡ some tt)
unfolding rank is_at insert find
tag-present v [] n w = absurd (ground (arith, n))
tag-present v (s ∷ ss) n w = elim (Bool-cases (ltb s v)) [
  | inl h ↦
      let u = tag-present v ss (ground (arith, n, h)) w.1 in
      (ground (arith, h, u.0), ground (arith, h, u.1))
  | inr h ↦ (ground (arith, n, h), ground (arith, n, h))
]

-- A key that is not in a leaf.
pub tag-absent :
    (v : ℕ) (ss : List ℕ)
    → is_at ss (rank v ss) v ≡ false
    → IsSorted (tag ss)
    → (tag (array_insert ss (rank v ss) v) ≡ insert v tt (tag ss)) × (find v (tag ss) ≡ none)
unfolding rank is_at insert find array_insert
tag-absent v [] n w = (refl, refl)
tag-absent v (s ∷ ss) n w = elim (Bool-cases (ltb s v)) [
  | inl h ↦
      let u = tag-absent v ss (ground (arith, n, h)) w.1 in
      (
        rw h (
            ap (λ z. (s, tt) ∷ z) (u.0)
            ∙ sym (insert_right v (s, tt) (tag ss) tt [] (ground arith) tt)),
        ground (arith, h, u.1),
      )
  | inr h ↦
      let l : v < s = ground (arith, n, h) in
      (
        rw h (sym (insert_left v (s, tt) (tag ss) tt [] l)),
        ground (arith, h, l, find-Above v (tag ss) (Above-lt v s (tag ss) l w.0)),
      )
]

pub tag-cut :
    (n : ℕ) (ss : List ℕ)
    → n < length ss
    → tag ss ≡ tag (take n ss) ++ ((get_or ss n 0, tt) ∷ tag (drop (suc n) ss))
tag-cut n [] l = absurd (omega (arith, l))
tag-cut zero (s ∷ ss) l = refl
tag-cut (suc n) (s ∷ ss) l = ap (λ z. (s, tt) ∷ z) (tag-cut n ss (omega (arith, l)))

-- What `halves` makes of a node: two nodes with the fewest slots and a slot between them, which
-- hold the items of the node.
abbrev pub Halved : (h : ℕ) → BtNode h → BtNode h × ℕ × BtNode h → Type 0
Halved h n (a, k, b) =
    (items h n ≡ items h a ++ ((k, tt) ∷ items h b))
    × Shape (min_degree - 1) h a
    × Shape (min_degree - 1) h b
    × (length (slot_of h a) ≡ min_degree - 1)
    × (length (slot_of h b) ≡ min_degree - 1)

pub halves-Halved :
    (low h : ℕ) (n : BtNode h)
    → Shape low h n
    → length (slot_of h n) ≡ max_node_slots
    → Halved h n (halves h n)
unfolding halves slot_of
halves-Halved low zero slot p full = (
  tag-cut 15 slot (omega (arith, full))
      ∙ ap (λ z. tag (take 15 slot) ++ ((get_or slot 15 0, tt) ∷ tag z)) (sym all),
  (omega (arith, la), omega (arith, la)),
  (omega (arith, lb), omega (arith, lb)),
  la,
  lb,
)
  where
    la : length (take 15 slot) ≡ 15
    la = length-take 15 slot (omega (arith, full))

    rest : length (drop 16 slot) ≡ 15
    rest = omega (arith, full, length-drop 16 slot)

    all : take 15 (drop 16 slot) ≡ drop 16 slot
    all = take_all 15 (drop 16 slot) (omega (arith, rest))

    lb : length (take 15 (drop 16 slot)) ≡ 15
    lb = ap length all ∙ rest
halves-Halved low (suc h) (slot, links) p full = (
  weave-cut 15 slot (map f links) (length-map f links ∙ p.2) (omega (arith, full))
      ∙ ap (λ z. weave (take 15 slot) z ++ ((k, tt) ∷ weave (drop 16 slot) (drop 16 (map f links))))
          (sym (map-take f 16 links))
      ∙ ap (λ z. items (suc h) left ++ ((k, tt) ∷ weave z (drop 16 (map f links)))) (sym all)
      ∙ ap (λ z. items (suc h) left ++ ((k, tt) ∷ weave (take 15 (drop 16 slot)) z))
          (sym (map-drop f 16 links) ∙ ap (λ z. map f z) (sym all_links)),
  (
    omega (arith, la),
    omega (arith, la),
    omega (arith, la, ka),
    Every-take (Shape 15 h) 16 links p.3,
  ),
  (
    omega (arith, lb),
    omega (arith, lb),
    omega (arith, lb, kb),
    Every-take (Shape 15 h) 16 (drop 16 links) (Every-drop (Shape 15 h) 16 links p.3),
  ),
  la,
  lb,
)
  where
    f : BtNode h → Items
    f n = items h n

    k : ℕ
    k = get_or slot 15 0

    left : BtNode (suc h)
    left = (take 15 slot, take 16 links)

    la : length (take 15 slot) ≡ 15
    la = length-take 15 slot (omega (arith, full))

    ka : length (take 16 links) ≡ 16
    ka = length-take 16 links (omega (arith, full, p.2))

    all : take 15 (drop 16 slot) ≡ drop 16 slot
    all = take_all 15 (drop 16 slot) (omega (arith, full, length-drop 16 slot))

    all_links : take 16 (drop 16 links) ≡ drop 16 links
    all_links = take_all 16 (drop 16 links) (omega (arith, full, p.2, length-drop 16 links))

    lb : length (take 15 (drop 16 slot)) ≡ 15
    lb = length-take 15 (drop 16 slot) (omega (arith, full, length-drop 16 slot))

    kb : length (take 16 (drop 16 links)) ≡ 16
    kb = length-take 16 (drop 16 links) (omega (arith, full, p.2, length-drop 16 links))
