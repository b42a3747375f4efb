-- ===== src/Btree/Remove/Lend.antt =====
-- What the moves and the merge make of two neighbours with a slot between them.
use libalgo.Common.{
  ℕ, zero, suc, ◌-◌, ◌<◌, ◌≤◌, ◌≡◌, sym, ap, ◌∙◌, [], ◌∷◌, ◌++◌, append_assoc, some, length, get_or,
  take, drop, take_all, arith,
}
use libalgo.Btree.{BtNode, slot_of, max_node_slots}
use libalgo.Btree.Arrays.{length-append, length-take, length-drop, Every-take, Every-drop}
use libalgo.Btree.Weave.{Items, tag}
use libalgo.Btree.Items.{items, Shape, tag-cut}
use libalgo.Btree.Remove.{move_left, move_right, joined, min_node_slots}
use libalgo.Btree.Remove.Cut.{
  Every-append, tag-append, node-append, node-cut, tag_last, node_last, get_or-middle,
}

-- The neighbours `a` and `b` with the slot `k` between them hold the items `xs`.
abbrev pub Lent : (h : ℕ) → Items → BtNode h × ℕ × BtNode h → Type 0
Lent h xs (a, k, b) =
    Shape min_node_slots h a × Shape min_node_slots h b × (items h a ++ ((k, tt) ∷ items h b) ≡ xs)

abbrev pub FromRight : (h : ℕ) → BtNode h → BtNode h × ℕ × BtNode h → Type 0
FromRight h r (a, k, b) =
    (min_node_slots < length (slot_of h a)) × (c : Items) × (items h r ≡ c ++ ((k, tt) ∷ items h b))

abbrev pub FromLeft : (h : ℕ) → BtNode h → BtNode h × ℕ × BtNode h → Type 0
FromLeft h l (a, k, b) =
    (min_node_slots < length (slot_of h b)) × (c : Items) × (items h l ≡ items h a ++ ((k, tt) ∷ c))

module _ (key : ℕ) where
  pub move_left-Lent :
      (h : ℕ) (l r : BtNode h)
      → Shape min_node_slots h l
      → Shape min_node_slots h r
      → length (slot_of h l) ≤ min_node_slots
      → min_node_slots < length (slot_of h r)
      → Lent h (items h l ++ ((key, tt) ∷ items h r)) (move_left h l key r)
        × FromRight h r (move_left h l key r)
  unfolding move_left slot_of
  move_left-Lent zero l r p q a b =
      let longer = length-append l (key ∷ []) in
      let cut = tag-cut 0 r (omega (arith, b)) in
      (
        (
          (omega (arith, longer, p.0), omega (arith, longer, a)),
          (omega (arith, length-drop 1 r, b), omega (arith, length-drop 1 r, q.1)),
          ap (λ z. z ++ ((get_or r 0 0, tt) ∷ tag (drop 1 r))) (tag-append l (key ∷ []))
              ∙ append_assoc (tag l) ((key, tt) ∷ []) ((get_or r 0 0, tt) ∷ tag (drop 1 r))
              ∙ ap (λ z. tag l ++ ((key, tt) ∷ z)) (sym cut),
        ),
        (omega (arith, longer, p.0), [], cut),
      )
  move_left-Lent (suc h) (l, ls) (r, rs) p q a b =
      let longer = length-append l (key ∷ []) in
      let one = length-take 1 rs (omega (arith, q.2)) in
      let more = length-append ls (take 1 rs) in
      let cut = node-cut h 0 r rs q.2 (omega (arith, b)) in
      let rest = (get_or r 0 0, tt) ∷ items (suc h) (drop 1 r, drop 1 rs) in
      (
        (
          (
            omega (arith, longer, p.0),
            omega (arith, longer, a),
            omega (arith, longer, more, one, p.2),
            Every-append (Shape min_node_slots h) ls (take 1 rs) p.3
                (Every-take (Shape min_node_slots h) 1 rs q.3),
          ),
          (
            omega (arith, length-drop 1 r, b),
            omega (arith, length-drop 1 r, q.1),
            omega (arith, length-drop 1 r, length-drop 1 rs, q.2, b),
            Every-drop (Shape min_node_slots h) 1 rs q.3,
          ),
          ap (λ z. z ++ rest) (node-append h key l [] ls (take 1 rs) p.2)
              ∙ append_assoc (items (suc h) (l, ls)) ((key, tt) ∷ items (suc h) ([], take 1 rs))
                  rest
              ∙ ap (λ z. items (suc h) (l, ls) ++ ((key, tt) ∷ z)) (sym cut),
        ),
        (omega (arith, longer, p.0), items (suc h) ([], take 1 rs), cut),
      )

  pub move_right-Lent :
      (h : ℕ) (l r : BtNode h)
      → Shape min_node_slots h l
      → Shape min_node_slots h r
      → length (slot_of h r) ≤ min_node_slots
      → min_node_slots < length (slot_of h l)
      → Lent h (items h l ++ ((key, tt) ∷ items h r)) (move_right h l key r)
        × FromLeft h l (move_right h l key r)
  unfolding move_right slot_of
  move_right-Lent zero l r p q a b =
      let n = length l - 1 in
      let fewer = length-take n l (omega arith) in
      let cut = tag_last l (omega (arith, b)) in
      (
        (
          (omega (arith, fewer, b), omega (arith, fewer, p.1)),
          (omega (arith, q.0), omega (arith, a)),
          sym (append_assoc (tag (take n l)) ((get_or l n 0, tt) ∷ []) ((key, tt) ∷ tag r))
              ∙ ap (λ z. z ++ ((key, tt) ∷ tag r)) (sym cut),
        ),
        (omega (arith, q.0), [], cut),
      )
  move_right-Lent (suc h) (l, ls) (r, rs) p q a b =
      let n = length l - 1 in
      let fewer = length-take n l (omega arith) in
      let links = length-take (length l) ls (omega (arith, p.2)) in
      let last = drop (length l) ls in
      let one : length last ≡ 1 = omega (arith, length-drop (length l) ls, p.2) in
      let more = length-append last rs in
      let cut = node_last h l ls p.2 (omega (arith, b)) in
      let front = items (suc h) (take n l, take (length l) ls) in
      (
        (
          (
            omega (arith, fewer, b),
            omega (arith, fewer, p.1),
            omega (arith, fewer, links, b),
            Every-take (Shape min_node_slots h) (length l) ls p.3,
          ),
          (
            omega (arith, q.0),
            omega (arith, a),
            omega (arith, more, one, q.2),
            Every-append (Shape min_node_slots h) last rs
                (Every-drop (Shape min_node_slots h) (length l) ls p.3) q.3,
          ),
          ap (λ z. front ++ ((get_or l n 0, tt) ∷ z)) (node-append h key [] r last rs one)
              ∙ sym (
                  append_assoc front ((get_or l n 0, tt) ∷ items (suc h) ([], last))
                    ((key, tt) ∷ items (suc h) (r, rs)))
              ∙ ap (λ z. z ++ ((key, tt) ∷ items (suc h) (r, rs))) (sym cut),
        ),
        (omega (arith, q.0), items (suc h) ([], last), cut),
      )

  abbrev pub Joined : (h : ℕ) → Items → BtNode h → Type 0
  Joined h xs m =
      Shape min_node_slots h m
      × (items h m ≡ xs)
      × (length (slot_of h m) ≡ max_node_slots)
      × (get_or (slot_of h m) min_node_slots 0 ≡ key)

  pub joined-Joined :
      (h : ℕ) (l r : BtNode h)
      → Shape min_node_slots h l
      → Shape min_node_slots h r
      → length (slot_of h l) ≤ min_node_slots
      → length (slot_of h r) ≤ min_node_slots
      → (m : BtNode h) × (joined h l key r ≡ some m)
        × Joined h (items h l ++ ((key, tt) ∷ items h r)) m
  unfolding joined slot_of
  joined-Joined zero l r p q a b =
      let longer = length-append l (key ∷ r) in
      (
        l ++ (key ∷ r),
        rw (take_all 15 l a, take_all 15 r b) (ground (arith, a, b)),
        (
          (omega (arith, longer, p.0), omega (arith, longer, a, b)),
          tag-append l (key ∷ r),
          omega (arith, longer, a, b, p.0, q.0),
          get_or-middle 15 l key r (omega (arith, a, p.0)),
        ),
      )
  joined-Joined (suc h) (l, ls) (r, rs) p q a b =
      let longer = length-append l (key ∷ r) in
      let more = length-append ls rs in
      (
        (l ++ (key ∷ r), ls ++ rs),
        rw
            (
              take_all 15 l a,
              take_all 15 r b,
              take_all 16 ls (omega (arith, a, p.2)),
              take_all 16 rs (omega (arith, b, q.2)),
            )
            (ground (arith, a, b)),
        (
          (
            omega (arith, longer, p.0),
            omega (arith, longer, a, b),
            omega (arith, longer, more, p.2, q.2),
            Every-append (Shape min_node_slots h) ls rs p.3 q.3,
          ),
          node-append h key l r ls rs p.2,
          omega (arith, longer, a, b, p.0, q.0),
          get_or-middle 15 l key r (omega (arith, a, p.0)),
        ),
      )
