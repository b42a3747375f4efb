-- ===== src/Btree/Remove/Below.antt =====
-- A round of the first loop of bt_remove, at a node without the value.
use libalgo.Common.{
  ℕ, zero, suc, ◌<◌, ◌≤◌, ◌≡◌, refl, sym, ap, ◌∙◌, List, [], ◌∷◌, ◌++◌, map, some, Option, true,
  false, Bool-cases, inl, inr, ◌==◌, length, get_or, get_elem?, subst, arith,
}
use libalgo.Common.Int.{ℤ}
use libalgo.Tree.Sorted.{Below, Above, IsSorted, Above-parts, Below-parts}
use libalgo.Btree.{BtNode, slot_of}
use libalgo.Btree.Arrays.{length-map, length-map, get_elem-Every, get_elem-map}
use libalgo.Btree.Weave.{before, after}
use libalgo.Btree.Items.{items, Shape}
use libalgo.Btree.Remove.{
  can_lend, move_left, move_right, moved, merge_siblings, from_left, min_node_slots,
}
use libalgo.Btree.Remove.Pair.{after-pair, before-pair}
use libalgo.Btree.Remove.Lend.{move_left-Lent, move_right-Lent}
use libalgo.Btree.Remove.Removed.{Removed}
use libalgo.Btree.Remove.Round.{left-Removed, right-Removed, merge-Removed}

pub can_lend-lt :
    (h : ℕ) (n : BtNode h) → can_lend h n ≡ true → min_node_slots < length (slot_of h n)
unfolding can_lend
can_lend-lt h n e = ground (arith, e)

pub can_lend-le :
    (h : ℕ) (n : BtNode h) → can_lend h n ≡ false → length (slot_of h n) ≤ min_node_slots
unfolding can_lend
can_lend-le h n e = ground (arith, e)

module _ (low h v i : ℕ) (slot : List ℕ) (links : List (BtNode h)) (sub : BtNode h)
    (p : Shape low (suc h) (slot, links)) (w : IsSorted (items (suc h) (slot, links)))
    (spare : low < length slot) (index : i ≤ length slot) (there : get_elem? links i ≡ some sub)
    (ps : Shape min_node_slots h sub) (small : length (slot_of h sub) ≤ min_node_slots)
    (below : Below v (before i slot (map (items h) links)))
    (above : Above v (after i slot (map (items h) links))) (go : BtNode h → Option (ℤ × BtNode h))
    (ih : (c : BtNode h)
      → Shape min_node_slots h c
      → min_node_slots < length (slot_of h c)
      → IsSorted (items h c)
      → Removed min_node_slots h v (items h c) (go c)) where
  long : length (map (items h) links) ≡ suc (length slot)
  long = length-map (items h) links ∙ p.2

  -- The link to the right of the one with the value.
  merge_right :
      (r : BtNode h)
      → i < length slot
      → get_elem? links (suc i) ≡ some r
      → Shape min_node_slots h r
      → length (slot_of h r) ≤ min_node_slots
      → Removed low (suc h) v (items (suc h) (slot, links)) (merge_siblings h slot links i go)
  merge_right r lt g q few =
      merge-Removed low h v i slot links sub r p w lt there g ps q go spare small few below behind
        (λ m j s. ih m (j.0) (omega (arith, j.2)) s)
    where
      behind : Above v (after (suc i) slot (map (items h) links))
      behind =
          (Above-parts v ((get_or slot i 0, tt) ∷ items h r)
            (after (suc i) slot (map (items h) links))
            (subst (λ z. Above v z)
              (after-pair i slot (map (items h) links) (items h r) long
                (get_elem-map (items h) links (suc i) r g) lt)
              above)).1

  pub from_right :
      (r : BtNode h)
      → i < length slot
      → get_elem? links (suc i) ≡ some r
      → Shape min_node_slots h r
      → min_node_slots < length (slot_of h r)
      → Removed low
          (suc h)
          v
          (items (suc h) (slot, links))
          (moved h slot links i i (move_left h sub (get_or slot i 0) r) go)
  from_right r lt g q many =
      let (a, k, b) = move_left h sub (get_or slot i 0) r in
      let (t, u) = move_left-Lent (get_or slot i 0) h sub r ps q small many in
      left-Removed low h v i slot links sub r p w lt there g ps q go a k b t u below above
        (ih a (t.0) (u.0))

  -- What stands to the right cannot lend.
  abbrev pub Blocked : Type 0
  Blocked =
      i < length slot
      → (r : BtNode h) × (get_elem? links (suc i) ≡ some r)
        × Shape min_node_slots h r
        × (length (slot_of h r) ≤ min_node_slots)

  left_step :
      (j : ℕ)
      → i ≡ suc j
      → Blocked
      → Removed low (suc h) v (items (suc h) (slot, links)) (from_left h slot links (suc j) sub go)
  unfolding from_left
  left_step j e blocked =
      let (l, gl, pl, own) =
        get_elem-Every (Shape min_node_slots h) links j (omega (arith, p.2, index, e)) p.3 in
      elim (Bool-cases (can_lend h l)) [
        | inl f ↦
            let (a, k, b) = move_right h l (get_or slot j 0) sub in
            let (t, u) =
              move_right-Lent (get_or slot j 0) h l sub pl ps small (can_lend-lt h l f) in
            rw (from_left, gl, f)
              (right-Removed low h v j slot links l sub p w lt gl there' pl ps go a k b t u below'
                above' (ih b (t.1) (u.0)))
        | inr f ↦ elim (Bool-cases (suc j == length slot)) [
          | inl o ↦
              rw (from_left, gl, f, o)
                (merge-Removed low h v j slot links l sub p w lt gl there' pl ps go spare
                  (can_lend-le h l f) small (ahead l gl) above'
                  (λ m q s. ih m (q.0) (omega (arith, q.2)) s))
          | inr o ↦
              let (r, gr, q, few) = blocked (ground (arith, o, e, index)) in
              rw (from_left, gl, f, o)
                (subst
                  (λ z.
                    Removed low (suc h) v (items (suc h) (slot, links))
                      (merge_siblings h slot links z go))
                  e (merge_right r (ground (arith, o, e, index)) gr q few))
        ]
      ]
    where
      lt : j < length slot
      lt = omega (arith, e, index)

      there' : get_elem? links (suc j) ≡ some sub
      there' = ap (λ z. get_elem? links z) (sym e) ∙ there

      below' : Below v (before (suc j) slot (map (items h) links))
      below' = subst (λ z. Below v (before z slot (map (items h) links))) e below

      above' : Above v (after (suc j) slot (map (items h) links))
      above' = subst (λ z. Above v (after z slot (map (items h) links))) e above

      ahead :
          (l : BtNode h)
          → get_elem? links j ≡ some l
          → Below v (before j slot (map (items h) links))
      ahead l g =
          (Below-parts v (before j slot (map (items h) links))
            (items h l ++ ((get_or slot j 0, tt) ∷ []))
            (subst (λ z. Below v z)
              (before-pair j slot (map (items h) links) (items h l) long
                (get_elem-map (items h) links j l g) lt)
              below')).0

  pub from_left-Removed :
      Blocked
      → Removed low (suc h) v (items (suc h) (slot, links)) (from_left h slot links i sub go)
  unfolding from_left
  from_left-Removed blocked = cases i refl
    where
      cases :
          (n : ℕ)
          → i ≡ n
          → Removed low (suc h) v (items (suc h) (slot, links)) (from_left h slot links i sub go)
      cases zero e =
          let (r, g, q, few) = blocked (omega (arith, e, spare)) in
          subst
            (λ z.
              Removed low (suc h) v (items (suc h) (slot, links)) (from_left h slot links z sub go))
            (sym e)
            (subst
              (λ z.
                Removed low (suc h) v (items (suc h) (slot, links))
                  (merge_siblings h slot links z go))
              e (merge_right r (omega (arith, e, spare)) g q few))
      cases (suc j) e =
          subst
            (λ z.
              Removed low (suc h) v (items (suc h) (slot, links)) (from_left h slot links z sub go))
            (sym e) (left_step j e blocked)
