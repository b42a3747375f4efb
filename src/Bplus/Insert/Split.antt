-- ===== src/Bplus/Insert/Split.antt =====
-- A round of the insertion at an internal node: below the child, or below a half of it.
use libalgo.Common.{
  ℕ, suc, ◌<◌, ◌≤◌, ◌≡◌, refl, sym, ap, ◌∙◌, List, ◌++◌, Option, none, some, lt→ltb, length, subst,
  arith,
}
use libalgo.Common.Int.{ℤ}
use libalgo.Tree.Sorted.{find, insert}
use libalgo.Btree.{array_insert}
use libalgo.Btree.Arrays.{pair_at, length-array_insert, set-left, set-right}
use libalgo.Bplus.{
  BpNode, Record, bpn_halves, bpn_split, slot_insert, subl_insert, relink, max_entries, min_entries,
}
use libalgo.Bplus.Chain.{Chain, length-Chain}
use libalgo.Bplus.Focus.{Focus, focus, upper}
use libalgo.Bplus.Gap.{Focus-insert, Focus-find, insert_low, insert_high, find_low, find_high}
use libalgo.Bplus.Node.{items, IsNode, IsChild, node-Range, Halved}
use libalgo.Bplus.Insert.{code, Inserted}

-- The focus on a child of a node.
abbrev pub Spot : (h v lo hi i : ℕ) → List ℕ → List (BpNode h) → Type 0
Spot h v lo hi i slot subl = Focus (IsChild h) (items h) v lo hi i slot subl

pub spot :
    (h v lo hi : ℕ) (slot : List ℕ) (subl : List (BpNode h))
    → Chain (IsChild h) lo hi slot subl
    → lo ≤ v
    → v < hi
    → Spot h v lo hi (upper v slot) slot subl
spot h v lo hi slot subl =
    focus (IsChild h) (items h) (λ l u c p. node-Range h min_entries l u c p) v lo hi slot subl

pub relink-Inserted :
    (low lo hi h i : ℕ) (r : Record) (slot : List ℕ) (subl : List (BpNode h))
    (out : Option (ℤ × BpNode h))
    → IsNode low lo hi (suc h) (slot, subl)
    → (s : Spot h r.0 lo hi i slot subl)
    → Inserted min_entries s.low s.high h r (items h s.child) out
    → Inserted low lo hi (suc h) r (items (suc h) (slot, subl)) (relink h slot subl i out)
unfolding relink
relink-Inserted low lo hi h i r slot subl none p s o = o
relink-Inserted low lo hi h i r slot subl (some (rv, m)) p s o = (
  (p.0, p.1, s.set_Chain m (o.0)),
  s.set_items m ∙ Focus-insert s r.1 (items h m) (o.1),
  o.2 ∙ ap code (sym (Focus-find s)),
)

pub bpn_split_lem :
    (h i : ℕ) (slot : List ℕ) (subl : List (BpNode h)) (n : BpNode h)
    → i < max_entries
    → bpn_split h slot subl i n
      ≡ (let (a, k, b) = bpn_halves h n in some (array_insert slot i k, pair_at subl i a b))
unfolding bpn_split slot_insert subl_insert
bpn_split_lem h i slot subl n l =
    rw (bpn_split, lt→ltb i 3 l, lt→ltb (suc i) 4 (omega (arith, l))) refl

-- The node whose child is split, and the insertion below one of the halves.
module _ (low lo hi h i k : ℕ) (r : Record) (slot : List ℕ) (subl : List (BpNode h))
    (a b : BpNode h) (p : IsNode low lo hi (suc h) (slot, subl)) (room : length slot < max_entries)
    (s : Spot h r.0 lo hi i slot subl) (hv : Halved s.low s.high h s.child (a, k, b))
    (le : i ≤ length slot) where
  pair-IsNode :
      (y z : BpNode h)
      → IsChild h s.low k y
      → IsChild h k s.high z
      → IsNode low lo hi (suc h) (array_insert slot i k, pair_at subl i y z)
  pair-IsNode y z py pz =
      let l = length-array_insert slot i k in
      (omega (arith, l, p.0), omega (arith, l, room), s.pair_Chain k y z hv.0 hv.1 py pz)

  in_range : i < length subl
  in_range = omega (arith, le, length-Chain (IsChild h) lo hi slot subl p.2)

  pub low_half :
      (out : Option (ℤ × BpNode h))
      → r.0 < k
      → Inserted min_entries s.low k h r (items h a) out
      → Inserted low lo hi
          (suc h)
          r
          (items (suc h) (slot, subl))
          (relink h (array_insert slot i k) (pair_at subl i a b) i out)
  unfolding relink
  low_half none l o = o
  low_half (some (rv, m)) l o =
      let ra = node-Range h min_entries s.low k a hv.2 in
      let rb = node-Range h min_entries k s.high b hv.3 in
      (
        subst (λ z. IsNode low lo hi (suc h) (array_insert slot i k, z))
            (sym (set-left subl i a b m in_range)) (pair-IsNode m b (o.0) hv.3),
        ap (λ z. items (suc h) (array_insert slot i k, z)) (set-left subl i a b m in_range)
            ∙ s.pair_items m b
            ∙ Focus-insert s r.1 (items h m ++ items h b) (
                ap (λ z. z ++ items h b) (o.1)
                ∙ insert_low s.low k s.high r.0 r.1 (items h a) (items h b) ra rb l
                ∙ ap (λ z. insert r.0 r.1 z) (sym hv.4)),
        o.2
            ∙ ap code (
                sym (find_low s.low k s.high r.0 r.1 (items h a) (items h b) ra rb l)
                ∙ ap (λ z. find r.0 z) (sym hv.4)
                ∙ sym (Focus-find s)),
      )

  pub high_half :
      (out : Option (ℤ × BpNode h))
      → k ≤ r.0
      → Inserted min_entries k s.high h r (items h b) out
      → Inserted low lo hi
          (suc h)
          r
          (items (suc h) (slot, subl))
          (relink h (array_insert slot i k) (pair_at subl i a b) (suc i) out)
  unfolding relink
  high_half none l o = o
  high_half (some (rv, m)) l o =
      let ra = node-Range h min_entries s.low k a hv.2 in
      let rb = node-Range h min_entries k s.high b hv.3 in
      (
        subst (λ z. IsNode low lo hi (suc h) (array_insert slot i k, z))
            (sym (set-right subl i a b m in_range)) (pair-IsNode a m hv.2 (o.0)),
        ap (λ z. items (suc h) (array_insert slot i k, z)) (set-right subl i a b m in_range)
            ∙ s.pair_items a m
            ∙ Focus-insert s r.1 (items h a ++ items h m) (
                ap (λ z. items h a ++ z) (o.1)
                ∙ insert_high s.low k s.high r.0 r.1 (items h a) (items h b) ra rb l
                ∙ ap (λ z. insert r.0 r.1 z) (sym hv.4)),
        o.2
            ∙ ap code (
                sym (find_high s.low k s.high r.0 r.1 (items h a) (items h b) ra rb l)
                ∙ ap (λ z. find r.0 z) (sym hv.4)
                ∙ sym (Focus-find s)),
      )
