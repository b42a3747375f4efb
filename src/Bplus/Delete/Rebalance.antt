-- ===== src/Bplus/Delete/Rebalance.antt =====
-- A round of the deletion at an internal node: below the child, after a shift, or after a merge.
use libalgo.Common.{
  ℕ, zero, suc, ◌<◌, ◌≤◌, ◌≡◌, ◌⊎◌, refl, sym, ap, ◌∙◌, List, ◌++◌, Option, none, some, true, false,
  ltb, ◌==◌, Bool-cases, inl, inr, lt→ltb, length, length-set, get_or, get_elem?, set, arith, subst,
}
use mathlib.Core.Option.{some-injective}
use libalgo.Btree.Arrays.{get_elem-set, get_elem-set_next}
use libalgo.Btree.Index.{IsRising}
use libalgo.Btree.{array_remove}
use libalgo.Bplus.{BpNode, Record, entries, is_bpn_gt_min, relink, max_entries}
use libalgo.Bplus.Chain.{Items, Chain, length-Chain, Chain-IsRising}
use libalgo.Bplus.Focus.{upper}
use libalgo.Bplus.Node.{items, IsNode, IsChild}
use libalgo.Bplus.Insert.Split.{Spot, spot}
use libalgo.Bplus.Delete.{
  shift_left, shift_right, merged, delete_at, bpn_try_shift_left, bpn_try_shift_right,
}
use libalgo.Bplus.Delete.Pair.{
  Pair, pair, upper-lt-key, key-le-upper, upper-set, upper-array_remove,
}
use libalgo.Bplus.Delete.Borrow.{
  Neighbours, shift_left-Neighbours, shift_right-Neighbours, merged-Merged,
}
use libalgo.Bplus.Delete.Leaf.{Deleted, Spare, length-array_remove, relink-Deleted}
use libalgo.Bplus.Delete.Round.{
  gt_min-entries, le_min-entries, try_left-some, try_left-none, try_right-some, try_right-none,
  at-below, lent, at-shift, at-merge,
}

entries-Spare : (h : ℕ) (n : BpNode h) → 1 < entries h n → Spare 1 h n
unfolding entries
entries-Spare zero n l = omega (arith, l)
entries-Spare (suc h) n l = l

module _ (low lo hi h v at : ℕ) (slot : List ℕ) (subl : List (BpNode h))
    (go : BpNode h → Option (Option Record × BpNode h)) (p : IsNode low lo hi (suc h) (slot, subl))
    (spare : low < length slot) (lv : lo ≤ v) (vh : v < hi) (in_range : at < length slot)
    (ih : (a b : ℕ) (c : BpNode h)
      → IsChild h a b c
      → Spare 1 h c
      → a ≤ v
      → v < b
      → Deleted 1 a b h v (items h c) (go c)) where
  abbrev all : Items
  all = items (suc h) (slot, subl)

  rising : IsRising slot
  rising = Chain-IsRising (IsChild h) lo hi slot subl p.2

  pr : Pair (IsChild h) (items h) lo hi at slot subl
  pr = pair (IsChild h) (items h) at lo hi slot subl p.2 in_range

  links : length subl ≡ suc (length slot)
  links = length-Chain (IsChild h) lo hi slot subl p.2

  -- The rest of the loop below the child `c` of the node as the round leaves it.
  descend :
      (slot' : List ℕ) (subl' : List (BpNode h)) (j : ℕ) (c : BpNode h)
      → low ≤ length slot'
      → length slot' ≤ max_entries
      → Chain (IsChild h) lo hi slot' subl'
      → upper v slot' ≡ j
      → items (suc h) (slot', subl') ≡ all
      → get_elem? subl' j ≡ some c
      → 1 < entries h c
      → Deleted low lo hi (suc h) v all (relink h slot' subl' j (go c))
  descend slot' subl' j c a b ch e same there more =
      let s = subst (λ i. Spot h v lo hi i slot' subl') e (spot h v lo hi slot' subl' ch lv vh) in
      let eq : s.child ≡ c = some-injective s.child c (sym s.there ∙ there) in
      subst (λ z. Deleted low lo hi (suc h) v z (relink h slot' subl' j (go c))) same
        (relink-Deleted low lo hi h j v slot' subl' (go c) a b s (
          subst (λ z. Deleted 1 s.low s.high h v (items h s.child) (go z)) eq
            (ih s.low s.high s.child s.fits
              (entries-Spare h s.child (subst (λ z. 1 < entries h z) (sym eq) more)) s.low_le
              s.lt_high)))

  below-Deleted :
      (n : BpNode h)
      → get_elem? subl (upper v slot) ≡ some n
      → is_bpn_gt_min h n ≡ true
      → Deleted low lo hi (suc h) v all (delete_at h at (upper v slot) slot subl go)
  below-Deleted n there e =
      subst (λ o. Deleted low lo hi (suc h) v all o)
        (sym (at-below h at (upper v slot) slot subl n go there e))
        (descend slot subl (upper v slot) n (omega (arith, spare)) p.1 p.2 refl refl there
          (gt_min-entries h n e))

  -- The neighbours with the key `k` between them.
  shifted :
      (j k : ℕ) (a b c : BpNode h)
      → Neighbours pr.low pr.high h (items h pr.left ++ items h pr.right) (a, k, b)
      → upper v slot ≡ j
      → ltb v k ≡ ltb v (get_or slot at 0)
      → get_elem? (set (set subl at a) (suc at) b) j ≡ some c
      → 1 < entries h c
      → Deleted low lo hi
          (suc h)
          v
          all
          (relink h (set slot at k) (set (set subl at a) (suc at) b) j (go c))
  shifted j k a b c nb e side there more =
      descend (set slot at k) (set (set subl at a) (suc at) b) j c
        (omega (arith, spare, length-set slot at k)) (omega (arith, p.1, length-set slot at k))
        (pr.set_Chain k a b nb.0 nb.1 nb.2 nb.3) (upper-set v at k slot in_range side ∙ e)
        (pr.set_items a b ∙ ap (λ z. pr.front ++ (z ++ pr.back)) (nb.4) ∙ sym pr.whole) there more

  merge :
      (m : BpNode h)
      → IsChild h pr.low pr.high m
      → items h m ≡ items h pr.left ++ items h pr.right
      → 1 < entries h m
      → (upper v slot ≡ at) ⊎ (upper v slot ≡ suc at)
      → Deleted low lo hi
          (suc h)
          v
          all
          (relink h (array_remove slot at) (set (array_remove subl (suc at)) at m) at (go m))
  merge m q e more side =
      let fewer = length-array_remove slot at in_range in
      let rest = length-array_remove subl (suc at) (omega (arith, links, in_range)) in
      descend (array_remove slot at) (set (array_remove subl (suc at)) at m) at m
        (omega (arith, spare, fewer)) (omega (arith, p.1, fewer)) (pr.merge_Chain m q)
        (upper-array_remove v at slot rising in_range side)
        (pr.merge_items m ∙ ap (λ z. pr.front ++ (z ++ pr.back)) e ∙ sym pr.whole)
        (get_elem-set (array_remove subl (suc at)) at m (omega (arith, rest, links, in_range))) more

  -- A merge of the two, neither of which can lend.
  merged_round :
      (j : ℕ) (n : BpNode h)
      → get_elem? subl j ≡ some n
      → is_bpn_gt_min h n ≡ false
      → is_bpn_gt_min h pr.left ≡ false
      → is_bpn_gt_min h pr.right ≡ false
      → (upper v slot ≡ at) ⊎ (upper v slot ≡ suc at)
      → lent h at j slot pr.left pr.right ≡ none
      → Deleted low lo hi (suc h) v all (delete_at h at j slot subl go)
  merged_round j n there small a b side e =
      let (m, q, w) =
        merged-Merged pr.low pr.mid pr.high pr.low_lt pr.lt_high h pr.left pr.right pr.left_fits
          pr.right_fits (le_min-entries h pr.left a) (le_min-entries h pr.right b) in
      subst (λ o. Deleted low lo hi (suc h) v all o)
        (sym (
          at-merge h at j slot subl n go there pr.left pr.right small pr.left_there pr.right_there m
            e (ap (λ k. merged h pr.left k pr.right) pr.mid_there ∙ q)))
        (merge m (w.0) (w.1) (w.2) side)

  -- The child is the left one of the two.
  left-Deleted :
      upper v slot ≡ at
      → is_bpn_gt_min h pr.left ≡ false
      → Deleted low lo hi (suc h) v all (delete_at h at at slot subl go)
  left-Deleted e small = elim (Bool-cases (is_bpn_gt_min h pr.right)) [
    | inr f ↦
        merged_round at pr.left pr.left_there small small f (inl e)
          (rw same (try_left-none h (get_or slot at 0) pr.left pr.right f))
    | inl f ↦
        let (nb, up, more) =
          shift_left-Neighbours pr.low pr.mid pr.high pr.low_lt pr.lt_high h pr.left pr.right
            pr.left_fits pr.right_fits (omega (arith, le_min-entries h pr.left small))
            (gt_min-entries h pr.right f) in
        let (a, k, b) = shift_left h pr.left pr.mid pr.right in
        let there =
          get_elem-set_next (set subl at a) at b
          ∙ get_elem-set subl at a (omega (arith, links, in_range)) in
        let below = upper-lt-key v at slot e in_range in
        subst (λ o. Deleted low lo hi (suc h) v all o)
          (sym (
            at-shift h at at slot subl pr.left go pr.left_there pr.left pr.right small pr.left_there
              pr.right_there a k b a
              (rw same (
                ap (λ j. bpn_try_shift_left h pr.left j pr.right) pr.mid_there
                ∙ try_left-some h pr.mid pr.left pr.right small f))
              there))
          (shifted at k a b a nb e
            (lt→ltb v k (omega (arith, up, below, pr.mid_there))
              ∙ sym (lt→ltb v (get_or slot at 0) below))
            there more)
  ]
    where
      same : (at == at) ≡ true
      same = ground arith

  right-Deleted :
      upper v slot ≡ suc at
      → is_bpn_gt_min h pr.right ≡ false
      → Deleted low lo hi (suc h) v all (delete_at h at (suc at) slot subl go)
  right-Deleted e small = elim (Bool-cases (is_bpn_gt_min h pr.left)) [
    | inr f ↦
        merged_round (suc at) pr.right pr.right_there small f small (inr e)
          (rw other (try_right-none h (get_or slot at 0) pr.left pr.right f))
    | inl f ↦
        let (nb, down, more) =
          shift_right-Neighbours pr.low pr.mid pr.high pr.low_lt pr.lt_high h pr.left pr.right
            pr.left_fits pr.right_fits (omega (arith, le_min-entries h pr.right small))
            (gt_min-entries h pr.left f) in
        let (a, k, b) = shift_right h pr.left pr.mid pr.right in
        let there =
          get_elem-set (set subl at a) (suc at) b
            (omega (arith, links, in_range, length-set subl at a)) in
        let above = key-le-upper v at slot e in
        subst (λ o. Deleted low lo hi (suc h) v all o)
          (sym (
            at-shift h at (suc at) slot subl pr.right go pr.right_there pr.left pr.right small
              pr.left_there pr.right_there a k b b
              (rw other (
                ap (λ j. bpn_try_shift_right h pr.left j pr.right) pr.mid_there
                ∙ try_right-some h pr.mid pr.left pr.right small f))
              there))
          (shifted (suc at) k a b b nb e
            (not_lt v k (omega (arith, down, above, pr.mid_there))
              ∙ sym (not_lt v (get_or slot at 0) above))
            there more)
  ]
    where
      other : (suc at == at) ≡ false
      other = ground arith

      not_lt : (x y : ℕ) → y ≤ x → ltb x y ≡ false
      not_lt x y l = ground (arith, l)

  pub at-Deleted :
      (upper v slot ≡ at) ⊎ (upper v slot ≡ suc at)
      → Deleted low lo hi
          (suc h)
          v
          (items (suc h) (slot, subl))
          (delete_at h at (upper v slot) slot subl go)
  at-Deleted side = elim (Bool-cases (is_bpn_gt_min h s.child)) [
    | inl f ↦ below-Deleted s.child s.there f
    | inr f ↦ elim side [
      | inl e ↦
          subst (λ j. Deleted low lo hi (suc h) v all (delete_at h at j slot subl go)) (sym e)
            (left-Deleted e (small pr.left at e pr.left_there f))
      | inr e ↦
          subst (λ j. Deleted low lo hi (suc h) v all (delete_at h at j slot subl go)) (sym e)
            (right-Deleted e (small pr.right (suc at) e pr.right_there f))
    ]
  ]
    where
      s : Spot h v lo hi (upper v slot) slot subl
      s = spot h v lo hi slot subl p.2 lv vh

      small :
          (n : BpNode h) (j : ℕ)
          → upper v slot ≡ j
          → get_elem? subl j ≡ some n
          → is_bpn_gt_min h s.child ≡ false
          → is_bpn_gt_min h n ≡ false
      small n j e there f =
          subst (λ z. is_bpn_gt_min h z ≡ false)
            (some-injective s.child n (sym s.there ∙ ap (λ i. get_elem? subl i) e ∙ there)) f
