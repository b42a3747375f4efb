-- ===== src/Vm/Delete/Rebalance.antt =====
-- The loop of bpt_po_delete from a node that can lose an entry.
use libalgo.Common.{
  ℕ, zero, suc, ◌-◌, ◌<◌, ◌≤◌, ◌≡◌, ◌++◌, refl, sym, ap, ◌∙◌, Option, some, none, true, false, ◌==◌,
  Bool-cases, inl, inr, length, length-set, set, get_or, get_elem?, arith, subst,
}
use libalgo.Btree.Arrays.{get_elem-set, get_elem-set_next}
use libalgo.Vm.Node.{Bpn, Internal, entries, min_entries, is_bpn_gt_min}
use libalgo.Vm.Node.Avail.{areas}
use libalgo.Vm.Delete.{Cleared, shift_left, shift_right, balanced, united, relink, delete_at}
use libalgo.Vm.Delete.Shape.{IsKept, IsKeptChild}
use libalgo.Vm.Delete.Pair.{Neighbours, shift_left-Neighbours, shift_right-Neighbours, merged-kept}
use libalgo.Vm.Delete.Pruned.{Pruned, Pruned-same, relink-Pruned}
use libalgo.Vm.Delete.Round.{
  gt_min-entries, le_min-entries, balanced-IsKept, united-IsKept, turned, lent, at-shift, at-merge,
  try_left-some, try_left-none, try_right-some, try_right-none,
}

-- The node can lose an entry and have `low` left.
abbrev pub Spare : ℕ → (h : ℕ) → Bpn h → Type 0
Spare low zero n = low ≤ length n - 1
Spare low (suc h) n = low < length n.slot

pub entries-Spare : (h : ℕ) (n : Bpn h) → 11 < entries h n → Spare min_entries h n
unfolding entries
entries-Spare zero n e = omega (arith, e)
entries-Spare (suc h) n e = e

module _ (low h at index key : ℕ) (p : Internal (Bpn h)) (go : Bpn h → Option (Cleared h))
    (kept : IsKept low (suc h) p) (spare : low < length p.slot) (within : at < length p.slot)
    (down : (c : Bpn h)
      → IsKeptChild h c
      → 11 < entries h c
      → Pruned min_entries h key c (go c)) where
  abbrev pub Goal : Type 0
  Goal = Pruned low (suc h) key p (delete_at h at index p go)

  -- After the pair at `at` gives way to another with the same areas.
  module _ (n l r : Bpn h) (there : get_elem? p.subl index ≡ some n)
      (few : is_bpn_gt_min h n ≡ false) (left_there : get_elem? p.subl at ≡ some l)
      (right_there : get_elem? p.subl (suc at) ≡ some r) (pl : IsKeptChild h l)
      (pr : IsKeptChild h r) where
    after_shift :
        (pair : Bpn h × ℕ × Bpn h) (c : Bpn h)
        → lent h at index (get_or p.slot at 0) l r ≡ some pair
        → Neighbours h (areas h l ++ areas h r) pair
        → turned h at index pair ≡ c
        → get_elem? (balanced h p at pair).subl index ≡ some c
        → IsKeptChild h c
        → 11 < entries h c
        → Goal
    after_shift pair c e nb t g x more =
        let (q, same) =
          balanced-IsKept low h at p l r kept left_there right_there within pair.0 pair.1 pair.2
            nb in
        let next = balanced h p at pair in
        subst (λ o. Pruned low (suc h) key p o)
          (sym (
            at-shift h at index p n l r go there few left_there right_there pair e
            ∙ ap (λ z. relink h next index (go z)) t))
          (Pruned-same low low low (suc h) key next p (relink h next index (go c)) q kept same
            (relink-Pruned low h key index next c (go c) q g (down c x more)))

    after_merge :
        lent h at index (get_or p.slot at 0) l r ≡ none → entries h l ≤ 11 → entries h r ≤ 11 → Goal
    after_merge e a b =
        let (m, made, x, same, more) = merged-kept h (get_or p.slot at 0) l r pl pr a b in
        let (q, g, s) =
          united-IsKept low h at p l r kept left_there right_there within low m spare x same in
        subst (λ o. Pruned low (suc h) key p o)
          (sym (at-merge h at index p n l r go there few left_there right_there m e made))
          (Pruned-same low low low (suc h) key (united h p at m) p
            (relink h (united h p at m) at (go m)) q kept g
            (relink-Pruned low h key at (united h p at m) m (go m) q s (down m x more)))

-- The link leads to the left or to the right of the pair.
module _ (low h at key : ℕ) (p : Internal (Bpn h)) (go : Bpn h → Option (Cleared h))
    (kept : IsKept low (suc h) p) (spare : low < length p.slot) (within : at < length p.slot)
    (down : (c : Bpn h) → IsKeptChild h c → 11 < entries h c → Pruned min_entries h key c (go c))
    (l r : Bpn h) (left_there : get_elem? p.subl at ≡ some l)
    (right_there : get_elem? p.subl (suc at) ≡ some r) (pl : IsKeptChild h l)
    (pr : IsKeptChild h r) where
  same_link : (at == at) ≡ true
  same_link = ground arith

  next_link_differs : (suc at == at) ≡ false
  next_link_differs = ground arith

  pub at_left : is_bpn_gt_min h l ≡ false → Goal low h at at key p go kept spare within down
  unfolding balanced
  at_left few = elim (Bool-cases (is_bpn_gt_min h r)) [
    | inl g ↦
        let (nb, more) =
          shift_left-Neighbours h k l r pl pr (omega (arith, le_min-entries h l few))
            (gt_min-entries h r g) in
        after_shift low h at at key p go kept spare within down l l r left_there few left_there
          right_there pl pr (shift_left h l k r) ((shift_left h l k r).0)
          (rw same_link (try_left-some h k l r few g)) nb (rw same_link refl)
          (get_elem-set_next (set p.subl at ((shift_left h l k r).0)) at ((shift_left h l k r).2)
            ∙ get_elem-set p.subl at ((shift_left h l k r).0) (omega (arith, kept.2, within)))
          nb.0 more
    | inr g ↦
        after_merge low h at at key p go kept spare within down l l r left_there few left_there
          right_there pl pr (rw same_link (try_left-none h k l r g)) (le_min-entries h l few)
          (le_min-entries h r g)
  ]
    where
      k : ℕ
      k = get_or p.slot at 0

  pub at_right : is_bpn_gt_min h r ≡ false → Goal low h at (suc at) key p go kept spare within down
  unfolding balanced
  at_right few = elim (Bool-cases (is_bpn_gt_min h l)) [
    | inl g ↦
        let (nb, more) =
          shift_right-Neighbours h k l r pl pr (omega (arith, le_min-entries h r few))
            (gt_min-entries h l g) in
        after_shift low h at (suc at) key p go kept spare within down r l r right_there few
          left_there right_there pl pr (shift_right h l k r) ((shift_right h l k r).2)
          (rw next_link_differs (try_right-some h k l r few g)) nb (rw next_link_differs refl)
          (get_elem-set (set p.subl at ((shift_right h l k r).0)) (suc at) ((shift_right h l k r).2)
            (omega (arith, length-set p.subl at ((shift_right h l k r).0), kept.2, within)))
          nb.1 more
    | inr g ↦
        after_merge low h at (suc at) key p go kept spare within down r l r right_there few
          left_there right_there pl pr (rw next_link_differs (try_right-none h k l r g))
          (le_min-entries h l g) (le_min-entries h r few)
  ]
    where
      k : ℕ
      k = get_or p.slot at 0
