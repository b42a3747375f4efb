-- ===== src/Vm/Delete/Round.antt =====
-- A round of the loop of bpt_po_delete: at the child, after a shift, or after a merge.
use libalgo.Common.{
  ℕ, suc, ◌<◌, ◌≤◌, ◌≡◌, refl, sym, ap, ◌∙◌, ◌++◌, Option, none, some, Bool, true, false, ◌==◌,
  ◌||◌, if◌then◌else◌, length, length-set, get_or, get_elem?, set, arith,
}
use libalgo.Btree.{array_remove}
use libalgo.Btree.Arrays.{Every-set, map-set, get_elem-set}
use libalgo.Vm.Node.{Bpn, Internal, entries, is_bpn_full, is_bpn_gt_min, bpn_max_avail}
use libalgo.Vm.Node.Avail.{areas}
use libalgo.Vm.Delete.{
  Cleared, shift_left, shift_right, bpn_try_shift_left, bpn_try_shift_right, merged, balanced,
  united, relink, delete_at,
}
use libalgo.Vm.Delete.Shape.{IsKept, IsKeptChild}
use libalgo.Vm.Delete.Links.{Two, two, length-array_remove, Every-array_remove, map-array_remove}
use libalgo.Vm.Delete.Pair.{Neighbours}

pub gt_min-entries : (h : ℕ) (n : Bpn h) → is_bpn_gt_min h n ≡ true → 11 < entries h n
unfolding is_bpn_gt_min
gt_min-entries h n e = ground (arith, e)

pub le_min-entries : (h : ℕ) (n : Bpn h) → is_bpn_gt_min h n ≡ false → entries h n ≤ 11
unfolding is_bpn_gt_min
le_min-entries h n e = ground (arith, e)

not_full : (h : ℕ) (n : Bpn h) → is_bpn_gt_min h n ≡ false → is_bpn_full h n ≡ false
unfolding is_bpn_gt_min is_bpn_full
not_full h n e = ground (arith, e)

full_or : (b : Bool) → b || true ≡ true
full_or true = refl
full_or false = refl

-- The pair that a shift leaves, at the links `at` and `at + 1` of the parent.
module _ (low h at : ℕ) (p : Internal (Bpn h)) (l r : Bpn h) (kept : IsKept low (suc h) p)
    (left_there : get_elem? p.subl at ≡ some l) (right_there : get_elem? p.subl (suc at) ≡ some r)
    (within : at < length p.slot) where
  both : Two (areas h) p.subl at l r
  both = two (areas h) p.subl at l r left_there right_there

  pub balanced-IsKept :
      (a : Bpn h) (k : ℕ) (b : Bpn h)
      → Neighbours h (areas h l ++ areas h r) (a, k, b)
      → IsKept low (suc h) (balanced h p at (a, k, b))
        × (areas (suc h) (balanced h p at (a, k, b)) ≡ areas (suc h) p)
  unfolding balanced
  balanced-IsKept a k b (x, y, e) = (
    (
      omega (arith, kept.0, length-set p.slot at k),
      omega (arith, kept.1, length-set p.slot at k),
      length-set (set p.subl at a) (suc at) b
          ∙ length-set p.subl at a
          ∙ kept.2
          ∙ ap suc (sym (length-set p.slot at k)),
      ap (λ z. set (set z at (bpn_max_avail h a)) (suc at) (bpn_max_avail h b)) kept.3
          ∙ ap (λ z. set z (suc at) (bpn_max_avail h b))
              (sym (map-set (bpn_max_avail h) p.subl at a))
          ∙ sym (map-set (bpn_max_avail h) (set p.subl at a) (suc at) b),
      Every-set (IsKeptChild h) (set p.subl at a) (suc at) b
          (Every-set (IsKeptChild h) p.subl at a kept.4 x) y,
    ),
    both.after_shift a b ∙ ap (λ z. both.front ++ (z ++ both.back)) e ∙ sym both.whole,
  )

  pub united-IsKept :
      (low' : ℕ) (m : Bpn h)
      → low' < length p.slot
      → IsKeptChild h m
      → areas h m ≡ areas h l ++ areas h r
      → IsKept low' (suc h) (united h p at m)
        × (areas (suc h) (united h p at m) ≡ areas (suc h) p)
        × (get_elem? (united h p at m).subl at ≡ some m)
  unfolding united
  united-IsKept low' m spare x e =
      let fewer = length-array_remove p.slot at within in
      let links = length-array_remove p.subl (suc at) (omega (arith, kept.2, within)) in
      (
        (
          omega (arith, fewer, spare),
          omega (arith, fewer, kept.1),
          omega
              (arith, length-set (array_remove p.subl (suc at)) at m, fewer, links, kept.2, within),
          ap (λ z. set (array_remove z (suc at)) at (bpn_max_avail h m)) kept.3
              ∙ ap (λ z. set z at (bpn_max_avail h m))
                  (sym (map-array_remove (bpn_max_avail h) p.subl (suc at)))
              ∙ sym (map-set (bpn_max_avail h) (array_remove p.subl (suc at)) at m),
          Every-set (IsKeptChild h) (array_remove p.subl (suc at)) at m
              (Every-array_remove (IsKeptChild h) p.subl (suc at) kept.4) x,
        ),
        both.after_merge m ∙ ap (λ z. both.front ++ (z ++ both.back)) e ∙ sym both.whole,
        get_elem-set (array_remove p.subl (suc at)) at m (omega (arith, links, kept.2, within)),
      )

abbrev pub lent : (h : ℕ) → ℕ → ℕ → ℕ → Bpn h → Bpn h → Option (Bpn h × ℕ × Bpn h)
lent h at index key l r =
    if index == at then bpn_try_shift_left h l key r else bpn_try_shift_right h l key r

abbrev pub turned : (h : ℕ) → ℕ → ℕ → Bpn h × ℕ × Bpn h → Bpn h
turned h at index pair = if index == at then pair.0 else pair.2

-- The ways of a round.
module _ (h at index : ℕ) (p : Internal (Bpn h)) (n l r : Bpn h) (go : Bpn h → Option (Cleared h))
    (there : get_elem? p.subl index ≡ some n) where
  pub at-below : is_bpn_gt_min h n ≡ true → delete_at h at index p go ≡ relink h p index (go n)
  unfolding delete_at
  at-below e = rw (delete_at, there, e) refl

  module _ (few : is_bpn_gt_min h n ≡ false) (left_there : get_elem? p.subl at ≡ some l)
      (right_there : get_elem? p.subl (suc at) ≡ some r) where
    pub at-shift :
        (pair : Bpn h × ℕ × Bpn h)
        → lent h at index (get_or p.slot at 0) l r ≡ some pair
        → delete_at h at index p go
          ≡ relink h (balanced h p at pair) index (go (turned h at index pair))
    unfolding delete_at
    at-shift pair e = rw (delete_at, there, few, left_there, right_there, e) refl

    pub at-merge :
        (m : Bpn h)
        → lent h at index (get_or p.slot at 0) l r ≡ none
        → merged h l (get_or p.slot at 0) r ≡ some m
        → delete_at h at index p go ≡ relink h (united h p at m) at (go m)
    unfolding delete_at
    at-merge m e f = rw (delete_at, there, few, left_there, right_there, e, f) refl

-- Whether the sibling `r` or `l` can lend an entry to a node that has the least.
module _ (h key : ℕ) (l r : Bpn h) where
  pub try_left-some :
      is_bpn_gt_min h l ≡ false
      → is_bpn_gt_min h r ≡ true
      → bpn_try_shift_left h l key r ≡ some (shift_left h l key r)
  unfolding bpn_try_shift_left
  try_left-some a b = rw (bpn_try_shift_left, not_full h l a, b) refl

  pub try_left-none : is_bpn_gt_min h r ≡ false → bpn_try_shift_left h l key r ≡ none
  unfolding bpn_try_shift_left
  try_left-none b = rw (bpn_try_shift_left, b, full_or (is_bpn_full h l)) refl

  pub try_right-some :
      is_bpn_gt_min h r ≡ false
      → is_bpn_gt_min h l ≡ true
      → bpn_try_shift_right h l key r ≡ some (shift_right h l key r)
  unfolding bpn_try_shift_right
  try_right-some a b = rw (bpn_try_shift_right, not_full h r a, b) refl

  pub try_right-none : is_bpn_gt_min h l ≡ false → bpn_try_shift_right h l key r ≡ none
  unfolding bpn_try_shift_right
  try_right-none b = rw (bpn_try_shift_right, b, full_or (is_bpn_full h r)) refl
