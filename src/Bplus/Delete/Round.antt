-- ===== src/Bplus/Delete/Round.antt =====
-- The ways of a round of the loop of bpt_po_delete.
use libalgo.Common.{
  ℕ, suc, ◌<◌, ◌≤◌, ◌≡◌, refl, List, Option, none, some, Bool, true, false, ◌==◌, ◌||◌,
  if◌then◌else◌, get_or, get_elem?, set, arith,
}
use libalgo.Btree.{array_remove}
use libalgo.Bplus.{BpNode, Record, entries, is_bpn_full, is_bpn_gt_min, relink}
use libalgo.Bplus.Delete.{
  shift_left, shift_right, bpn_try_shift_left, bpn_try_shift_right, merged, delete_at,
}

pub gt_min-entries : (h : ℕ) (n : BpNode h) → is_bpn_gt_min h n ≡ true → 1 < entries h n
unfolding is_bpn_gt_min
gt_min-entries h n e = ground (arith, e)

pub le_min-entries : (h : ℕ) (n : BpNode h) → is_bpn_gt_min h n ≡ false → entries h n ≤ 1
unfolding is_bpn_gt_min
le_min-entries h n e = ground (arith, e)

not_full : (h : ℕ) (n : BpNode h) → is_bpn_gt_min h n ≡ false → is_bpn_full h n ≡ false
unfolding is_bpn_gt_min is_bpn_full
not_full h n e = ground (arith, e)

full_or : (b : Bool) → b || true ≡ true
full_or true = refl
full_or false = refl

-- Whether the sibling `r` or `l` can lend an entry to a node that has the least.
module _ (h key : ℕ) (l r : BpNode h) where
  pub try_left-some :
      is_bpn_gt_min h l ≡ false
      → is_bpn_gt_min h r ≡ true
      → bpn_try_shift_left h l key r ≡ some (shift_left h l key r)
  unfolding bpn_try_shift_left
  try_left-some a b = rw (bpn_try_shift_left, not_full h l a, b) refl

  pub try_left-none : is_bpn_gt_min h r ≡ false → bpn_try_shift_left h l key r ≡ none
  unfolding bpn_try_shift_left
  try_left-none b = rw (bpn_try_shift_left, b, full_or (is_bpn_full h l)) refl

  pub try_right-some :
      is_bpn_gt_min h r ≡ false
      → is_bpn_gt_min h l ≡ true
      → bpn_try_shift_right h l key r ≡ some (shift_right h l key r)
  unfolding bpn_try_shift_right
  try_right-some a b = rw (bpn_try_shift_right, not_full h r a, b) refl

  pub try_right-none : is_bpn_gt_min h l ≡ false → bpn_try_shift_right h l key r ≡ none
  unfolding bpn_try_shift_right
  try_right-none b = rw (bpn_try_shift_right, b, full_or (is_bpn_full h r)) refl

abbrev pub lent : (h : ℕ) → ℕ → ℕ → List ℕ → BpNode h → BpNode h → Option (BpNode h × ℕ × BpNode h)
lent h at index slot l r =
    if index == at
    then bpn_try_shift_left h l (get_or slot at 0) r
    else bpn_try_shift_right h l (get_or slot at 0) r

module _ (h at index : ℕ) (slot : List ℕ) (subl : List (BpNode h)) (n : BpNode h)
    (go : BpNode h → Option (Option Record × BpNode h))
    (there : get_elem? subl index ≡ some n) where
  pub at-below :
      is_bpn_gt_min h n ≡ true → delete_at h at index slot subl go ≡ relink h slot subl index (go n)
  unfolding delete_at
  at-below e = rw (delete_at, there, e) refl

  module _ (l r : BpNode h) (small : is_bpn_gt_min h n ≡ false)
      (left_there : get_elem? subl at ≡ some l)
      (right_there : get_elem? subl (suc at) ≡ some r) where
    pub at-shift :
        (a : BpNode h) (k : ℕ) (b m : BpNode h)
        → lent h at index slot l r ≡ some (a, k, b)
        → get_elem? (set (set subl at a) (suc at) b) index ≡ some m
        → delete_at h at index slot subl go
          ≡ relink h (set slot at k) (set (set subl at a) (suc at) b) index (go m)
    unfolding delete_at
    at-shift a k b m e f = rw (delete_at, there, small, left_there, right_there, e, f) refl

    pub at-merge :
        (m : BpNode h)
        → lent h at index slot l r ≡ none
        → merged h l (get_or slot at 0) r ≡ some m
        → delete_at h at index slot subl go
          ≡ relink h (array_remove slot at) (set (array_remove subl (suc at)) at m) at (go m)
    unfolding delete_at
    at-merge m e f = rw (delete_at, there, small, left_there, right_there, e, f) refl
