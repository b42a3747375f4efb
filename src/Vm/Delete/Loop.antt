-- ===== src/Vm/Delete/Loop.antt =====
-- The loop of bpt_po_delete with the searches.
use libalgo.Common.{
  ℕ, zero, suc, ◌+◌, ◌/◌, ◌-◌, ◌<◌, ◌≤◌, ◌≡◌, ◌⊎◌, refl, sym, List, map, Option, some, false, ltb,
  if◌then◌else◌, Bool-cases, inl, inr, length, get_or, get_elem?, arith, subst,
}
use libalgo.Btree.Arrays.{get_elem-Every, length-map}
use libalgo.Bplus.{followed}
use libalgo.Vm.Search
use libalgo.Vm.Search.{PosCc, pos_cc_eq, pos_cc_lt, pos_cc_gt, pos_cc, bin_loop}
use libalgo.Vm.Node.{Bpn, Internal, entries, keys_of, bpn_bin_search, min_entries, is_bpn_gt_min}
use libalgo.Vm.Delete.{Cleared, delete_at, delete_round, delete_from}
use libalgo.Vm.Delete.Shape.{IsKept, IsKeptChild}
use libalgo.Vm.Delete.Pruned.{Pruned, relink-Pruned, pos_cc-eq, leaf_remove-Pruned}
use libalgo.Vm.Delete.Round.{gt_min-entries, at-below}
use libalgo.Vm.Delete.Rebalance.{Spare, entries-Spare, at_left, at_right}

bin_loop-most : (fuel : ℕ) (keys : List ℕ) (key l r : ℕ) → l ≤ r → bin_loop fuel keys key l r ≤ r
unfolding bin_loop
bin_loop-most zero keys key l r e = omega arith
bin_loop-most (suc fuel) keys key l r e = elim (Bool-cases (ltb l r)) [
  | inr o ↦ rw (bin_loop, o) (omega arith)
  | inl o ↦ elim (Bool-cases (ltb (get_or keys ((l + r - 1) / 2) 0) key)) [
    | inl q ↦
        rw (bin_loop, o, q)
          (bin_loop-most fuel keys key (suc ((l + r - 1) / 2)) r (ground (arith, o)))
    | inr q ↦
        let m = bin_loop-most fuel keys key l ((l + r - 1) / 2) (ground (arith, o)) in
        rw (bin_loop, o, q) (ground (arith, o, m))
  ]
]

-- The position that a search finds is at most the number of keys, and less where the key is there.
abbrev pub Within : ℕ → ℕ × PosCc → Type 0
Within n (r, c) = (r ≤ n) × (c ≡ pos_cc_eq → r < n)

pub bpn_bin_search-Within :
    (keys : List ℕ) (key : ℕ) → Within (length keys) (Search.bpn_bin_search keys key)
unfolding Search.bpn_bin_search
bpn_bin_search-Within keys key = (
  bin_loop-most (length keys) keys key 0 (length keys) (omega arith),
  pos_cc-eq keys key (bin_loop (length keys) keys key 0 (length keys)),
)

abbrev beside : ℕ × PosCc → ℕ → ℕ
beside found n = if ltb found.0 n then found.0 else found.0 - 1

followed-beside :
    (n : ℕ) (found : ℕ × PosCc)
    → 0 < n
    → Within n found
    → (beside found n < n)
      × ((followed found ≡ beside found n) ⊎ (followed found ≡ suc (beside found n)))
unfolding followed
followed-beside n (r, pos_cc_eq) l p =
    let e = p.1 refl in (ground (arith, e), inr (ground (arith, e)))
followed-beside n (r, pos_cc_lt) l p = elim (Bool-cases (ltb r n)) [
  | inl s ↦ rw s (ground (arith, s), inl refl)
  | inr s ↦ rw s (ground (arith, s, l, p.0), inr (ground (arith, s, l)))
]
followed-beside n (r, pos_cc_gt) l p = elim (Bool-cases (ltb r n)) [
  | inl s ↦ rw s (ground (arith, s), inl refl)
  | inr s ↦ rw s (ground (arith, s, l, p.0), inr (ground (arith, s, l)))
]

-- A round at the link `index`.
at-Pruned :
    (low h at index key : ℕ) (p : Internal (Bpn h)) (go : Bpn h → Option (Cleared h))
    → IsKept low (suc h) p
    → low < length p.slot
    → at < length p.slot
    → ((c : Bpn h) → IsKeptChild h c → 11 < entries h c → Pruned min_entries h key c (go c))
    → (index ≡ at) ⊎ (index ≡ suc at)
    → Pruned low (suc h) key p (delete_at h at index p go)
at-Pruned low h at index key p go kept spare within down near =
    let (l, left_there, pl, same) =
      get_elem-Every (IsKeptChild h) p.subl at (omega (arith, within, kept.2)) kept.4 in
    let (r, right_there, pr, same') =
      get_elem-Every (IsKeptChild h) p.subl (suc at) (omega (arith, within, kept.2)) kept.4 in
    elim near [
      | inl e ↦
          subst (λ i. Pruned low (suc h) key p (delete_at h at i p go)) (sym e)
            (step at l left_there pl
              (at_left low h at key p go kept spare within down l r left_there right_there pl pr))
      | inr e ↦
          subst (λ i. Pruned low (suc h) key p (delete_at h at i p go)) (sym e)
            (step (suc at) r right_there pr
              (at_right low h at key p go kept spare within down l r left_there right_there pl pr))
    ]
  where
    step :
        (i : ℕ) (n : Bpn h)
        → get_elem? p.subl i ≡ some n
        → IsKeptChild h n
        → (is_bpn_gt_min h n ≡ false → Pruned low (suc h) key p (delete_at h at i p go))
        → Pruned low (suc h) key p (delete_at h at i p go)
    step i n there pn small = elim (Bool-cases (is_bpn_gt_min h n)) [
      | inr s ↦ small s
      | inl s ↦
          subst (λ o. Pruned low (suc h) key p o) (sym (at-below h at i p n n n go there s))
            (relink-Pruned low h key i p n (go n) kept there (down n pn (gt_min-entries h n s)))
    ]

pub delete_from-Pruned :
    (low h key : ℕ) (n : Bpn h)
    → IsKept 0 h n
    → IsKept low h n
    → Spare low h n
    → Pruned low h key n (delete_from h n key)
unfolding delete_from delete_round bpn_bin_search keys_of
delete_from-Pruned low zero key n p q s =
    let w = bpn_bin_search-Within (map (λ va. va.va_start) n) key in
    let found = Search.bpn_bin_search (map (λ va. va.va_start) n) key in
    leaf_remove-Pruned low key n found.0 found.1 p s
      (λ e. omega (arith, w.1 e, length-map (λ va. va.va_start) n))
delete_from-Pruned low (suc h) key n p q s =
    let (within, near) =
      followed-beside (length n.slot) (Search.bpn_bin_search n.slot key) (omega (arith, s))
        (bpn_bin_search-Within n.slot key) in
    at-Pruned low h (beside (Search.bpn_bin_search n.slot key) (length n.slot))
      (followed (Search.bpn_bin_search n.slot key)) key n (λ c. delete_from h c key) q s within
      (λ c x more. delete_from-Pruned min_entries h key c (loosen h c x) x (entries-Spare h c more))
      near
  where
    loosen : (h : ℕ) (c : Bpn h) → IsKeptChild h c → IsKept 0 h c
    loosen zero c x = (omega arith, x.1)
    loosen (suc h) c x = (omega arith, x.1, x.2, x.3, x.4)
