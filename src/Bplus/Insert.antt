-- ===== src/Bplus/Insert.antt =====
-- Insertion into a B+ tree node against the sorted list of its records.
pub mod Split
pub mod Round
use libalgo.Common.{
  ℕ, zero, suc, ◌+◌, ◌<◌, ◌≤◌, ◌≡◌, refl, sym, ap, ◌∙◌, List, [], ◌∷◌, ◌++◌, map, Bool, true, false,
  Option, none, some, ltb, leb, ◌==◌, if◌then◌else◌, Bool-cases, lt→ltb, inl, inr, length, get_or,
  get_elem?, set, subst, arith,
}
use libalgo.Common.Int.{ℤ, pos, negsuc}
use libalgo.Tree.Sorted.{IsSorted, find, insert}
use libalgo.Tree.Spec.{insert-IsSorted}
use libalgo.Btree.{array_insert}
use libalgo.Btree.Arrays.{length-array_insert}
use libalgo.Btree.Index.{rank, rank-le-length}
use libalgo.Vm.Search
use libalgo.Vm.Search.{PosCc, pos_cc_eq, pos_cc_lt, pos_cc_gt, Placed, bpn_bin_search-Placed}
use libalgo.Bplus.{
  BpNode, Record, entries, keys_of, followed, is_bpn_full, bpn_bin_search, bpn_insert_to_leaf,
  slot_insert, relink, insert_round, insert_from, max_entries,
}
use libalgo.Bplus.Chain.{Items, Range, Chain, Chain-IsRising}
use libalgo.Bplus.Leaf.{keys, length-keys, keys-IsRising, at_rank, leaf-Present, leaf-Absent}
use libalgo.Bplus.Node.{items, IsNode, IsChild, node-Range}

-- What the call returns, after what the key led to.
abbrev pub code : Option {0} ℕ → ℤ
code none = pos 0
code (some a) = negsuc 0

abbrev pub Inserted : ℕ → ℕ → ℕ → (h : ℕ) → Record → Items → Option (ℤ × BpNode h) → Type 0
Inserted low lo hi h r xs none = ⊥
Inserted low lo hi h r xs (some (out, n)) =
    IsNode low lo hi h n × (items h n ≡ insert r.0 r.1 xs) × (out ≡ code (find r.0 xs))

pub Placed-rank :
    (ks : List ℕ) (v : ℕ) (found : ℕ × PosCc) → Placed ks v found → found.0 ≡ rank v ks
Placed-rank ks v (r, pos_cc_eq) p = p.0
Placed-rank ks v (r, pos_cc_lt) p = p.0
Placed-rank ks v (r, pos_cc_gt) p = p.0

Range-insert :
    (lo hi v a : ℕ) (xs : Items) → lo ≤ v → v < hi → Range lo hi xs → Range lo hi (insert v a xs)
unfolding insert
Range-insert lo hi v a [] l u r = (l, u, tt)
Range-insert lo hi v a (e ∷ xs) l u r = ground (arith, Range-insert lo hi v a xs l u r.2)

pub leaf-Inserted :
    (low lo hi : ℕ) (n : Items) (r : Record)
    → IsNode low lo hi 0 n
    → length n < max_entries
    → lo ≤ r.0
    → r.0 < hi
    → Inserted low lo hi 0 r n (insert_from 0 n r)
unfolding insert_from bpn_insert_to_leaf slot_insert bpn_bin_search keys_of
leaf-Inserted low lo hi n r p room l u =
    rw
      (
        Placed-rank (keys n) r.0 (Search.bpn_bin_search (keys n) r.0)
            (bpn_bin_search-Placed (keys n) r.0 (keys-IsRising n p.2)),
        fits,
      )
      (elim (Bool-cases (at_rank r.0 n)) [
        | inl e ↦ let q = leaf-Present r.0 n p.2 e in rw e (p, sym (q.4 r.1), ap code (sym (q.1)))
        | inr e ↦
            let q = leaf-Absent r.0 n p.2 e in
            let longer = length-array_insert n (rank r.0 (keys n)) r in
            rw e (
              (
                omega (arith, longer, p.0),
                omega (arith, longer, room),
                subst (λ z. IsSorted z) (sym (q.2 r.1)) (insert-IsSorted r.0 r.1 n p.2),
                subst (λ z. Range lo hi z) (sym (q.2 r.1)) (Range-insert lo hi r.0 r.1 n l u p.3),
              ),
              q.2 r.1,
              ap code (sym (q.0)),
            )
      ])
  where
    fits : ltb (rank r.0 (keys n)) max_entries ≡ true
    fits =
        lt→ltb (rank r.0 (keys n)) 3
          (omega (arith, room, rank-le-length r.0 (keys n), length-keys n))
