-- ===== src/Vm/Insert/Halves.antt =====
-- The halves of a full node between the keys, and the link that is followed after the split.
use libalgo.Common.{
  ℕ, ◌⊎◌, zero, suc, ◌<◌, ◌≤◌, ◌≡◌, refl, sym, ap, ◌∙◌, List, [], ◌∷◌, map, true, false, ltb, leb,
  if◌then◌else◌, Bool-cases, inl, inr, length, get_or, take, drop, take_all, arith, subst,
}
use libalgo.Btree.{array_insert}
use libalgo.Btree.Arrays.{length-drop}
use libalgo.Bplus.{split}
use libalgo.Bplus.Chain.{Chain, Chain-cut}
use libalgo.Bplus.Focus.{upper}
use libalgo.Vm.{VmapArea}
use libalgo.Vm.Node.{Bpn, entries, keys_of}
use libalgo.Vm.Split.{bpn_halves}
use libalgo.Vm.Delete.Shape.{IsKept}
use libalgo.Vm.Insert.Order.{Spans}
use libalgo.Vm.Insert.Place.{IsRanged, IsRangedChild}

-- The number of the link after a split.
pub upper-array_insert :
    (v k : ℕ) (ks : List ℕ)
    → upper v (array_insert ks (upper v ks) k) ≡ (if leb k v then suc (upper v ks) else upper v ks)
unfolding upper array_insert
upper-array_insert v k [] = ground arith
upper-array_insert v k (s ∷ ks) = elim (Bool-cases (ltb v s)) [
  | inl g ↦ rw g (ground (arith, g))
  | inr g ↦ rw (g, g) (rest (upper-array_insert v k ks) (Bool-cases (leb k v)))
]
  where
    rest :
        upper v (array_insert ks (upper v ks) k)
          ≡ (if leb k v then suc (upper v ks) else upper v ks)
        → (leb k v ≡ true) ⊎ (leb k v ≡ false)
        → suc (upper v (array_insert ks (upper v ks) k))
          ≡ (if leb k v then suc (suc (upper v ks)) else suc (upper v ks))
    rest r (inl e) = rw e (ap suc (r ∙ rw e refl))
    rest r (inr e) = rw e (ap suc (r ∙ rw e refl))

Spans-cut :
    (i lo hi : ℕ) (n : List VmapArea)
    → i < length n
    → Spans lo hi n
    → (lo ≤ get_or (map (λ a. a.va_start) (drop i n)) 0 0)
      × (0 < i → lo < get_or (map (λ a. a.va_start) (drop i n)) 0 0)
      × (get_or (map (λ a. a.va_start) (drop i n)) 0 0 < hi)
      × Spans lo (get_or (map (λ a. a.va_start) (drop i n)) 0 0) (take i n)
      × Spans (get_or (map (λ a. a.va_start) (drop i n)) 0 0) hi (drop i n)
Spans-cut i lo hi [] l p = absurd (omega (arith, l))
Spans-cut zero lo hi (a ∷ n) l p = (
  p.0,
  (λ z. absurd (omega (arith, z))),
  omega (arith, p.1, p.2),
  tt,
  (omega arith, p.1, p.2, p.3),
)
Spans-cut (suc i) lo hi (a ∷ n) l p =
    let r = Spans-cut i a.va_end hi n (omega (arith, l)) p.3 in
    (
      omega (arith, p.0, p.1, r.0),
      (λ z. omega (arith, p.0, p.1, r.0)),
      r.2,
      (p.0, p.1, r.0, r.3),
      r.4,
    )

-- The halves of a full node lie on the sides of the key for the parent.
pub bpn_halves-IsRanged :
    (h low lo hi : ℕ) (n : Bpn h)
    → IsKept low h n
    → IsRanged lo hi h n
    → entries h n ≡ 23
    → (lo < (bpn_halves h n).1)
      × ((bpn_halves h n).1 < hi)
      × IsRanged lo ((bpn_halves h n).1) h ((bpn_halves h n).0)
      × IsRanged ((bpn_halves h n).1) hi h ((bpn_halves h n).2)
unfolding bpn_halves entries keys_of split
bpn_halves-IsRanged zero low lo hi n kept p e =
    let c = Spans-cut 11 lo hi n (omega (arith, e)) p in
    subst
      (λ z.
        (lo < get_or (map (λ a. a.va_start) z) 0 0)
        × (get_or (map (λ a. a.va_start) z) 0 0 < hi)
        × Spans lo (get_or (map (λ a. a.va_start) z) 0 0) (take 11 n)
        × Spans (get_or (map (λ a. a.va_start) z) 0 0) hi z)
      (sym (take_all 12 (drop 11 n) (omega (arith, length-drop 11 n, e))))
      (c.1 (omega arith), c.2, c.3, c.4)
bpn_halves-IsRanged (suc h) low lo hi n kept p e =
    let c = Chain-cut (IsRangedChild h) 11 lo hi n.slot n.subl (omega (arith, e)) p in
    (
      c.0,
      c.1,
      c.2,
      subst (λ z. Chain (IsRangedChild h) (get_or n.slot 11 0) hi z (take 12 (drop 12 n.subl)))
          (sym (take_all 11 (drop 12 n.slot) (omega (arith, length-drop 12 n.slot, e))))
          (subst (λ z. Chain (IsRangedChild h) (get_or n.slot 11 0) hi (drop 12 n.slot) z)
            (sym (take_all 12 (drop 12 n.subl) (omega (arith, length-drop 12 n.subl, e, kept.2))))
            c.3),
    )
