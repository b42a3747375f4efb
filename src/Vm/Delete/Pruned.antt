-- ===== src/Vm/Delete/Pruned.antt =====
-- What the removal makes of a node, at the leaf and on the way back up.
use libalgo.Common.{
  ℕ, zero, suc, ◌-◌, ◌<◌, ◌≤◌, ◌≡◌, refl, sym, ap, ◌∙◌, List, [], ◌∷◌, ◌++◌, append_assoc, map,
  Option, none, some, Bool, true, false, ltb, ◌==◌, Bool-cases, inl, inr, length, length-set,
  lt→ltb, set_same, get_or, get_elem?, set, arith, subst,
}
use libalgo.Btree.{array_remove}
use libalgo.Btree.Arrays.{Every-set, map-set}
use libalgo.Vm.{VmapArea}
use libalgo.Vm.Search.{PosCc, pos_cc_eq, pos_cc_lt, pos_cc_gt, pos_cc, max_entries}
use libalgo.Vm.Node.{Bpn, Internal, keys_of, min_entries, bpn_max_avail}
use libalgo.Vm.Node.Avail.{areas, flat}
use libalgo.Vm.Delete.{
  Cleared, fixup_round, relink, bpn_remove_from_leaf, leaf_cleared, leaf_remove,
}
use libalgo.Vm.Delete.Shape.{IsKept, IsKeptChild, areas-max_avail}
use libalgo.Vm.Delete.Links.{one, length-array_remove, get_or-map}

-- The areas `xs` without `out`, which has the key.
abbrev pub Removed : ℕ → Option {0} VmapArea → List VmapArea → List VmapArea → Type 0
Removed key none xs ys = ys ≡ xs
Removed key (some va) xs ys =
    (va.va_start ≡ key)
    × ((front : List VmapArea) × (back : List VmapArea) × (xs ≡ front ++ (va ∷ back))
        × (ys ≡ front ++ back))

pub Removed-between :
    (key : ℕ) (out : Option VmapArea) (front back xs ys : List VmapArea)
    → Removed key out xs ys
    → Removed key out (front ++ (xs ++ back)) (front ++ (ys ++ back))
Removed-between key none front back xs ys r = ap (λ z. front ++ (z ++ back)) r
Removed-between key (some va) front back xs ys (k, (a, b, e, g)) =
    (k, (front ++ a, b ++ back, around (va ∷ b) e, around b g))
  where
    around :
        {zs : List VmapArea} (us : List VmapArea)
        → zs ≡ a ++ us
        → front ++ (zs ++ back) ≡ (front ++ a) ++ (us ++ back)
    around us h =
        ap (λ z. front ++ (z ++ back)) h
        ∙ ap (λ z. front ++ z) (append_assoc a us back)
        ∙ sym (append_assoc front a (us ++ back))

pub Removed-same :
    (key : ℕ) (out : Option VmapArea) (xs xs' ys ys' : List VmapArea)
    → xs ≡ xs'
    → ys ≡ ys'
    → Removed key out xs ys
    → Removed key out xs' ys'
Removed-same key out xs xs' ys ys' e g r =
    subst (λ z. Removed key out z ys') e (subst (λ z. Removed key out xs z) g r)

-- A kept node without the area that is returned; where `fixup_metadata` no longer climbs, its
-- greatest free size is that of `n`.
abbrev pub Pruned : ℕ → (h : ℕ) → ℕ → Bpn h → Option (Cleared h) → Type 0
Pruned low h key n none = ⊥
Pruned low h key n (some (out, climbs, n')) =
    IsKept low h n'
    × Removed key out (areas h n) (areas h n')
    × (climbs ≡ false → bpn_max_avail h n' ≡ bpn_max_avail h n)

pub Pruned-same :
    (low low' low'' h key : ℕ) (n m : Bpn h) (o : Option (Cleared h))
    → IsKept low' h n
    → IsKept low'' h m
    → areas h n ≡ areas h m
    → Pruned low h key n o
    → Pruned low h key m o
Pruned-same low low' low'' h key n m none p q e r = r
Pruned-same low low' low'' h key n m (some (out, climbs, n')) p q e (a, b, c) = (
  a,
  Removed-same key out (areas h n) (areas h m) (areas h n') (areas h n') e refl b,
  λ s. c s ∙ areas-max_avail low' low'' h n m p q e,
)

module _ (h low index : ℕ) (p : Internal (Bpn h)) (c n : Bpn h) (kept : IsKept low (suc h) p)
    (there : get_elem? p.subl index ≡ some c) (child : IsKeptChild h n) where
  avail_at : get_or p.suba index 0 ≡ bpn_max_avail h c
  avail_at = ap (λ z. get_or z index 0) kept.3 ∙ get_or-map (bpn_max_avail h) p.subl index c 0 there

  linked :
      (suba : List ℕ)
      → suba ≡ map (bpn_max_avail h) (set p.subl index n)
      → IsKept low (suc h) (record { slot = p.slot; suba = suba; subl = set p.subl index n })
  linked suba e = (
    kept.0,
    kept.1,
    length-set p.subl index n ∙ kept.2,
    e,
    Every-set (IsKeptChild h) p.subl index n kept.4 child,
  )

  -- The entry for the link is right already.
  unchanged :
      get_or p.suba index 0 ≡ bpn_max_avail h n
      → p.suba ≡ map (bpn_max_avail h) (set p.subl index n)
  unchanged e =
      sym (set_same p.suba index (bpn_max_avail h n) there_too)
      ∙ ap (λ z. set z index (bpn_max_avail h n)) kept.3
      ∙ sym (map-set (bpn_max_avail h) p.subl index n)
    where
      there_too : get_or p.suba index (bpn_max_avail h n) ≡ bpn_max_avail h n
      there_too =
          ap (λ z. get_or z index (bpn_max_avail h n)) kept.3
          ∙ get_or-map (bpn_max_avail h) p.subl index c (bpn_max_avail h n) there
          ∙ sym avail_at
          ∙ e

  abbrev pub FixedUp : Bool × Internal (Bpn h) → Type 0
  FixedUp (climbs, q) =
      IsKept low (suc h) q
      × (q.subl ≡ set p.subl index n)
      × (climbs ≡ false → bpn_max_avail (suc h) q ≡ bpn_max_avail (suc h) p)

  pub fixup_round-FixedUp :
      (climbs : Bool)
      → (climbs ≡ false → bpn_max_avail h n ≡ bpn_max_avail h c)
      → FixedUp (fixup_round h p index climbs n)
  unfolding fixup_round
  fixup_round-FixedUp false e =
      (linked p.suba (unchanged (avail_at ∙ sym (e refl))), refl, λ s. refl)
  fixup_round-FixedUp true e = elim (Bool-cases (get_or p.suba index 0 == bpn_max_avail h n)) [
    | inl s ↦ rw (fixup_round, s) (linked p.suba (unchanged (ground (arith, s))), refl, λ t. refl)
    | inr s ↦
        rw (fixup_round, s)
          (
            linked (set p.suba index (bpn_max_avail h n)) (
                ap (λ z. set z index (bpn_max_avail h n)) kept.3
                ∙ sym (map-set (bpn_max_avail h) p.subl index n)),
            refl,
            λ t. cc,
          )
  ]

-- The child number `index`, replaced by what comes of it.
pub relink-Pruned :
    (low h key index : ℕ) (p : Internal (Bpn h)) (c : Bpn h) (o : Option (Cleared h))
    → IsKept low (suc h) p
    → get_elem? p.subl index ≡ some c
    → Pruned min_entries h key c o
    → Pruned low (suc h) key p (relink h p index o)
unfolding relink
relink-Pruned low h key index p c none kept there r = r
relink-Pruned low h key index p c (some (out, climbs, n)) kept there (a, b, e) =
    let (q, g, s) = fixup_round-FixedUp h low index p c n kept there a climbs e in
    let o = one (areas h) p.subl index c there in
    (
      q,
      Removed-same key out (o.front ++ (areas h c ++ o.back)) (areas (suc h) p)
          (o.front ++ (areas h n ++ o.back)) (areas (suc h) ((fixup_round h p index climbs n).1))
          (sym o.whole) (sym (o.after_write n) ∙ ap (λ z. flat (map (areas h) z)) (sym g))
          (Removed-between key out o.front o.back (areas h c) (areas h n) b),
      s,
    )

-- The leaf.
pub pos_cc-eq : (keys : List ℕ) (key r : ℕ) → pos_cc keys key r ≡ pos_cc_eq → r < length keys
unfolding pos_cc
pos_cc-eq keys key r e = elim (Bool-cases (ltb r (length keys))) [
  | inl s ↦ ground (arith, s)
  | inr s ↦ absurd (apart (sym (rw (pos_cc, s) refl) ∙ e))
]
  where
    apart : pos_cc_gt ≡ pos_cc_eq → ⊥
    apart e = cc

key-start :
    (n : List VmapArea) (i key : ℕ)
    → i < length n
    → get_or (map (λ va. va.va_start) n) i 0 ≡ key
    → (va : VmapArea) × (get_elem? n i ≡ some va) × Removed key (some va) n (array_remove n i)
unfolding array_remove
key-start [] i key l e = absurd (omega (arith, l))
key-start (va ∷ n) zero key l e = (va, refl, (e, ([], n, refl, refl)))
key-start (x ∷ n) (suc i) key l e =
    let (va, g, (k, (a, b, f, r))) = key-start n i key (omega (arith, l)) e in
    (va, g, (k, (x ∷ a, b, ap (λ z. x ∷ z) f, ap (λ z. x ∷ z) r)))

-- A leaf that can lose an area.
pub leaf_remove-Pruned :
    (low key : ℕ) (n : List VmapArea) (r : ℕ) (c : PosCc)
    → IsKept 0 0 n
    → low ≤ length n - 1
    → (c ≡ pos_cc_eq → r < length n)
    → Pruned low 0 key n (leaf_remove n (r, c) key)
unfolding leaf_remove bpn_remove_from_leaf leaf_cleared keys_of bpn_max_avail
leaf_remove-Pruned low key n r pos_cc_lt p l e = ((omega (arith, l), p.1), refl, λ s. refl)
leaf_remove-Pruned low key n r pos_cc_gt p l e = ((omega (arith, l), p.1), refl, λ s. refl)
leaf_remove-Pruned low key n r pos_cc_eq p l e =
    elim (Bool-cases (get_or (map (λ va. va.va_start) n) r 0 == key)) [
      | inr s ↦
          rw (leaf_remove, bpn_remove_from_leaf, fits, s) ((omega (arith, l), p.1), refl, λ t. refl)
      | inl s ↦
          let (va, g, b) = key-start n r key (e refl) (ground (arith, s)) in
          let shorter = length-array_remove n r (e refl) in
          rw (leaf_remove, bpn_remove_from_leaf, fits, s, g)
            ((omega (arith, shorter, l), omega (arith, shorter, p.1)), b, λ t. cc)
    ]
  where
    fits : ltb r max_entries ≡ true
    fits = lt→ltb r 23 (omega (arith, e refl, p.1))
