-- ===== src/Vm/Delete/Pair.antt =====
-- What the shifts and the merge make of two neighbours.
use libalgo.Common.{
  ℕ, zero, suc, ◌-◌, ◌<◌, ◌≤◌, ◌≡◌, refl, sym, ap, ◌∙◌, List, [], ◌∷◌, ◌++◌, append_assoc, map,
  some, ◌+◌, le→not_ltb, length, take, drop, arith,
}
use mathlib.Core.List.{map-append}
use libalgo.Btree.Arrays.{
  Every-take, Every-drop, length-append, length-take, length-drop, map-take, map-drop,
}
use libalgo.Bplus.Node.{take-drop}
use libalgo.Vm.{VmapArea}
use libalgo.Vm.Node.{Bpn, entries, bpn_max_avail}
use libalgo.Vm.Node.Avail.{areas, flat, flat-append}
use libalgo.Vm.Lookup.Way.{Every-append}
use libalgo.Vm.Delete.{shift_left, shift_right, merged}
use libalgo.Vm.Delete.Shape.{IsKeptChild}

-- Two neighbours with the areas `xs`.
abbrev pub Neighbours : (h : ℕ) → List VmapArea → Bpn h × ℕ × Bpn h → Type 0
Neighbours h xs (a, k, b) = IsKeptChild h a × IsKeptChild h b × (areas h a ++ areas h b ≡ xs)

-- Links moved from one node to another, with their sizes.
module _ (h : ℕ) (ls rs : List (Bpn h)) where
  areas-append :
      flat (map (areas h) (ls ++ rs)) ≡ flat (map (areas h) ls) ++ flat (map (areas h) rs)
  areas-append =
      ap flat (map-append (areas h) ls rs) ∙ flat-append (map (areas h) ls) (map (areas h) rs)

  avail-append :
      (us vs : List ℕ)
      → us ≡ map (bpn_max_avail h) ls
      → vs ≡ map (bpn_max_avail h) rs
      → us ++ vs ≡ map (bpn_max_avail h) (ls ++ rs)
  avail-append us vs a b =
      ap (λ z. z ++ vs) a
      ∙ ap (λ z. map (bpn_max_avail h) ls ++ z) b
      ∙ sym (map-append (bpn_max_avail h) ls rs)

module _ (h n : ℕ) (ls : List (Bpn h)) where
  pub avail-take :
      (us : List ℕ) → us ≡ map (bpn_max_avail h) ls → take n us ≡ map (bpn_max_avail h) (take n ls)
  avail-take us e = ap (take n) e ∙ sym (map-take (bpn_max_avail h) n ls)

  pub avail-drop :
      (us : List ℕ) → us ≡ map (bpn_max_avail h) ls → drop n us ≡ map (bpn_max_avail h) (drop n ls)
  avail-drop us e = ap (drop n) e ∙ sym (map-drop (bpn_max_avail h) n ls)

  pub areas-take-drop :
      flat (map (areas h) (take n ls)) ++ flat (map (areas h) (drop n ls)) ≡ flat (map (areas h) ls)
  areas-take-drop =
      sym (areas-append h (take n ls) (drop n ls))
      ∙ ap (λ z. flat (map (areas h) z)) (take-drop n ls)

pub shift_left-Neighbours :
    (h key : ℕ) (l r : Bpn h)
    → IsKeptChild h l
    → IsKeptChild h r
    → entries h l < 23
    → 11 < entries h r
    → Neighbours h (areas h l ++ areas h r) (shift_left h l key r)
      × (11 < entries h ((shift_left h l key r).0))
unfolding shift_left entries
shift_left-Neighbours zero key l r p q room more =
    let longer = length-append l (take 1 r) in
    let one = length-take 1 r (omega (arith, more)) in
    let fewer = length-drop 1 r in
    (
      (
        (omega (arith, longer, p.0), omega (arith, longer, one, room)),
        (omega (arith, fewer, more), omega (arith, fewer, q.1)),
        append_assoc l (take 1 r) (drop 1 r) ∙ ap (λ z. l ++ z) (take-drop 1 r),
      ),
      omega (arith, longer, one, p.0),
    )
shift_left-Neighbours (suc h) key l r p q room more =
    let longer = length-append l.slot (key ∷ []) in
    let links = length-append l.subl (take 1 r.subl) in
    let one = length-take 1 r.subl (omega (arith, q.2)) in
    let fewer = length-drop 1 r.slot in
    (
      (
        (
          omega (arith, longer, p.0),
          omega (arith, longer, room),
          omega (arith, longer, links, one, p.2),
          avail-append h l.subl (take 1 r.subl) l.suba (take 1 r.suba) p.3
              (avail-take h 1 r.subl r.suba q.3),
          Every-append (IsKeptChild h) l.subl (take 1 r.subl) p.4
              (Every-take (IsKeptChild h) 1 r.subl q.4),
        ),
        (
          omega (arith, fewer, more),
          omega (arith, fewer, q.1),
          omega (arith, fewer, length-drop 1 r.subl, q.2, more),
          avail-drop h 1 r.subl r.suba q.3,
          Every-drop (IsKeptChild h) 1 r.subl q.4,
        ),
        ap (λ z. z ++ flat (map (areas h) (drop 1 r.subl))) (areas-append h l.subl (take 1 r.subl))
            ∙ append_assoc (areas (suc h) l) (flat (map (areas h) (take 1 r.subl)))
                (flat (map (areas h) (drop 1 r.subl)))
            ∙ ap (λ z. areas (suc h) l ++ z) (areas-take-drop h 1 r.subl),
      ),
      omega (arith, longer, p.0),
    )

pub shift_right-Neighbours :
    (h key : ℕ) (l r : Bpn h)
    → IsKeptChild h l
    → IsKeptChild h r
    → entries h r < 23
    → 11 < entries h l
    → Neighbours h (areas h l ++ areas h r) (shift_right h l key r)
      × (11 < entries h ((shift_right h l key r).2))
unfolding shift_right entries
shift_right-Neighbours zero key l r p q room more =
    let n = length l - 1 in
    let longer = length-append (drop n l) r in
    let one = length-drop n l in
    let fewer = length-take n l (omega (arith, more)) in
    (
      (
        (omega (arith, fewer, more), omega (arith, fewer, p.1)),
        (omega (arith, longer, q.0), omega (arith, longer, one, room)),
        sym (append_assoc (take n l) (drop n l) r) ∙ ap (λ z. z ++ r) (take-drop n l),
      ),
      omega (arith, longer, one, more, q.0),
    )
shift_right-Neighbours (suc h) key l r p q room more =
    let n = length l.slot in
    let fewer = length-take (n - 1) l.slot (omega arith) in
    let links = length-take n l.subl (omega (arith, p.2)) in
    let one = length-drop n l.subl in
    let longer = length-append (drop n l.subl) r.subl in
    (
      (
        (
          omega (arith, fewer, more),
          omega (arith, fewer, p.1),
          omega (arith, fewer, links, more),
          avail-take h n l.subl l.suba p.3,
          Every-take (IsKeptChild h) n l.subl p.4,
        ),
        (
          omega (arith, q.0),
          omega (arith, room),
          omega (arith, longer, one, p.2, q.2),
          avail-append h (drop n l.subl) r.subl (drop n l.suba) r.suba
              (avail-drop h n l.subl l.suba p.3) q.3,
          Every-append (IsKeptChild h) (drop n l.subl) r.subl
              (Every-drop (IsKeptChild h) n l.subl p.4) q.4,
        ),
        ap (λ z. flat (map (areas h) (take n l.subl)) ++ z) (areas-append h (drop n l.subl) r.subl)
            ∙ sym (
                append_assoc (flat (map (areas h) (take n l.subl)))
                  (flat (map (areas h) (drop n l.subl))) (areas (suc h) r))
            ∙ ap (λ z. z ++ areas (suc h) r) (areas-take-drop h n l.subl),
      ),
      omega (arith, q.0),
    )

-- The node that a merge leaves has more than the least entries.
pub merged-kept :
    (h key : ℕ) (l r : Bpn h)
    → IsKeptChild h l
    → IsKeptChild h r
    → entries h l ≤ 11
    → entries h r ≤ 11
    → (m : Bpn h) × (merged h l key r ≡ some m)
      × IsKeptChild h m
      × (areas h m ≡ areas h l ++ areas h r)
      × (11 < entries h m)
unfolding merged entries
merged-kept zero key l r p q a b =
    let longer = length-append l r in
    (
      l ++ r,
      rw (merged, le→not_ltb 23 (length l + length r) (omega (arith, a, b))) refl,
      (omega (arith, longer, p.0), omega (arith, longer, a, b)),
      refl,
      omega (arith, longer, p.0, q.0),
    )
merged-kept (suc h) key l r p q a b =
    let longer = length-append l.slot (key ∷ r.slot) in
    (
      record { slot = l.slot ++ (key ∷ r.slot); suba = l.suba ++ r.suba; subl = l.subl ++ r.subl },
      rw (merged, le→not_ltb 23 (length l.slot + length r.slot + 1) (omega (arith, a, b))) refl,
      (
        omega (arith, longer, p.0),
        omega (arith, longer, a, b),
        omega (arith, longer, length-append l.subl r.subl, p.2, q.2),
        avail-append h l.subl r.subl l.suba r.suba p.3 q.3,
        Every-append (IsKeptChild h) l.subl r.subl p.4 q.4,
      ),
      areas-append h l.subl r.subl,
      omega (arith, longer, p.0, q.0),
    )
