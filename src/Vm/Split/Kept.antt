-- ===== src/Vm/Split/Kept.antt =====
-- What a split keeps: the areas, the number of entries and the greatest free sizes.
use libalgo.Common.{
  ℕ, zero, suc, ◌<◌, ◌≤◌, ◌≡◌, refl, sym, ap, ◌∙◌, List, [], ◌∷◌, ◌++◌, map, some, lt→ltb, length,
  length-set, get_elem?, set, take, drop, take_all, arith,
}
use libalgo.Btree.{array_insert}
use libalgo.Btree.Arrays.{
  Every, Every-set, Every-take, Every-drop, Every-array_insert, length-take, length-drop,
  length-array_insert, length-map, map-set, map-array_insert, pair_at,
}
use libalgo.Bplus.{split}
use libalgo.Bplus.Node.{take-drop}
use libalgo.Vm.Node.{Bpn, Internal, entries, keys_of, bpn_max_avail}
use libalgo.Vm.Node.Avail.{areas, flat}
use libalgo.Vm.Split.{bpn_halves, bpn_split}
use libalgo.Vm.Delete.Shape.{IsKept, IsKeptChild}
use libalgo.Vm.Delete.Links.{one}
use libalgo.Vm.Delete.Pair.{Neighbours, avail-take, avail-drop, areas-take-drop}

-- The halves of a full node, both with room.
pub bpn_halves-Neighbours :
    (low h : ℕ) (n : Bpn h)
    → IsKept low h n
    → entries h n ≡ 23
    → Neighbours h (areas h n) (bpn_halves h n)
      × (entries h ((bpn_halves h n).0) < 23)
      × (entries h ((bpn_halves h n).2) < 23)
unfolding bpn_halves entries keys_of split
bpn_halves-Neighbours low zero n p e =
    let left = length-take 11 n (omega (arith, e)) in
    let rest = length-drop 11 n in
    let right = length-take 12 (drop 11 n) (omega (arith, rest, e)) in
    (
      (
        (omega (arith, left), omega (arith, left)),
        (omega (arith, right), omega (arith, right)),
        ap (λ z. take 11 n ++ z) (take_all 12 (drop 11 n) (omega (arith, rest, e)))
            ∙ take-drop 11 n,
      ),
      omega (arith, left),
      omega (arith, right),
    )
bpn_halves-Neighbours low (suc h) n p e =
    let left = length-take 11 n.slot (omega (arith, e)) in
    let rest = length-drop 12 n.slot in
    let right = length-take 11 (drop 12 n.slot) (omega (arith, rest, e)) in
    let links = length-take 12 n.subl (omega (arith, e, p.2)) in
    let behind = length-drop 12 n.subl in
    let links' = length-take 12 (drop 12 n.subl) (omega (arith, behind, e, p.2)) in
    (
      (
        (
          omega (arith, left),
          omega (arith, left),
          omega (arith, left, links),
          avail-take h 12 n.subl n.suba p.3,
          Every-take (IsKeptChild h) 12 n.subl p.4,
        ),
        (
          omega (arith, right),
          omega (arith, right),
          omega (arith, right, links'),
          avail-take h 12 (drop 12 n.subl) (drop 12 n.suba) (avail-drop h 12 n.subl n.suba p.3),
          Every-take (IsKeptChild h) 12 (drop 12 n.subl) (Every-drop (IsKeptChild h) 12 n.subl p.4),
        ),
        ap (λ z. flat (map (areas h) (take 12 n.subl)) ++ flat (map (areas h) z))
              (take_all 12 (drop 12 n.subl) (omega (arith, behind, e, p.2)))
            ∙ areas-take-drop h 12 n.subl,
      ),
      omega (arith, left),
      omega (arith, right),
    )

set-array_insert :
    (xs : List ℕ) (i a b : ℕ)
    → i < length xs
    → set (array_insert xs i a) (suc i) b ≡ pair_at xs i a b
unfolding array_insert
set-array_insert [] i a b l = absurd (omega (arith, l))
set-array_insert (x ∷ xs) zero a b l = refl
set-array_insert (x ∷ xs) (suc i) a b l =
    ap (λ z. x ∷ z) (set-array_insert xs i a b (omega (arith, l)))

-- The parent after the split.
abbrev pub parted : (h i : ℕ) → Internal (Bpn h) → Bpn h → Internal (Bpn h)
parted h i p n =
    let (a, key, b) = bpn_halves h n in
    record {
      slot = array_insert p.slot i key;
      suba = set (array_insert p.suba i (bpn_max_avail h a)) (suc i) (bpn_max_avail h b);
      subl = pair_at p.subl i a b;
    }

-- A node with the link number `i` to the full child `n`; the size kept for this link may be wrong.
module _ (h i low low' : ℕ) (p : Internal (Bpn h)) (n : Bpn h) (most : length p.slot < 23)
    (least : low ≤ suc (length p.slot)) (links : length p.subl ≡ suc (length p.slot))
    (else_right : (a : ℕ) → set p.suba i a ≡ set (map (bpn_max_avail h) p.subl) i a)
    (every : Every (IsKeptChild h) p.subl) (there : get_elem? p.subl i ≡ some n)
    (within : i ≤ length p.slot) (kept : IsKept low' h n) (full : entries h n ≡ 23) where
  abbrev a : Bpn h
  a = (bpn_halves h n).0

  abbrev b : Bpn h
  b = (bpn_halves h n).2

  pub bpn_split-parted : bpn_split h p i n ≡ some (parted h i p n)
  unfolding bpn_split
  bpn_split-parted =
      rw
        (
          bpn_split,
          lt→ltb i 23 (omega (arith, within, most)),
          lt→ltb (suc i) 24 (omega (arith, within, most)),
        )
        refl

  parted-suba : (parted h i p n).suba ≡ map (bpn_max_avail h) (parted h i p n).subl
  parted-suba =
      set-array_insert p.suba i (bpn_max_avail h a) (bpn_max_avail h b)
        (omega (arith, within, links, sizes))
      ∙ ap (λ z. array_insert z (suc i) (bpn_max_avail h b))
          (else_right (bpn_max_avail h a) ∙ sym (map-set (bpn_max_avail h) p.subl i a))
      ∙ sym (map-array_insert (bpn_max_avail h) (set p.subl i a) (suc i) b)
    where
      sizes : length p.suba ≡ length p.subl
      sizes =
          sym (length-set p.suba i 0)
          ∙ ap length (else_right 0)
          ∙ length-set (map (bpn_max_avail h) p.subl) i 0
          ∙ length-map (bpn_max_avail h) p.subl

  -- The parent has the same areas, and the sizes of its links are right.
  pub parted-IsKept :
      IsKept low (suc h) (parted h i p n)
      × (areas (suc h) (parted h i p n) ≡ flat (map (areas h) p.subl))
  parted-IsKept =
      let ((x, y, e), r, s) = bpn_halves-Neighbours low' h n kept full in
      let o = one (areas h) p.subl i n there in
      let longer = length-array_insert p.slot i ((bpn_halves h n).1) in
      (
        (
          omega (arith, longer, least),
          omega (arith, longer, most),
          omega (
            arith,
            longer,
            links,
            length-set p.subl i a,
            length-array_insert (set p.subl i a) (suc i) b,
          ),
          parted-suba,
          Every-array_insert (IsKeptChild h) (set p.subl i a) (suc i) b
              (Every-set (IsKeptChild h) p.subl i a every x) y,
        ),
        o.after_split a b ∙ ap (λ z. o.front ++ (z ++ o.back)) e ∙ sym o.whole,
      )

pub kept-parted :
    (h i low : ℕ) (p : Internal (Bpn h)) (n : Bpn h)
    → IsKept low (suc h) p
    → length p.slot < 23
    → get_elem? p.subl i ≡ some n
    → i ≤ length p.slot
    → IsKeptChild h n
    → entries h n ≡ 23
    → (bpn_split h p i n ≡ some (parted h i p n))
      × IsKept (suc low) (suc h) (parted h i p n)
      × (areas (suc h) (parted h i p n) ≡ areas (suc h) p)
kept-parted h i low p n kept most there within q full =
    let (k, e) =
      parted-IsKept h i (suc low) 11 p n most (omega (arith, kept.0)) kept.2
        (λ a. ap (λ z. set z i a) kept.3) kept.4 there within q full in
    (
      bpn_split-parted h i (suc low) 11 p n most (omega (arith, kept.0)) kept.2
          (λ a. ap (λ z. set z i a) kept.3) kept.4 there within q full,
      k,
      e,
    )
