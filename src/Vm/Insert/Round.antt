-- ===== src/Vm/Insert/Round.antt =====
-- The loop of bpt_insert_non_full with an area that touches no free area.
use libalgo.Common.{
  ℕ, zero, suc, ◌<◌, ◌≤◌, ◌≡◌, refl, sym, ap, ◌∙◌, List, [], ◌++◌, map, Option, none, some, Bool,
  true, false, if◌then◌else◌, get_elem?, set, arith, subst,
}
use libalgo.Common.Int.{ℤ, pos, negsuc}
use libalgo.Btree.Arrays.{Every}
use libalgo.Bplus.{followed}
use libalgo.Vm.{VmapArea}
use libalgo.Vm.Search.{PosCc, pos_cc_eq, pos_cc_lt, pos_cc_gt}
use libalgo.Vm.Node.{Bpn, Internal, entries, is_bpn_full, min_entries, bpn_max_avail}
use libalgo.Vm.Node.Avail.{areas, flat}
use libalgo.Vm.Delete.{fixup_round}
use libalgo.Vm.Delete.Shape.{IsKept, IsKeptChild, areas-max_avail}
use libalgo.Vm.Delete.Pruned.{fixup_round-FixedUp}
use libalgo.Vm.Delete.Loop.{Within}
use libalgo.Vm.Merge.{finished, stopped, by_ppos}
use libalgo.Vm.Merge.Across.{Stored, rejoin, before_link, behind_link}
use mathlib.Core.Option.{some-injective}
use libalgo.Bplus.Focus.{upper, focus}
use libalgo.Vm.Insert.{descend}
use libalgo.Vm.Insert.Place.{
  IsRanged, IsRangedChild, Ended, Later, Around, around, insert_area-around, starts_in-around,
  overlaps_any-around,
}
use libalgo.Vm.Insert.Leaf.{
  IsApart, IsApartOption, child-IsApart, before_link-IsApart, behind_link-IsApart, Put, climbing,
  VmStored,
}

Put-around :
    (va : VmapArea) (rv : ℤ) (front back xs ys : List VmapArea)
    → Ended va.va_start front
    → Later va.va_start back
    → Put va rv xs ys
    → Put va rv (front ++ (xs ++ back)) (front ++ (ys ++ back))
Put-around va (negsuc k) front back xs ys p q (z, e, s) =
    (z, ap (λ w. front ++ (w ++ back)) e, overlaps_any-around va front xs back s)
Put-around va (pos k) front back xs ys p q (z, e, s) = (
  z,
  ap (λ w. front ++ (w ++ back)) e ∙ sym (insert_area-around va front xs back p q),
  starts_in-around va front xs back p q ∙ s,
)

module _ (h low index : ℕ) (va : VmapArea) (p : Internal (Bpn h)) (c : Bpn h)
    (kept : IsKept low (suc h) p) (there : get_elem? p.subl index ≡ some c)
    (o : Around h va.va_start index p.subl c) where
  put :
      (rv : ℤ) (n : Bpn h) (q : Internal (Bpn h))
      → Put va rv (areas h c) (areas h n)
      → q.subl ≡ set p.subl index n
      → Put va rv (areas (suc h) p) (areas (suc h) q)
  put rv n q r e =
      subst (λ z. Put va rv z (areas (suc h) q)) (sym o.whole)
        (subst (λ z. Put va rv (o.front ++ (areas h c ++ o.back)) z)
          (sym (o.after_write n) ∙ ap (λ z. flat (map (areas h) z)) (sym e))
          (Put-around va rv o.front o.back (areas h c) (areas h n) o.ended o.later r))

  stop :
      (rv : ℤ) (n : Bpn h)
      → IsKeptChild h n
      → Put va rv (areas h c) (areas h n)
      → (false ≡ false → bpn_max_avail h n ≡ bpn_max_avail h c)
      → VmStored low (suc h) va p (rejoin h p index (some (rv, finished, stopped, n)))
  unfolding rejoin fixup_round
  stop rv n k r e =
      let (q, s, m) = fixup_round-FixedUp h low index p c n kept there k false e in
      (refl, q, put rv n ((fixup_round h p index false n).1) r refl, (false, refl, m))

  rejoin_with :
      (rv : ℤ) (n : Bpn h) (b : Bool)
      → IsKeptChild h n
      → Put va rv (areas h c) (areas h n)
      → (b ≡ false → bpn_max_avail h n ≡ bpn_max_avail h c)
      → VmStored low (suc h) va p (rejoin h p index (some (rv, finished, climbing b, n)))
  unfolding rejoin
  rejoin_with rv n false k r e = stop rv n k r e
  rejoin_with rv n true k r e =
      let (q, s, m) = fixup_round-FixedUp h low index p c n kept there k true e in
      (
        refl,
        q,
        put rv n ((fixup_round h p index true n).1) r s,
        ((fixup_round h p index true n).0, way ((fixup_round h p index true n).0), m),
      )
    where
      way : (x : Bool) → (if x then by_ppos else stopped) ≡ climbing x
      way true = refl
      way false = refl

  pub rejoin-VmStored :
      (o : Option (Stored h))
      → VmStored min_entries h va c o
      → VmStored low (suc h) va p (rejoin h p index o)
  unfolding rejoin
  rejoin-VmStored none r = r
  rejoin-VmStored (some (rv, todo, climb, n)) (f, k, r, (b, g, e)) =
      subst (λ t. VmStored low (suc h) va p (rejoin h p index (some (rv, t, climb, n)))) (sym f)
        (subst (λ u. VmStored low (suc h) va p (rejoin h p index (some (rv, finished, u, n))))
          (sym g) (rejoin_with rv n b k r e))

pub Stored-same :
    (low low' low'' h : ℕ) (va : VmapArea) (n m : Bpn h) (o : Option (Stored h))
    → IsKept low' h n
    → IsKept low'' h m
    → areas h n ≡ areas h m
    → VmStored low h va n o
    → VmStored low h va m o
Stored-same low low' low'' h va n m none p q e r = r
Stored-same low low' low'' h va n m (some (rv, todo, climb, n')) p q e (f, k, r, (b, g, s)) = (
  f,
  k,
  subst (λ z. Put va rv z (areas h n')) e r,
  (b, g, λ t. s t ∙ areas-max_avail low' low'' h n m p q e),
)

-- The link that is followed.
pub followed-le : (n : ℕ) (found : ℕ × PosCc) → Within n found → followed found ≤ n
unfolding followed
followed-le n (r, pos_cc_eq) w = w.1 refl
followed-le n (r, pos_cc_lt) w = w.0
followed-le n (r, pos_cc_gt) w = w.0

pub full_entries : (h : ℕ) (n : Bpn h) → is_bpn_full h n ≡ true → entries h n ≡ 23
unfolding is_bpn_full
full_entries h n e = ground (arith, e)

pub room_entries :
    (h low : ℕ) (n : Bpn h) → IsKept low h n → is_bpn_full h n ≡ false → entries h n < 23
unfolding is_bpn_full entries
room_entries zero low n p e = ground (arith, e, p.1)
room_entries (suc h) low n p e = ground (arith, e, p.1)

-- The rest of the loop at a link, for children with room between the keys on their sides.
abbrev pub GoesDown :
    (h : ℕ) → VmapArea → (Option VmapArea → Option VmapArea → Bpn h → Option (Stored h)) → Type 0
GoesDown h va go =
    (x y : Option VmapArea) (l u : ℕ) (n : Bpn h)
    → IsKeptChild h n
    → entries h n < 23
    → Every (IsApart va) (areas h n)
    → IsApartOption va x
    → IsApartOption va y
    → IsRanged l u h n
    → l ≤ va.va_start
    → va.va_start < u
    → VmStored min_entries h va n (go x y n)

module _ (h low lo hi : ℕ) (va : VmapArea) (before behind : Option VmapArea)
    (go : Option VmapArea → Option VmapArea → Bpn h → Option (Stored h))
    (b : IsApartOption va before) (c : IsApartOption va behind) (down : GoesDown h va go)
    (lv : lo ≤ va.va_start) (vh : va.va_start < hi) where
  pub descend-VmStored :
      (p : Internal (Bpn h)) (i : ℕ) (n : Bpn h)
      → IsKept low (suc h) p
      → Every (IsApart va) (areas (suc h) p)
      → IsRanged lo hi (suc h) p
      → i ≡ upper va.va_start p.slot
      → get_elem? p.subl i ≡ some n
      → IsKeptChild h n
      → entries h n < 23
      → VmStored low (suc h) va p (descend h before behind p i go)
  unfolding descend
  descend-VmStored p i n kept e ranged index there k room =
      let s =
        focus (IsRangedChild h) (λ x. []) (λ l u x q. tt) va.va_start lo hi p.slot p.subl ranged lv
          vh in
      let at = subst (λ j. get_elem? p.subl j ≡ some n) index there in
      let eq = some-injective s.child n (sym s.there ∙ at) in
      let o = around h va.va_start lo hi p.slot p.subl n ranged (omega (arith, lv, vh)) at in
      rw (descend, there)
        (rejoin-VmStored h low i va p n kept there
          (subst (λ j. Around h va.va_start j p.subl n) (sym index) o)
          (go (before_link h p i before) (behind_link h p i behind) n)
          (down (before_link h p i before) (behind_link h p i behind) s.low s.high n k room
            (child-IsApart va h i p n e there) (before_link-IsApart va h p e i before b)
            (behind_link-IsApart va h p e i behind c)
            (subst (λ z. IsRanged s.low s.high h z) eq s.fits) s.low_le s.lt_high))
