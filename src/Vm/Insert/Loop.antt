-- ===== src/Vm/Insert/Loop.antt =====
-- The rounds of bpt_insert_non_full with their searches and splits.
use libalgo.Common.{
  ℕ, [], ◌∙◌, zero, suc, ◌<◌, ◌≤◌, ◌≡◌, sym, map, Option, some, true, leb, if◌then◌else◌,
  Bool-cases, inl, inr, length, get_or, get_elem?, arith, subst,
}
use libalgo.Btree.Arrays.{Every, get_elem-Every, get_elem-left, get_elem-right, length-map}
use libalgo.Bplus.{followed}
use libalgo.Vm.{VmapArea}
use libalgo.Vm.Search
use libalgo.Vm.Search.{PosCc}
use libalgo.Vm.Node.{Bpn, Internal, entries, keys_of, is_bpn_full, bpn_bin_search, min_entries}
use libalgo.Vm.Node.Avail.{areas}
use libalgo.Vm.Delete.Shape.{IsKept, IsKeptChild}
use libalgo.Vm.Delete.Loop.{bpn_bin_search-Within}
use libalgo.Vm.Merge.Across.{Stored}
use libalgo.Vm.Split.{bpn_halves}
use libalgo.Vm.Split.Kept.{bpn_halves-Neighbours, parted, kept-parted}
use libalgo.Vm.Insert.{descend, insert_round, insert_from}
use libalgo.Vm.Insert.Leaf.{IsApart, IsApartOption, VmStored, store_in_leaf-VmStored}
use mathlib.Core.Option.{some-injective}
use libalgo.Btree.{array_insert}
use libalgo.Btree.Index.{IsRising}
use libalgo.Bplus.Chain.{Chain-IsRising}
use libalgo.Bplus.Focus.{Focus, focus, upper, upper-le-length, followed-upper}
use libalgo.Bplus.Insert.Round.{turn}
use libalgo.Vm.Insert.Halves.{upper-array_insert, bpn_halves-IsRanged}
use libalgo.Vm.Insert.Place.{IsRanged, IsRangedChild}
use libalgo.Vm.Insert.Round.{
  GoesDown, descend-VmStored, Stored-same, followed-le, full_entries, room_entries,
}

module _ (h low lo hi : ℕ) (va : VmapArea) (before behind : Option VmapArea)
    (go : Option VmapArea → Option VmapArea → Bpn h → Option (Stored h))
    (b : IsApartOption va before) (c : IsApartOption va behind) (down : GoesDown h va go)
    (lv : lo ≤ va.va_start) (vh : va.va_start < hi) (p : Internal (Bpn h))
    (kept : IsKept low (suc h) p) (room : length p.slot < 23)
    (apart : Every (IsApart va) (areas (suc h) p)) (ranged : IsRanged lo hi (suc h) p)
    (found : ℕ × PosCc) (placed : Search.Placed p.slot va.va_start found) (n : Bpn h)
    (there : get_elem? p.subl (followed found) ≡ some n) (k : IsKeptChild h n) where
  rising : IsRising p.slot
  rising = Chain-IsRising (IsRangedChild h) lo hi p.slot p.subl ranged

  index : followed found ≡ upper va.va_start p.slot
  index = followed-upper p.slot va.va_start found rising placed

  at : followed found ≤ length p.slot
  at = omega (arith, index, upper-le-length va.va_start p.slot)

  in_range : followed found < length p.subl
  in_range = omega (arith, at, kept.2)

  abbrev next : Internal (Bpn h)
  next = parted h (followed found) p n

  abbrev key : ℕ
  key = (bpn_halves h n).1

  abbrev Link : Type 0
  Link = Focus (IsRangedChild h) (λ x. []) va.va_start lo hi (followed found) p.slot p.subl

  link : Link
  link =
      subst (λ j. Focus (IsRangedChild h) (λ x. []) va.va_start lo hi j p.slot p.subl) (sym index)
        (focus (IsRangedChild h) (λ x. []) (λ l u x q. tt) va.va_start lo hi p.slot p.subl ranged lv
          vh)

  -- The halves between the keys, and the link that is followed after the split.
  split_IsRanged :
      entries h n ≡ 23
      → IsRanged lo hi (suc h) next
        × ((if leb (get_or next.slot found.0 0) va.va_start then suc found.0 else followed found)
            ≡ (if leb key va.va_start then suc (followed found) else followed found))
        × ((if leb key va.va_start then suc (followed found) else followed found)
            ≡ upper va.va_start next.slot)
  split_IsRanged full =
      let eq = some-injective link.child n (sym link.there ∙ there) in
      let fits = subst (λ z. IsRanged link.low link.high h z) eq link.fits in
      let hv = bpn_halves-IsRanged h 11 link.low link.high n k fits full in
      (
        link.pair_Chain key ((bpn_halves h n).0) ((bpn_halves h n).2) hv.0 hv.1 hv.2 hv.3,
        turn p.slot va.va_start key link.low found placed at link.low_suc hv.0,
        subst
            (λ j.
              (if leb key va.va_start then suc j else j)
              ≡ upper va.va_start (array_insert p.slot j key))
            (sym index) (sym (upper-array_insert va.va_start key p.slot)),
      )

  weaker : (m : Internal (Bpn h)) → IsKept (suc low) (suc h) m → IsKept low (suc h) m
  weaker m q = (omega (arith, q.0), q.1, q.2, q.3, q.4)

  -- The split and the half that is followed.
  split_round :
      is_bpn_full h n ≡ true
      → VmStored low (suc h) va p (insert_round h before behind p found va.va_start go)
  unfolding insert_round
  split_round e =
      let full = full_entries h n e in
      let (s, q, r) = kept-parted h (followed found) low p n kept room there at k full in
      let ((x, y, _), rx, ry) = bpn_halves-Neighbours 11 h n k full in
      let (chain, turned, onto) = split_IsRanged full in
      let kept' = weaker next q in
      let apart' = subst (λ z. Every (IsApart va) z) (sym r) apart in
      rw (insert_round, there, e, s, turned)
        (Stored-same low low low (suc h) va next p
          (descend h before behind next
            (if leb key va.va_start then suc (followed found) else followed found) go)
          kept' kept r
          (elim (Bool-cases (leb key va.va_start)) [
            | inr i ↦ rw i (
                descend-VmStored h low lo hi va before behind go b c down lv vh next
                  (followed found) ((bpn_halves h n).0) kept' apart' chain (rw i at onto)
                  (get_elem-left p.subl (followed found) ((bpn_halves h n).0) ((bpn_halves h n).2)
                    in_range)
                  x rx)
            | inl i ↦ rw i (
                descend-VmStored h low lo hi va before behind go b c down lv vh next
                  (suc (followed found)) ((bpn_halves h n).2) kept' apart' chain (rw i at onto)
                  (get_elem-right p.subl (followed found) ((bpn_halves h n).0) ((bpn_halves h n).2)
                    in_range)
                  y ry)
          ]))

  round-VmStored : VmStored low (suc h) va p (insert_round h before behind p found va.va_start go)
  unfolding insert_round
  round-VmStored = elim (Bool-cases (is_bpn_full h n)) [
    | inl e ↦ split_round e
    | inr e ↦
        rw (insert_round, there, e)
          (descend-VmStored h low lo hi va before behind go b c down lv vh p (followed found) n kept
            apart ranged index there k (room_entries h 11 n k e))
  ]

-- The loop from a node with room.
pub insert_from-VmStored :
    (h low lo hi : ℕ) (va : VmapArea) (before behind : Option VmapArea) (n : Bpn h)
    → va.va_start < va.va_end
    → IsKept low h n
    → entries h n < 23
    → Every (IsApart va) (areas h n)
    → IsApartOption va before
    → IsApartOption va behind
    → IsRanged lo hi h n
    → lo ≤ va.va_start
    → va.va_start < hi
    → VmStored low h va n (insert_from h va before behind n)
unfolding insert_from bpn_bin_search keys_of entries
insert_from-VmStored zero low lo hi va before behind n some_address p room e b c ranged lv vh =
    let w = bpn_bin_search-Within (map (λ x. x.va_start) n) va.va_start in
    store_in_leaf-VmStored low lo hi va n p room ranged some_address before behind
      (omega (arith, w.0, length-map (λ x. x.va_start) n)) b c e
insert_from-VmStored (suc h) low lo hi va before behind p some_address kept room e b c ranged lv
      vh =
    let found = Search.bpn_bin_search p.slot va.va_start in
    let w = bpn_bin_search-Within p.slot va.va_start in
    let (n, there, k, same) =
      get_elem-Every (IsKeptChild h) p.subl (followed found)
        (omega (arith, followed-le (length p.slot) found w, kept.2)) kept.4 in
    round-VmStored h low lo hi va before behind (λ x y m. insert_from h va x y m) b c
      (λ x y l u m q r s t v i j g.
        insert_from-VmStored h min_entries l u va x y m some_address q r s t v i j g)
      lv vh p kept room e ranged found
      (Search.bpn_bin_search-Placed p.slot va.va_start
        (Chain-IsRising (IsRangedChild h) lo hi p.slot p.subl ranged))
      n there k
