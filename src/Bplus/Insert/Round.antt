-- ===== src/Bplus/Insert/Round.antt =====
-- The loop of bpt_insert_non_full.
use libalgo.Common.{
  ℕ, zero, suc, ◌<◌, ◌≤◌, ◌≡◌, refl, sym, ◌∙◌, List, [], ◌∷◌, true, false, Option, some, leb,
  if◌then◌else◌, Bool-cases, inl, inr, length, get_or, get_elem?, subst, arith,
}
use libalgo.Common.Int.{ℤ}
use libalgo.Btree.{array_insert}
use libalgo.Btree.Arrays.{pair_at, get_or-array_insert, get_elem-left, get_elem-right}
use libalgo.Btree.Index.{IsRising}
use libalgo.Vm.Search
use libalgo.Vm.Search.{PosCc, pos_cc_eq, pos_cc_lt, pos_cc_gt, Placed, bpn_bin_search-Placed}
use libalgo.Bplus.{
  BpNode, Record, entries, keys_of, followed, is_bpn_full, bpn_bin_search, bpn_halves, bpn_split,
  relink, insert_round, insert_from, max_entries, min_entries,
}
use libalgo.Bplus.Chain.{Items, length-Chain, Chain-IsRising}
use libalgo.Bplus.Focus.{upper, upper-le-length, followed-upper}
use libalgo.Bplus.Node.{items, IsNode, IsChild, bpn_halves-Halved}
use libalgo.Bplus.Insert.{Inserted, leaf-Inserted}
use libalgo.Bplus.Insert.Split.{Spot, spot, relink-Inserted, bpn_split_lem, low_half, high_half}

pub full_entries : (h : ℕ) (n : BpNode h) → is_bpn_full h n ≡ true → entries h n ≡ max_entries
unfolding is_bpn_full
full_entries h n e = ground (arith, e)

pub room_entries :
    (h : ℕ) (n : BpNode h)
    → is_bpn_full h n ≡ false
    → entries h n ≤ max_entries
    → entries h n < max_entries
unfolding is_bpn_full
room_entries h n e l = ground (arith, e, l)

pub entries-most :
    (h low lo hi : ℕ) (n : BpNode h) → IsNode low lo hi h n → entries h n ≤ max_entries
unfolding entries
entries-most zero low lo hi n p = p.1
entries-most (suc h) low lo hi n p = p.1

-- The two ways of a round.
module _ (h key : ℕ) (slot : List ℕ) (subl : List (BpNode h)) (found : ℕ × PosCc) (n : BpNode h)
    (go : BpNode h → Option (ℤ × BpNode h)) where
  round_below :
      get_elem? subl (followed found) ≡ some n
      → is_bpn_full h n ≡ false
      → insert_round h slot subl found key go ≡ relink h slot subl (followed found) (go n)
  unfolding insert_round
  round_below g f = rw (insert_round, g, f) refl

  round_split :
      (slot' : List ℕ) (subl' : List (BpNode h)) (j : ℕ) (n' : BpNode h)
      → get_elem? subl (followed found) ≡ some n
      → is_bpn_full h n ≡ true
      → bpn_split h slot subl (followed found) n ≡ some (slot', subl')
      → (if leb (get_or slot' found.0 0) key then suc found.0 else followed found) ≡ j
      → get_elem? subl' j ≡ some n'
      → insert_round h slot subl found key go ≡ relink h slot' subl' j (go n')
  unfolding insert_round
  round_split slot' subl' j n' g f b t e = rw (insert_round, g, f, b, t, e, t) refl

get_or-before :
    (xs : List ℕ) (i j x d : ℕ)
    → j < i
    → i ≤ length xs
    → get_or (array_insert xs i x) j d ≡ get_or xs j d
unfolding array_insert
get_or-before xs zero j x d l m = absurd (omega (arith, l))
get_or-before [] (suc i) j x d l m = absurd (omega (arith, m))
get_or-before (y ∷ xs) (suc i) zero x d l m = refl
get_or-before (y ∷ xs) (suc i) (suc j) x d l m =
    get_or-before xs i j x d (omega (arith, l)) (omega (arith, m))

-- The turn after a split at the link that the search led to.
pub turn :
    (slot : List ℕ) (v k low : ℕ) (found : ℕ × PosCc)
    → Placed slot v found
    → followed found ≤ length slot
    → ((j : ℕ) → followed found ≡ suc j → low ≡ get_or slot j 0)
    → low < k
    → (if leb (get_or (array_insert slot (followed found) k) found.0 0) v
        then suc found.0
        else followed found)
      ≡ (if leb k v then suc (followed found) else followed found)
unfolding followed
turn slot v k low (r, pos_cc_eq) (p, l, e) le at g =
    rw (get_or-before slot (suc r) r k 0 (omega arith) le) (ground (arith, e, at r refl, g))
turn slot v k low (r, pos_cc_lt) p le at g = rw (get_or-array_insert slot r k 0 le) refl
turn slot v k low (r, pos_cc_gt) p le at g = rw (get_or-array_insert slot r k 0 le) refl

-- The loop of bpt_insert_non_full, from a node that is not full.
pub insert_from-Inserted :
    (h low lo hi : ℕ) (n : BpNode h) (r : Record)
    → IsNode low lo hi h n
    → entries h n < max_entries
    → lo ≤ r.0
    → r.0 < hi
    → Inserted low lo hi h r (items h n) (insert_from h n r)
unfolding insert_from bpn_bin_search entries keys_of
insert_from-Inserted zero low lo hi n r p room l u = leaf-Inserted low lo hi n r p room l u
insert_from-Inserted (suc h) low lo hi (slot, subl) r p room l u =
    elim (Bool-cases (is_bpn_full h s.child)) [
      | inr f ↦
          subst (λ o. Inserted low lo hi (suc h) r all o)
            (sym (round_below h r.0 slot subl found s.child go s.there f))
            (relink-Inserted low lo hi h i r slot subl (go s.child) p s (
              insert_from-Inserted h min_entries s.low s.high s.child r s.fits
                (room_entries h s.child f (entries-most h min_entries s.low s.high s.child s.fits))
                s.low_le s.lt_high))
      | inl f ↦
          let hv =
            bpn_halves-Halved h min_entries s.low s.high s.child s.fits
              (full_entries h s.child f) in
          let cut = bpn_split_lem h i slot subl s.child (omega (arith, room, le)) in
          let turned = turn slot r.0 k s.low found placed le s.low_suc hv.0 in
          elim (Bool-cases (leb k r.0)) [
            | inl g ↦
                subst (λ o. Inserted low lo hi (suc h) r all o)
                  (sym (
                    round_split h r.0 slot subl found s.child go (array_insert slot i k)
                      (pair_at subl i a b) (suc i) b s.there f cut (turned ∙ rw g refl)
                      (get_elem-right subl i a b in_range)))
                  (high_half low lo hi h i k r slot subl a b p room s hv le (go b)
                    (ground (arith, g))
                    (insert_from-Inserted h min_entries k s.high b r hv.3 hv.6 (ground (arith, g))
                      s.lt_high))
            | inr g ↦
                subst (λ o. Inserted low lo hi (suc h) r all o)
                  (sym (
                    round_split h r.0 slot subl found s.child go (array_insert slot i k)
                      (pair_at subl i a b) i a s.there f cut (turned ∙ rw g refl)
                      (get_elem-left subl i a b in_range)))
                  (low_half low lo hi h i k r slot subl a b p room s hv le (go a)
                    (ground (arith, g))
                    (insert_from-Inserted h min_entries s.low k a r hv.2 hv.5 s.low_le
                      (ground (arith, g))))
          ]
    ]
  where
    all : Items
    all = items (suc h) (slot, subl)

    go : BpNode h → Option (ℤ × BpNode h)
    go n = insert_from h n r

    found : ℕ × PosCc
    found = Search.bpn_bin_search slot r.0

    i : ℕ
    i = followed found

    rising : IsRising slot
    rising = Chain-IsRising (IsChild h) lo hi slot subl p.2

    placed : Placed slot r.0 found
    placed = bpn_bin_search-Placed slot r.0 rising

    index : i ≡ upper r.0 slot
    index = followed-upper slot r.0 found rising placed

    le : i ≤ length slot
    le = omega (arith, index, upper-le-length r.0 slot)

    in_range : i < length subl
    in_range = omega (arith, le, length-Chain (IsChild h) lo hi slot subl p.2)

    s : Spot h r.0 lo hi i slot subl
    s = subst (λ j. Spot h r.0 lo hi j slot subl) (sym index) (spot h r.0 lo hi slot subl p.2 l u)

    a : BpNode h
    a = (bpn_halves h s.child).0

    k : ℕ
    k = (bpn_halves h s.child).1

    b : BpNode h
    b = (bpn_halves h s.child).2
