-- ===== src/Bplus/Root/Lookup.antt =====
-- The search for a record in a valid B+ tree.
use libalgo.Common.{
  ℕ, zero, suc, ◌<◌, ◌≤◌, ◌≡◌, refl, sym, ap, ◌∙◌, [], ◌∷◌, Option, none, some, get_elem?, arith,
}
use libalgo.Tree.Sorted.{IsSorted, find}
use libalgo.Btree.Index.{IsRising}
use libalgo.Vm.Search
use libalgo.Vm.Search.{
  PosCc, pos_cc_eq, pos_cc_lt, pos_cc_gt, Placed, bpn_bin_search-Placed, pos_cc,
}
use libalgo.Bplus.{BpNode, Record, keys_of, bpn_bin_search, followed, min_entries}
use libalgo.Bplus.Chain.{Items, Chain-IsRising}
use libalgo.Bplus.Focus.{upper, followed-upper}
use libalgo.Bplus.Gap.{Focus-find}
use libalgo.Bplus.Leaf.{keys, keys-IsRising, Placed-at_rank, leaf-Present, leaf-Absent}
use libalgo.Bplus.Node.{items, IsNode, IsChild}
use libalgo.Bplus.Insert.Split.{Spot, spot}
use libalgo.Bplus.Root.{Bpt, bpt_high, bpt_find_leaf, record_at, bpt_lookup}
use libalgo.Bplus.Delete.Leaf.{record_of}
use libalgo.Bplus.Root.Validity.{least, key_bound, IsValid, bpt_items}

pub record_at-find :
    (v : ℕ) (n : Items) (found : ℕ × PosCc)
    → IsSorted n
    → Placed (keys n) v found
    → record_at n found ≡ record_of v (find v n)
unfolding record_at
record_at-find v n (i, pos_cc_eq) s p =
    let (x, f, g, r, j) = leaf-Present v n s (Placed-at_rank v n (i, pos_cc_eq) p) in
    ap (λ z. get_elem? n z) (p.0) ∙ g ∙ ap (record_of v) (sym f)
record_at-find v n (i, pos_cc_lt) s p =
    ap (record_of v) (sym ((leaf-Absent v n s (Placed-at_rank v n (i, pos_cc_lt) p)).0))
record_at-find v n (i, pos_cc_gt) s p =
    ap (record_of v) (sym ((leaf-Absent v n s (Placed-at_rank v n (i, pos_cc_gt) p)).0))

abbrev LeafOf : ℕ → Items → Option Items → Type 0
LeafOf v xs none = ⊥
LeafOf v xs (some n) = IsSorted n × (find v n ≡ find v xs)

LeafOf-find :
    (v : ℕ) (xs ys : Items) (o : Option Items)
    → find v xs ≡ find v ys
    → LeafOf v xs o
    → LeafOf v ys o
LeafOf-find v xs ys none e p = p
LeafOf-find v xs ys (some n) e p = (p.0, p.1 ∙ e)

bpt_find_leaf-LeafOf :
    (h low lo hi v : ℕ) (n : BpNode h)
    → IsNode low lo hi h n
    → lo ≤ v
    → v < hi
    → LeafOf v (items h n) (bpt_find_leaf h n v)
unfolding bpt_find_leaf bpn_bin_search keys_of
bpt_find_leaf-LeafOf zero low lo hi v n p a b = (p.2, refl)
bpt_find_leaf-LeafOf (suc h) low lo hi v (slot, subl) p a b =
    rw (bpt_find_leaf, index, s.there)
      (LeafOf-find v (items h s.child) (items (suc h) (slot, subl)) (bpt_find_leaf h s.child v)
        (sym (Focus-find s))
        (bpt_find_leaf-LeafOf h min_entries s.low s.high v s.child s.fits s.low_le s.lt_high))
  where
    rising : IsRising slot
    rising = Chain-IsRising (IsChild h) lo hi slot subl p.2

    index : followed (Search.bpn_bin_search slot v) ≡ upper v slot
    index =
        followed-upper slot v (Search.bpn_bin_search slot v) rising
          (bpn_bin_search-Placed slot v rising)

    s : Spot h v lo hi (upper v slot) slot subl
    s = spot h v lo hi slot subl p.2 a b

abbrev pub LookedUp : ℕ → Items → Option (ℕ × Option Record) → Type 0
LookedUp v xs none = ⊥
LookedUp v xs (some (out_pos, out)) = out ≡ record_of v (find v xs)

-- On a valid tree bpt_lookup of a key that fits a machine word does not crash, and returns the
-- record with that key, NULL when there is none.
pub bpt_lookup-LookedUp :
    (t : Bpt) (v : ℕ) → IsValid t → v < key_bound → LookedUp v (bpt_items t) (bpt_lookup t v)
unfolding bpt_lookup bpn_bin_search keys_of
bpt_lookup-LookedUp t v p l =
    go (bpt_find_leaf t.height t.root v) refl
      (bpt_find_leaf-LeafOf t.height (least t.height) 0 key_bound v t.root p (omega arith) l)
  where
    go :
        (o : Option Items)
        → bpt_find_leaf t.height t.root v ≡ o
        → LeafOf v (bpt_items t) o
        → LookedUp v (bpt_items t) (bpt_lookup t v)
    go none e q = absurd q
    go (some n) e q =
        rw (bpt_lookup, e, sym (q.1))
          (record_at-find v n (Search.bpn_bin_search (keys n) v) (q.0)
            (bpn_bin_search-Placed (keys n) v (keys-IsRising n (q.0))))

-- bpt_high of a valid tree is its height.
pub bpt_high-height :
    (h low lo hi : ℕ) (n : BpNode h) → IsNode low lo hi h n → bpt_high h n ≡ some h
unfolding bpt_high
bpt_high-height zero low lo hi n p = refl
bpt_high-height (suc h) low lo hi (slot, []) p = absurd (p.2)
bpt_high-height (suc h) low lo hi ([], c ∷ []) p = rw (bpt_high-height h 1 lo hi c p.2) refl
bpt_high-height (suc h) low lo hi ([], c ∷ d ∷ subl) p = absurd (p.2)
bpt_high-height (suc h) low lo hi (k ∷ slot, c ∷ subl) p =
    rw (bpt_high-height h 1 lo k c p.2.2) refl
