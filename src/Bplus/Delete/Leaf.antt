-- ===== src/Bplus/Delete/Leaf.antt =====
-- What a deletion makes of a node, and the end of it in a leaf.
use libalgo.Common.{
  ℕ, zero, suc, ◌-◌, ◌<◌, ◌≤◌, ◌≡◌, sym, ap, ◌∙◌, List, [], ◌∷◌, Option, none, some, ltb, lt→ltb,
  ◌==◌, true, length, get_or, get_elem?, arith, subst,
}
use libalgo.Tree.Sorted.{IsSorted, find, erase}
use libalgo.Tree.Spec.{erase-IsSorted}
use libalgo.Vm.Search.{PosCc, pos_cc_eq, pos_cc_lt, pos_cc_gt, Placed}
use libalgo.Btree.{array_remove}
use libalgo.Bplus.{BpNode, Record, keys_of, bpn_remove_from_leaf, relink, max_entries, min_entries}
use libalgo.Bplus.Chain.{Items, Range}
use libalgo.Bplus.Gap.{Focus-find, Focus-erase}
use libalgo.Bplus.Leaf.{keys, length-keys, Placed-at_rank, leaf-Present, leaf-Absent}
use libalgo.Bplus.Node.{items, IsNode}
use libalgo.Bplus.Insert.Split.{Spot}
use libalgo.Bplus.Delete.{leaf_remove}

-- The record that a key stands for.
abbrev pub record_of : ℕ → Option {0} ℕ → Option {0} Record
record_of v none = none
record_of v (some x) = some (v, x)

abbrev pub Deleted : ℕ → ℕ → ℕ → (h : ℕ) → ℕ → Items → Option (Option Record × BpNode h) → Type 0
Deleted low lo hi h v xs none = ⊥
Deleted low lo hi h v xs (some (out, n)) =
    IsNode low lo hi h n × (items h n ≡ erase v xs) × (out ≡ record_of v (find v xs))

-- An entry can go.
abbrev pub Spare : ℕ → (h : ℕ) → BpNode h → Type 0
Spare low zero n = low ≤ length n - 1
Spare low (suc h) n = low < length n.0

Range-erase : (lo hi v : ℕ) (xs : Items) → Range lo hi xs → Range lo hi (erase v xs)
unfolding erase
Range-erase lo hi v [] r = tt
Range-erase lo hi v (e ∷ xs) r = ground (arith, r.0, r.1, r.2, Range-erase lo hi v xs r.2)

pub length-array_remove {ℓ} :
    {A : Type ℓ} (xs : List A) (i : ℕ) → i < length xs → length (array_remove xs i) ≡ length xs - 1
unfolding array_remove
length-array_remove [] i l = absurd (omega (arith, l))
length-array_remove (x ∷ xs) zero l = omega arith
length-array_remove (x ∷ xs) (suc i) l =
    omega (arith, l, length-array_remove xs i (omega (arith, l)))

pub leaf_remove-Deleted :
    (low lo hi v : ℕ) (n : Items) (found : ℕ × PosCc)
    → IsNode low lo hi 0 n
    → Spare low 0 n
    → Placed (keys n) v found
    → Deleted low lo hi 0 v n (leaf_remove n found v)
unfolding leaf_remove bpn_remove_from_leaf keys_of
leaf_remove-Deleted low lo hi v n (i, pos_cc_eq) p q (e, l, g) =
    let (x, f, at, r, j) = leaf-Present v n p.2 (Placed-at_rank v n (i, pos_cc_eq) (e, l, g)) in
    let shorter = length-array_remove n i (omega (arith, l, length-keys n)) in
    let gone : array_remove n i ≡ erase v n = ap (array_remove n) e ∙ r in
    let fits : ltb i max_entries ≡ true = lt→ltb i 3 (omega (arith, l, length-keys n, p.1)) in
    let same : (get_or (keys n) i 0 == v) ≡ true = ground (arith, g) in
    rw (fits, same)
      (
        (
          omega (arith, shorter, q),
          omega (arith, shorter, p.1),
          subst (λ z. IsSorted z) (sym gone) (erase-IsSorted v n p.2),
          subst (λ z. Range lo hi z) (sym gone) (Range-erase lo hi v n p.3),
        ),
        gone,
        ap (λ z. get_elem? n z) e ∙ at ∙ ap (record_of v) (sym f),
      )
leaf_remove-Deleted low lo hi v n (i, pos_cc_lt) p q at =
    let (f, e, j) = leaf-Absent v n p.2 (Placed-at_rank v n (i, pos_cc_lt) at) in
    (p, sym e, ap (record_of v) (sym f))
leaf_remove-Deleted low lo hi v n (i, pos_cc_gt) p q at =
    let (f, e, j) = leaf-Absent v n p.2 (Placed-at_rank v n (i, pos_cc_gt) at) in
    (p, sym e, ap (record_of v) (sym f))

pub relink-Deleted :
    (low lo hi h i v : ℕ) (slot : List ℕ) (subl : List (BpNode h))
    (out : Option (Option Record × BpNode h))
    → low ≤ length slot
    → length slot ≤ max_entries
    → (s : Spot h v lo hi i slot subl) → Deleted min_entries s.low s.high h v (items h s.child) out
    → Deleted low lo hi (suc h) v (items (suc h) (slot, subl)) (relink h slot subl i out)
unfolding relink
relink-Deleted low lo hi h i v slot subl none a b s o = o
relink-Deleted low lo hi h i v slot subl (some (r, m)) a b s o = (
  (a, b, s.set_Chain m (o.0)),
  s.set_items m ∙ Focus-erase s (items h m) (o.1),
  o.2 ∙ ap (record_of v) (sym (Focus-find s)),
)
