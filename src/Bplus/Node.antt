-- ===== src/Bplus/Node.antt =====
-- The records of a B+ tree node in order, its invariant, and the two halves of a full node.
use libalgo.Common.{
  ℕ, zero, suc, ◌<◌, ◌≤◌, ◌≡◌, refl, sym, ap, ◌∙◌, List, [], ◌∷◌, ◌++◌, map, length, get_or, take,
  drop, take_all, arith, subst,
}
use libalgo.Tree.Sorted.{IsSorted}
use libalgo.Btree.Arrays.{length-take, length-drop, map-take, map-drop}
use libalgo.Bplus.{BpNode, entries, bpn_halves, keys_of, split, max_entries, min_entries}
use libalgo.Bplus.Chain.{
  Items, flat, flat-append, Range, Chain, length-Chain, Chain-cut, Chain-Range,
}

abbrev pub items : (h : ℕ) → BpNode h → Items
items zero n = n
items (suc h) n = flat (map (items h) n.1)

-- At least `low` and at most three entries, in order, and the keys from `lo` up to `hi`.
abbrev pub IsNode : ℕ → ℕ → ℕ → (h : ℕ) → BpNode h → Type 0
IsNode low lo hi zero n = (low ≤ length n) × (length n ≤ max_entries) × IsSorted n × Range lo hi n
IsNode low lo hi (suc h) n =
    (low ≤ length n.0)
    × (length n.0 ≤ max_entries)
    × Chain (λ l u c. IsNode min_entries l u h c) lo hi n.0 n.1

abbrev pub IsChild : (h : ℕ) → ℕ → ℕ → BpNode h → Type 0
IsChild h lo hi c = IsNode min_entries lo hi h c

pub node-Range : (h low lo hi : ℕ) (n : BpNode h) → IsNode low lo hi h n → Range lo hi (items h n)
node-Range zero low lo hi n p = p.3
node-Range (suc h) low lo hi n p =
    Chain-Range (IsChild h) (items h) (λ l u c q. node-Range h 1 l u c q) lo hi n.0 n.1 p.2

pub take-drop {ℓ} : {A : Type ℓ} (n : ℕ) (xs : List A) → take n xs ++ drop n xs ≡ xs
take-drop zero xs = refl
take-drop (suc n) [] = refl
take-drop (suc n) (x ∷ xs) = ap (λ z. x ∷ z) (take-drop n xs)

pub flat-take-drop :
    (h n : ℕ) (cs : List (BpNode h))
    → flat (map (items h) cs) ≡ flat (map (items h) (take n cs)) ++ flat (map (items h) (drop n cs))
flat-take-drop h n cs =
    ap flat (sym (take-drop n (map (items h) cs)))
    ∙ flat-append (take n (map (items h) cs)) (drop n (map (items h) cs))
    ∙ ap (λ z. flat z ++ flat (drop n (map (items h) cs))) (sym (map-take (items h) n cs))
    ∙ ap (λ z. flat (map (items h) (take n cs)) ++ flat z) (sym (map-drop (items h) n cs))

-- What `bpn_halves` makes of a node: two children with the key between them and room in both.
abbrev pub Halved : ℕ → ℕ → (h : ℕ) → BpNode h → BpNode h × ℕ × BpNode h → Type 0
Halved lo hi h n (a, k, b) =
    (lo < k)
    × (k < hi)
    × IsChild h lo k a
    × IsChild h k hi b
    × (items h n ≡ items h a ++ items h b)
    × (entries h a < max_entries)
    × (entries h b < max_entries)

-- A split of a full node gives two nodes with room, each in order and with the least number of
-- entries, between which the key for the parent separates the records of the node.
pub bpn_halves-Halved :
    (h low lo hi : ℕ) (n : BpNode h)
    → IsNode low lo hi h n
    → entries h n ≡ max_entries
    → Halved lo hi h n (bpn_halves h n)
unfolding bpn_halves entries keys_of split
bpn_halves-Halved zero low lo hi [] p e = absurd (omega (arith, e))
bpn_halves-Halved zero low lo hi (x ∷ []) p e = absurd (omega (arith, e))
bpn_halves-Halved zero low lo hi (x ∷ y ∷ []) p e = absurd (omega (arith, e))
bpn_halves-Halved zero low lo hi (x ∷ y ∷ z ∷ w ∷ n) p e = absurd (omega (arith, e))
bpn_halves-Halved zero low lo hi (x ∷ y ∷ z ∷ []) p e =
    (omega arith, omega arith, omega arith, omega arith, refl, omega arith, omega arith)
bpn_halves-Halved (suc h) low lo hi (slot, subl) p e =
    let (a, b, c, d) = Chain-cut (IsChild h) 1 lo hi slot subl (omega (arith, e)) p.2 in
    (
      a,
      b,
      (omega (arith, la), omega (arith, la), c),
      (
        omega (arith, lb),
        omega (arith, lb),
        subst (λ z. Chain (IsChild h) (get_or slot 1 0) hi z (take 2 (drop 2 subl))) (sym all)
            (subst (λ z. Chain (IsChild h) (get_or slot 1 0) hi (drop 2 slot) z) (sym all_links) d),
      ),
      flat-take-drop h 2 subl
          ∙ ap (λ z. items (suc h) (take 1 slot, take 2 subl) ++ flat (map (items h) z))
              (sym all_links),
      omega (arith, la),
      omega (arith, lb),
    )
  where
    links : length subl ≡ 4
    links = length-Chain (IsChild h) lo hi slot subl p.2 ∙ ap suc e

    la : length (take 1 slot) ≡ 1
    la = length-take 1 slot (omega (arith, e))

    all : take 1 (drop 2 slot) ≡ drop 2 slot
    all = take_all 1 (drop 2 slot) (omega (arith, e, length-drop 2 slot))

    all_links : take 2 (drop 2 subl) ≡ drop 2 subl
    all_links = take_all 2 (drop 2 subl) (omega (arith, links, length-drop 2 subl))

    lb : length (take 1 (drop 2 slot)) ≡ 1
    lb = length-take 1 (drop 2 slot) (omega (arith, e, length-drop 2 slot))
