-- ===== src/Bplus/Delete/Borrow.antt =====
-- What the shifts and the merge make of two neighbours with the key between them.
use libalgo.Common.{
  ℕ, zero, suc, ◌-◌, ◌<◌, ◌≤◌, ◌≡◌, refl, sym, ap, ◌∙◌, List, [], ◌∷◌, ◌++◌, append_assoc, map,
  some, length, get_or, take, drop, arith, subst,
}
use mathlib.Core.List.{map-append}
use libalgo.Btree.Arrays.{length-append, drop_all, length-take, length-drop}
use libalgo.Bplus.{BpNode, entries, keys_of, max_entries}
use libalgo.Bplus.Chain.{
  Items, flat, flat-append, Range-append, Range-wider, Chain, Chain-append, Chain-cut,
}
use libalgo.Bplus.Leaf.{keys}
use libalgo.Bplus.Node.{items, IsChild, take-drop, flat-take-drop}
use libalgo.Bplus.Delete.{shift_left, shift_right, merged}
use libalgo.Bplus.Delete.Cut.{IsSorted-append, leaf-Cut}

items-append :
    (h : ℕ) (cs ds : List (BpNode h))
    → flat (map (items h) (cs ++ ds)) ≡ flat (map (items h) cs) ++ flat (map (items h) ds)
items-append h cs ds =
    ap flat (map-append (items h) cs ds) ∙ flat-append (map (items h) cs) (map (items h) ds)

-- Two neighbours with the key between them and the records `xs`.
abbrev pub Neighbours : ℕ → ℕ → (h : ℕ) → Items → BpNode h × ℕ × BpNode h → Type 0
Neighbours lo hi h xs (a, k, b) =
    (lo < k) × (k < hi) × IsChild h lo k a × IsChild h k hi b × (items h a ++ items h b ≡ xs)

module _ (lo mid hi : ℕ) (lt : lo < mid) (gt : mid < hi) where
  pub shift_left-Neighbours :
      (h : ℕ) (l r : BpNode h)
      → IsChild h lo mid l
      → IsChild h mid hi r
      → entries h l < max_entries
      → 1 < entries h r
      → Neighbours lo hi h (items h l ++ items h r) (shift_left h l mid r)
        × (mid < (shift_left h l mid r).1)
        × (1 < entries h ((shift_left h l mid r).0))
  unfolding shift_left entries keys_of
  shift_left-Neighbours zero l r p q room more =
      let c = leaf-Cut 1 mid hi r q.2 q.3 more in
      let k = get_or (keys r) 1 0 in
      let longer = length-append l (take 1 r) in
      let one = length-take 1 r (omega (arith, more)) in
      let above = c.1 (omega arith) in
      (
        (
          omega (arith, lt, above),
          c.2,
          (
            omega (arith, longer, p.0),
            omega (arith, longer, one, room),
            IsSorted-append lo mid k l (take 1 r) p.2 c.3 p.3 c.4,
            Range-append lo k l (take 1 r)
                (Range-wider lo mid lo k l (omega arith) (omega (arith, above)) p.3)
                (Range-wider mid k lo k (take 1 r) (omega (arith, lt)) (omega arith) c.4),
          ),
          (omega (arith, length-drop 1 r, more), omega (arith, length-drop 1 r, q.1), c.5, c.6),
          append_assoc l (take 1 r) (drop 1 r) ∙ ap (λ z. l ++ z) (take-drop 1 r),
        ),
        above,
        omega (arith, longer, one, p.0),
      )
  shift_left-Neighbours (suc h) (l, ls) (r, rs) p q room more =
      let c = Chain-cut (IsChild h) 0 mid hi r rs (omega (arith, more)) q.2 in
      let k = get_or r 0 0 in
      let longer = length-append l (mid ∷ []) in
      (
        (
          omega (arith, lt, c.0),
          c.1,
          (
            omega (arith, longer),
            omega (arith, longer, room),
            Chain-append (IsChild h) lo mid k l [] ls (take 1 rs) lt c.0 p.2 c.2,
          ),
          (omega (arith, length-drop 1 r, more), omega (arith, length-drop 1 r, q.1), c.3),
          ap (λ z. z ++ flat (map (items h) (drop 1 rs))) (items-append h ls (take 1 rs))
              ∙ append_assoc (flat (map (items h) ls)) (flat (map (items h) (take 1 rs)))
                  (flat (map (items h) (drop 1 rs)))
              ∙ ap (λ z. flat (map (items h) ls) ++ z) (sym (flat-take-drop h 1 rs)),
        ),
        c.0,
        omega (arith, longer, p.0),
      )

  pub shift_right-Neighbours :
      (h : ℕ) (l r : BpNode h)
      → IsChild h lo mid l
      → IsChild h mid hi r
      → entries h r < max_entries
      → 1 < entries h l
      → Neighbours lo hi h (items h l ++ items h r) (shift_right h l mid r)
        × ((shift_right h l mid r).1 ≤ mid)
        × (1 < entries h ((shift_right h l mid r).2))
  unfolding shift_right entries keys_of
  shift_right-Neighbours zero l r p q room more =
      let n = length l - 1 in
      let c = leaf-Cut n lo mid l p.2 p.3 (omega (arith, more)) in
      let k = get_or (keys l) n 0 in
      let longer = length-append (drop n l) r in
      let one = length-drop n l in
      let fewer = length-take n l (omega (arith, more)) in
      (
        (
          c.1 (omega (arith, more)),
          omega (arith, gt, c.2),
          (omega (arith, fewer, more), omega (arith, fewer, p.1), c.3, c.4),
          (
            omega (arith, longer, q.0),
            omega (arith, longer, one, room),
            IsSorted-append k mid hi (drop n l) r c.5 q.2 c.6 q.3,
            Range-append k hi (drop n l) r
                (Range-wider k mid k hi (drop n l) (omega arith) (omega (arith, gt)) c.6)
                (Range-wider mid hi k hi r (omega (arith, c.2)) (omega arith) q.3),
          ),
          sym (append_assoc (take n l) (drop n l) r) ∙ ap (λ z. z ++ r) (take-drop n l),
        ),
        omega (arith, c.2),
        omega (arith, longer, one, more, q.0),
      )
  shift_right-Neighbours (suc h) (l, ls) (r, rs) p q room more =
      let n = length l - 1 in
      let c = Chain-cut (IsChild h) n lo mid l ls (omega (arith, more)) p.2 in
      let k = get_or l n 0 in
      let all : suc n ≡ length l = omega (arith, more) in
      let fewer = length-take n l (omega (arith, more)) in
      (
        (
          c.0,
          omega (arith, gt, c.1),
          (
            omega (arith, fewer, more),
            omega (arith, fewer, p.1),
            subst (λ z. Chain (IsChild h) lo k (take n l) (take z ls)) all c.2,
          ),
          (
            omega arith,
            omega (arith, room),
            Chain-append (IsChild h) k mid hi [] r (drop (length l) ls) rs c.1 gt
                (last (suc n) all c.3) q.2,
          ),
          ap (λ z. flat (map (items h) (take (length l) ls)) ++ z)
                (items-append h (drop (length l) ls) rs)
              ∙ sym (
                  append_assoc (flat (map (items h) (take (length l) ls)))
                    (flat (map (items h) (drop (length l) ls))) (flat (map (items h) rs)))
              ∙ ap (λ z. z ++ flat (map (items h) rs)) (sym (flat-take-drop h (length l) ls)),
        ),
        omega (arith, c.1),
        omega (arith, q.0),
      )
    where
      last :
          (m : ℕ)
          → m ≡ length l
          → Chain (IsChild h) (get_or l (length l - 1) 0) mid (drop m l) (drop m ls)
          → Chain (IsChild h) (get_or l (length l - 1) 0) mid [] (drop (length l) ls)
      last m e c =
          subst (λ z. Chain (IsChild h) (get_or l (length l - 1) 0) mid z (drop (length l) ls))
            (drop_all l)
            (subst (λ z. Chain (IsChild h) (get_or l (length l - 1) 0) mid (drop z l) (drop z ls)) e
              c)

  -- The node that a merge leaves, with more than the least entries.
  abbrev pub Merged : (h : ℕ) → Items → BpNode h → Type 0
  Merged h xs m = IsChild h lo hi m × (items h m ≡ xs) × (1 < entries h m)

  pub merged-Merged :
      (h : ℕ) (l r : BpNode h)
      → IsChild h lo mid l
      → IsChild h mid hi r
      → entries h l ≤ 1
      → entries h r ≤ 1
      → (m : BpNode h) × (merged h l mid r ≡ some m) × Merged h (items h l ++ items h r) m
  unfolding merged entries
  merged-Merged zero l r p q a b =
      let longer = length-append l r in
      (
        l ++ r,
        ground (arith, a, b),
        (
          (
            omega (arith, longer, p.0),
            omega (arith, longer, a, b),
            IsSorted-append lo mid hi l r p.2 q.2 p.3 q.3,
            Range-append lo hi l r
                (Range-wider lo mid lo hi l (omega arith) (omega (arith, gt)) p.3)
                (Range-wider mid hi lo hi r (omega (arith, lt)) (omega arith) q.3),
          ),
          refl,
          omega (arith, longer, p.0, q.0),
        ),
      )
  merged-Merged (suc h) (l, ls) (r, rs) p q a b =
      let longer = length-append l (mid ∷ r) in
      (
        (l ++ (mid ∷ r), ls ++ rs),
        ground (arith, a, b),
        (
          (
            omega (arith, longer, p.0),
            omega (arith, longer, a, b),
            Chain-append (IsChild h) lo mid hi l r ls rs lt gt p.2 q.2,
          ),
          items-append h ls rs,
          omega (arith, longer, p.0, q.0),
        ),
      )
