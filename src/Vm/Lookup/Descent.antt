-- ===== src/Vm/Lookup/Descent.antt =====
-- The first round of lookup_smallest_va below a node, and what the second round finds there.
use libalgo.Common.{
  ℕ, zero, suc, ◌<◌, ◌≡◌, refl, sym, ap, ◌∙◌, List, [], ◌∷◌, ◌++◌, map, Option, none, some, ltb,
  leb, ◌&&◌, drop, Bool-cases, Option-cases, inl, inr, arith,
}
use mathlib.Core.Option.{none-ne-some}
use libalgo.Bplus.Chain.{Chain}
use libalgo.Vm.{word}
use libalgo.Vm.Node.{Bpn, bpn_max_avail}
use libalgo.Vm.Lookup.{
  Level, lowest_link, under, next_link, first_next_sub_avail, bpt_lookup_lowest_leaf,
}
use libalgo.Vm.Lookup.Fit.{IsAligned}
use libalgo.Vm.Lookup.Way.{IsFree, IsFreeChild}
use libalgo.Vm.Lookup.Arrive.{below-Finds}
use libalgo.Vm.Lookup.Next.{skip, stay, get-nil}
use libalgo.Vm.Lookup.Rows.{or_else, Descends, DescendsBelow, next_of, row-first, row-later}

or_else-none : (a : Option {0} ℕ) → or_else a none ≡ a
or_else-none none = refl
or_else-none (some a) = refl

pub first_next-append :
    (way : List Level) (f : Level) (length : ℕ)
    → first_next_sub_avail (way ++ (f ∷ [])) length
      ≡ or_else
          (first_next_sub_avail way length)
          (next_link length (drop f.ppos f.slot) (drop (suc f.ppos) f.suba))
unfolding first_next_sub_avail
first_next-append [] f length =
    elim (Option-cases (next_link length (drop f.ppos f.slot) (drop (suc f.ppos) f.suba))) [
      | inl e ↦ rw (first_next_sub_avail, e) refl
      | inr (w, e) ↦ rw (first_next_sub_avail, e) refl
    ]
first_next-append (g ∷ way) f length =
    elim (Option-cases (next_link length (drop g.ppos g.slot) (drop (suc g.ppos) g.suba))) [
      | inl e ↦ rw (first_next_sub_avail, e) (first_next-append way f length)
      | inr (w, e) ↦ rw (first_next_sub_avail, e) refl
    ]

module _ (align size v : ℕ) (pos : 0 < size) (small : size < word)
    (aligned : IsAligned align v) where
  module _ (h : ℕ) where
    module _
        (down : (lo hi : ℕ) (c : Bpn h)
          → IsFree align lo hi h c
          → hi < word
          → Descends align size v h hi c) where
      row-DescendsBelow :
          (lo hi : ℕ) (ks : List ℕ) (cs : List (Bpn h))
          → Chain (IsFreeChild align h) lo hi ks cs
          → hi < word
          → DescendsBelow align size v h hi ks cs
      unfolding lowest_link next_link
      row-DescendsBelow lo hi ks [] p top = absurd p
      row-DescendsBelow lo hi [] (c ∷ d ∷ cs) p top = absurd p
      row-DescendsBelow lo hi [] (c ∷ []) p top =
          let (way, leaf, found, (a, b, n)) = down lo hi c p top in
          (
            0,
            c,
            way,
            leaf,
            refl,
            refl,
            found,
            (
              (λ va g. stay align size v h c [] va (a va g)),
              (λ g q. skip align size v h c [] (b g (only way q)) ∙ get-nil align size v),
              (λ g w q.
                  let (m, l, (va, f, r)) = n g w (only way q) in
                  (m, l, (va, (c, refl, f), stay align size v h c [] va r))),
            ),
          )
        where
          only :
              {o : Option ℕ} (way : List Level)
              → or_else (first_next_sub_avail way size) none ≡ o
              → first_next_sub_avail way size ≡ o
          only way q = sym (or_else-none (first_next_sub_avail way size)) ∙ q
      row-DescendsBelow lo hi (k ∷ ks) (c ∷ cs) p top =
          elim (Bool-cases (ltb v k && leb size (bpn_max_avail h c))) [
            | inl e ↦
                row-first align size v pos small aligned h lo k hi ks c cs p top e
                  (down lo k c p.2 (omega (arith, p.1, top)))
            | inr e ↦
                row-later align size v pos small aligned h lo k hi ks c cs p top e
                  (row-DescendsBelow k hi ks cs p.3 top)
          ]

  -- From the links to the node.
  below-Descends :
      (h hi : ℕ) (n : Bpn (suc h))
      → n.suba ≡ map (bpn_max_avail h) n.subl
      → DescendsBelow align size v h hi n.slot n.subl
      → Descends align size v (suc h) hi n
  unfolding bpt_lookup_lowest_leaf under
  below-Descends h hi n e (i, c, way, leaf, at, there, found, (a, b, d)) = (
    way ++ (f ∷ []),
    leaf,
    rw (bpt_lookup_lowest_leaf, link, there, found, link) refl,
    (
      a,
      (λ g q. b g (sym ahead ∙ q)),
      (λ g w q.
          let (m, l, (va, r, s)) = d g w (sym ahead ∙ q) in
          (m, l, (va, below-Finds size align h w n va e r, s))),
    ),
  )
    where
      f : Level
      f = record { slot = n.slot; suba = n.suba; ppos = i }

      link : lowest_link size v n.slot n.suba ≡ i
      link = ap (λ z. lowest_link size v n.slot z) e ∙ at

      ahead :
          first_next_sub_avail (way ++ (f ∷ [])) size
          ≡ or_else (first_next_sub_avail way size) (next_of align size v h i n.slot n.subl)
      ahead =
          first_next-append way f size
          ∙ ap
              (λ z.
                or_else (first_next_sub_avail way size)
                  (next_link size (drop i n.slot) (drop (suc i) z)))
              e

  pub node-Descends :
      (h lo hi : ℕ) (n : Bpn h) → IsFree align lo hi h n → hi < word → Descends align size v h hi n
  unfolding bpt_lookup_lowest_leaf first_next_sub_avail
  node-Descends zero lo hi n p top =
      ([], n, refl, ((λ va g. g), (λ g q. g), (λ g w q. absurd (none-ne-some w q))))
  node-Descends (suc h) lo hi n p top =
      below-Descends h hi n p.0
        (row-DescendsBelow h (λ a b c q t. node-Descends h a b c q t) lo hi n.slot n.subl p.1 top)
