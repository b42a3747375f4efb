-- ===== src/Vm/Lookup/Rows.antt =====
-- The first round of lookup_smallest_va at the first of some links, and what the second round finds.
use libalgo.Common.{
  ℕ, suc, ◌<◌, ◌≤◌, ◌≡◌, refl, sym, ap, ◌∙◌, List, ◌∷◌, map, Option, none, some, true, false, ltb,
  leb, ◌&&◌, get_elem?, drop, Bool-cases, inl, inr, arith,
}
use mathlib.Core.Option.{none-ne-some}
use libalgo.Bplus.Chain.{Chain}
use libalgo.Vm.{VmapArea, word}
use libalgo.Vm.Node.{Bpn, bpn_max_avail}
use libalgo.Vm.Node.Avail.{flat, areas}
use libalgo.Vm.Lookup.{Level, lowest_link, next_link, first_next_sub_avail, bpt_lookup_lowest_leaf}
use libalgo.Vm.Lookup.Fit.{IsAligned}
use libalgo.Vm.Lookup.Way.{IsFreeChild, areas-Lies, get-before}
use libalgo.Vm.Lookup.Arrive.{Finds, FindsBelow, first-FindsBelow, later-FindsBelow}
use libalgo.Vm.Lookup.Next.{first_fit, few, skip, stay, next-none, Next-some}

-- The new address from the way below, or from the node itself.
abbrev pub or_else : Option {0} ℕ → Option {0} ℕ → Option {0} ℕ
or_else none b = b
or_else (some a) b = some a

module _ (align size v : ℕ) where
  -- What the leaf that the search comes to and the address `next` of the next space say of the first
  -- of the areas `xs` that the block fits into; `F` is what a search from the new address finds.
  abbrev pub Ahead :
      ℕ → List VmapArea → List VmapArea → (ℕ → VmapArea → Type 0) → Option {0} ℕ → Type 0
  Ahead hi xs leaf F next =
      ((va : VmapArea)
        → first_fit align size v leaf ≡ some va
        → first_fit align size v xs ≡ some va)
      × (first_fit align size v leaf ≡ none → next ≡ none → first_fit align size v xs ≡ none)
      × (first_fit align size v leaf ≡ none
          → (w : ℕ) → next ≡ some w
          → (v < w) × (w < hi) × ((va : VmapArea) × F w va × (first_fit align size v xs ≡ some va)))

  abbrev pub Descends : (h hi : ℕ) → Bpn h → Type 0
  Descends h hi n =
      (way : List Level) × (leaf : List VmapArea) × (bpt_lookup_lowest_leaf h n size v
        ≡ some (way, leaf))
      × Ahead hi (areas h n) leaf (Finds size align h n) (first_next_sub_avail way size)

  abbrev pub next_of : (h i : ℕ) → List ℕ → List (Bpn h) → Option {0} ℕ
  next_of h i ks cs = next_link size (drop i ks) (drop (suc i) (map (bpn_max_avail h) cs))

  abbrev pub DescendsBelow : (h hi : ℕ) → List ℕ → List (Bpn h) → Type 0
  DescendsBelow h hi ks cs =
      (i : ℕ) × (c : Bpn h) × (way : List Level) × (leaf : List VmapArea) × (lowest_link size v ks
          (map (bpn_max_avail h) cs)
        ≡ i)
      × (get_elem? cs i ≡ some c)
      × (bpt_lookup_lowest_leaf h c size v ≡ some (way, leaf))
      × Ahead hi (flat (map (areas h) cs)) leaf (FindsBelow size align h ks cs)
          (or_else (first_next_sub_avail way size) (next_of h i ks cs))

module _ (align size v : ℕ) (pos : 0 < size) (small : size < word)
    (aligned : IsAligned align v) where
  module _ (h : ℕ) where
    -- The first link is taken, and the address of the next space is searched from.
    pub row-first :
        (lo k hi : ℕ) (ks : List ℕ) (c : Bpn h) (cs : List (Bpn h))
        → Chain (IsFreeChild align h) lo hi (k ∷ ks) (c ∷ cs)
        → hi < word
        → ltb v k && leb size (bpn_max_avail h c) ≡ true
        → Descends align size v h k c
        → DescendsBelow align size v h hi (k ∷ ks) (c ∷ cs)
    unfolding lowest_link
    row-first lo k hi ks c cs p top e (way, leaf, found, (a, b, d)) = (
      0,
      c,
      way,
      leaf,
      rw (lowest_link, e) refl,
      refl,
      found,
      (
        (λ va g. stay align size v h c cs va (a va g)),
        (λ g n. no_next g n (first_next_sub_avail way size) refl),
        (λ g w n. a_next g w n (first_next_sub_avail way size) refl),
      ),
    )
      where
        next : Option ℕ
        next =
            or_else (first_next_sub_avail way size)
              (next_link size (k ∷ ks) (map (bpn_max_avail h) cs))

        enough : size ≤ bpn_max_avail h c
        enough = ground (arith, e)

        no_next :
            first_fit align size v leaf ≡ none
            → next ≡ none
            → (o : Option ℕ) → first_next_sub_avail way size ≡ o
            → first_fit align size v (flat (map (areas h) (c ∷ cs))) ≡ none
        no_next g n none q =
            skip align size v h c cs (b g q)
            ∙ next-none align size v pos small aligned h k hi k ks cs p.3 (rw q at n) top
        no_next g n (some x) q = absurd (none-ne-some x (sym n ∙ rw q refl))

        a_next :
            first_fit align size v leaf ≡ none
            → (w : ℕ) → next ≡ some w
            → (o : Option ℕ) → first_next_sub_avail way size ≡ o
            → (v < w)
              × (w < hi)
              × ((va : VmapArea) × FindsBelow size align h (k ∷ ks) (c ∷ cs) w va
                  × (first_fit align size v (flat (map (areas h) (c ∷ cs))) ≡ some va))
        a_next g w n none q =
            let (m, l, (va, f, r)) =
              Next-some align size v pos small aligned h k hi w ks cs p.3 (rw q at n) p.1 top
                (ground (arith, e)) in
            (
              ground (arith, e, m),
              l,
              (
                va,
                later-FindsBelow size align h k ks c cs w va (ground (arith, m)) f,
                skip align size v h c cs (b g q) ∙ r,
              ),
            )
        a_next g w n (some x) q =
            let (m, l, (va, f, r)) = d g w (q ∙ (sym (rw q refl) ∙ n)) in
            (
              m,
              omega (arith, l, p.1),
              (
                va,
                first-FindsBelow size align h k ks c cs w va l enough f,
                stay align size v h c cs va r,
              ),
            )

    -- The first link is passed by.
    pub row-later :
        (lo k hi : ℕ) (ks : List ℕ) (c : Bpn h) (cs : List (Bpn h))
        → Chain (IsFreeChild align h) lo hi (k ∷ ks) (c ∷ cs)
        → hi < word
        → ltb v k && leb size (bpn_max_avail h c) ≡ false
        → DescendsBelow align size v h hi ks cs
        → DescendsBelow align size v h hi (k ∷ ks) (c ∷ cs)
    unfolding lowest_link
    row-later lo k hi ks c cs p top e (i, d, way, leaf, at, there, found, (a, b, n)) = (
      suc i,
      d,
      way,
      leaf,
      rw (lowest_link, e) (ap suc at),
      there,
      found,
      (
        (λ va g. skip align size v h c cs passed ∙ a va g),
        (λ g q. skip align size v h c cs passed ∙ b g q),
        (λ g w q.
            let (m, l, (va, f, r)) = n g w q in
            (
              m,
              l,
              (
                va,
                later-FindsBelow size align h k ks c cs w va (still w m) f,
                skip align size v h c cs passed ∙ r,
              ),
            )),
      ),
    )
      where
        still : (w : ℕ) → v < w → ltb w k && leb size (bpn_max_avail h c) ≡ false
        still w m = ground (arith, e, m)

        passed : first_fit align size v (areas h c) ≡ none
        passed = elim (Bool-cases (ltb v k)) [
          | inl s ↦
              few align size v pos small aligned h lo k c p.2 (omega (arith, p.1, top)) (rw s at e)
          | inr s ↦
              get-before align size lo k (omega (arith, p.1, top)) pos small v (areas h c) aligned
                (areas-Lies align h lo k c p.2) (ground (arith, s))
        ]
