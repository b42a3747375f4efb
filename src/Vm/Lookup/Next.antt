-- ===== src/Vm/Lookup/Next.antt =====
-- The links behind the one that the search takes: the first with enough space.
use libalgo.Common.{
  ℕ, ◌<◌, ◌≤◌, ◌≡◌, refl, sym, ◌∙◌, List, [], ◌∷◌, map, Option, none, some, false, ltb, leb,
  Bool-cases, inl, inr, arith, subst,
}
use mathlib.Core.Option.{some-injective, none-ne-some}
use libalgo.Bplus.Chain.{Chain}
use libalgo.Vm.{VmapArea, word}
use libalgo.Vm.Node.{Bpn, bpn_max_avail}
use libalgo.Vm.Node.Avail.{flat, areas, greatest}
use libalgo.Vm.Lookup.{leaf_get_va_cond, next_link}
use libalgo.Vm.Lookup.Fit.{IsAligned}
use libalgo.Vm.Lookup.Way.{
  IsFree, IsFreeChild, areas-Lies, links-Lies, avail-greatest, get-small, get-same, get-append_some,
  get-append_none,
}
use libalgo.Vm.Lookup.Arrive.{
  FindsBelow, later-FindsBelow, and_false, row-ArrivesBelow, node-Arrives,
}

module _ (align size v : ℕ) where
  -- The first area that the block fits into.
  abbrev pub first_fit : List VmapArea → Option VmapArea
  first_fit xs = leaf_get_va_cond xs size align v

  pub get-nil : first_fit [] ≡ none
  unfolding leaf_get_va_cond
  get-nil = refl

  pub skip :
      (h : ℕ) (c : Bpn h) (cs : List (Bpn h))
      → first_fit (areas h c) ≡ none
      → first_fit (flat (map (areas h) (c ∷ cs))) ≡ first_fit (flat (map (areas h) cs))
  skip h c cs e = get-append_none size align v (areas h c) (flat (map (areas h) cs)) e

  pub stay :
      (h : ℕ) (c : Bpn h) (cs : List (Bpn h)) (va : VmapArea)
      → first_fit (areas h c) ≡ some va
      → first_fit (flat (map (areas h) (c ∷ cs))) ≡ some va
  stay h c cs va e = get-append_some size align v (areas h c) (flat (map (areas h) cs)) va e

module _ (align size v : ℕ) (pos : 0 < size) (small : size < word)
    (aligned : IsAligned align v) where
  module _ (h : ℕ) where
    -- The areas of a child without enough space.
    pub few :
        (lo hi : ℕ) (c : Bpn h)
        → IsFree align lo hi h c
        → hi < word
        → leb size (bpn_max_avail h c) ≡ false
        → first_fit align size v (areas h c) ≡ none
    few lo hi c p top s =
        get-small align size lo hi top pos small v (areas h c) aligned
          (areas-Lies align h lo hi c p) (ground (arith, s, avail-greatest align h lo hi c p))

    -- The links behind the taken one.
    pub next-none :
        (lo hi k : ℕ) (ks : List ℕ) (cs : List (Bpn h))
        → Chain (IsFreeChild align h) lo hi ks cs
        → next_link size (k ∷ ks) (map (bpn_max_avail h) cs) ≡ none
        → hi < word
        → first_fit align size v (flat (map (areas h) cs)) ≡ none
    unfolding next_link
    next-none lo hi k ks [] p e top = absurd p
    next-none lo hi k [] (c ∷ d ∷ cs) p e top = absurd p
    next-none lo hi k [] (c ∷ []) p e top = elim (Bool-cases (leb size (bpn_max_avail h c))) [
      | inl s ↦ absurd (none-ne-some k (sym e ∙ rw (next_link, s) refl))
      | inr s ↦ skip align size v h c [] (few lo hi c p top s) ∙ get-nil align size v
    ]
    next-none lo hi k (j ∷ ks) (c ∷ cs) p e top = elim (Bool-cases (leb size (bpn_max_avail h c))) [
      | inl s ↦ absurd (none-ne-some k (sym e ∙ rw (next_link, s) refl))
      | inr s ↦
          skip align size v h c cs (few lo j c p.2 (omega (arith, p.1, top)) s)
          ∙ next-none j hi j ks cs p.3 (rw (next_link, s) at e) top
    ]

    abbrev pub Next : (k hi w : ℕ) → List ℕ → List (Bpn h) → Type 0
    Next k hi w ks cs =
        (k ≤ w)
        × (w < hi)
        × ((va : VmapArea) × FindsBelow size align h ks cs w va
            × (first_fit align size v (flat (map (areas h) cs)) ≡ some va))

    Next-here :
        (k hi : ℕ) (ks : List ℕ) (cs : List (Bpn h))
        → Chain (IsFreeChild align h) k hi ks cs
        → k < hi
        → hi < word
        → v < k
        → size ≤ greatest (map (bpn_max_avail h) cs)
        → Next k hi k ks cs
    Next-here k hi ks cs p l top b m =
        let (va, f, g) =
          row-ArrivesBelow align size pos small h
            (λ a b w c q r s t. node-Arrives align size pos small h a b w c q r s t) k hi k ks cs p
            top (omega arith) m in
        (
          omega arith,
          l,
          (
            va,
            f,
            get-same align size k hi top pos small v k (flat (map (areas h) cs)) (omega (arith, b))
                  (omega arith)
                  (links-Lies align h (λ a b c q. areas-Lies align h a b c q) k hi ks cs p)
                ∙ g,
          ),
        )

    pub Next-some :
        (k hi w : ℕ) (ks : List ℕ) (cs : List (Bpn h))
        → Chain (IsFreeChild align h) k hi ks cs
        → next_link size (k ∷ ks) (map (bpn_max_avail h) cs) ≡ some w
        → k < hi
        → hi < word
        → v < k
        → Next k hi w ks cs
    unfolding next_link
    Next-some k hi w ks [] p e l top b = absurd p
    Next-some k hi w [] (c ∷ d ∷ cs) p e l top b = absurd p
    Next-some k hi w [] (c ∷ []) p e l top b = elim (Bool-cases (leb size (bpn_max_avail h c))) [
      | inl s ↦
          subst (λ z. Next k hi z [] (c ∷ []))
            (some-injective k w (sym (rw (next_link, s) refl) ∙ e))
            (Next-here k hi [] (c ∷ []) p l top b (ground (arith, s)))
      | inr s ↦ absurd (none-ne-some w (rw (next_link, s) at e))
    ]
    Next-some k hi w (j ∷ ks) (c ∷ cs) p e l top b =
        elim (Bool-cases (leb size (bpn_max_avail h c))) [
          | inl s ↦
              subst (λ z. Next k hi z (j ∷ ks) (c ∷ cs))
                (some-injective k w (sym (rw (next_link, s) refl) ∙ e))
                (Next-here k hi (j ∷ ks) (c ∷ cs) p l top b (ground (arith, s)))
          | inr s ↦
              let (a, d, (va, f, g)) =
                Next-some j hi w ks cs p.3 (rw (next_link, s) at e) p.1 top
                  (omega (arith, b, p.0)) in
              (
                omega (arith, a, p.0),
                d,
                (
                  va,
                  later-FindsBelow size align h j ks c cs w va (rw s (and_false (ltb w j))) f,
                  skip align size v h c cs (few k j c p.2 (omega (arith, p.1, top)) s) ∙ g,
                ),
              )
        ]
