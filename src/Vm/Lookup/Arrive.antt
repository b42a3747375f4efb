-- ===== src/Vm/Lookup/Arrive.antt =====
-- The way down from an address at which no area below the node has begun yet.
use libalgo.Common.{
  ℕ, zero, suc, ◌<◌, ◌≤◌, ◌≡◌, refl, ap, ◌∙◌, List, [], ◌∷◌, ◌++◌, map, some, Bool, true, false,
  ltb, leb, ◌&&◌, get_elem?, Bool-cases, inl, inr, lt→ltb, arith, subst,
}
use libalgo.Bplus.Chain.{Chain}
use libalgo.Vm.{VmapArea, word, va_size}
use libalgo.Vm.Node.{Bpn, bpn_max_avail}
use libalgo.Vm.Node.Avail.{flat, areas, greatest, avail-links}
use libalgo.Vm.Lookup.{Level, leaf_get_va_cond, lowest_link, under, bpt_lookup_lowest_leaf}
use libalgo.Vm.Lookup.Way.{
  IsFree, IsFreeChild, areas-Lies, avail-greatest, get-none_after, get-found, get-append_some,
  get-append_none,
}

-- The search from the address `w` finds `va` in the leaf that it comes to.
abbrev pub Finds : (size align h : ℕ) → Bpn h → ℕ → VmapArea → Type 0
Finds size align h n w va =
    (way : List Level) × (leaf : List VmapArea) × (bpt_lookup_lowest_leaf h n size w
      ≡ some (way, leaf))
    × (leaf_get_va_cond leaf size align w ≡ some va)

-- The same at the links of a node with the given keys.
abbrev pub FindsBelow : (size align h : ℕ) → List ℕ → List (Bpn h) → ℕ → VmapArea → Type 0
FindsBelow size align h ks cs w va =
    (c : Bpn h) × (get_elem? cs (lowest_link size w ks (map (bpn_max_avail h) cs)) ≡ some c)
    × Finds size align h c w va

pub below-Finds :
    (size align h w : ℕ) (n : Bpn (suc h)) (va : VmapArea)
    → n.suba ≡ map (bpn_max_avail h) n.subl
    → FindsBelow size align h n.slot n.subl w va
    → Finds size align (suc h) n w va
unfolding bpt_lookup_lowest_leaf under
below-Finds size align h w n va e (c, there, (way, leaf, found, got)) = (
  way ++ (record { slot = n.slot; suba = n.suba; ppos = lowest_link size w n.slot n.suba } ∷ []),
  leaf,
  rw (bpt_lookup_lowest_leaf, at, found) refl,
  got,
)
  where
    at : get_elem? n.subl (lowest_link size w n.slot n.suba) ≡ some c
    at = ap (λ z. get_elem? n.subl (lowest_link size w n.slot z)) e ∙ there

module _ (size align h : ℕ) (k : ℕ) (ks : List ℕ) (c : Bpn h) (cs : List (Bpn h)) (w : ℕ)
    (va : VmapArea) where
  pub first-FindsBelow :
      w < k
      → size ≤ bpn_max_avail h c
      → Finds size align h c w va
      → FindsBelow size align h (k ∷ ks) (c ∷ cs) w va
  unfolding lowest_link
  first-FindsBelow l m f = (c, rw (lowest_link, lt→ltb w k l, enough) refl, f)
    where
      enough : leb size (bpn_max_avail h c) ≡ true
      enough = ground (arith, m)

  pub later-FindsBelow :
      ltb w k && leb size (bpn_max_avail h c) ≡ false
      → FindsBelow size align h ks cs w va
      → FindsBelow size align h (k ∷ ks) (c ∷ cs) w va
  unfolding lowest_link
  later-FindsBelow l (d, there, f) = (d, rw (lowest_link, l) there, f)

pub and_false : (a : Bool) → a && false ≡ false
and_false true = refl
and_false false = refl

module _ (align size : ℕ) (pos : 0 < size) (small : size < word) where
  -- The first area that is large enough is found, where there is one.
  abbrev Arrives : (h : ℕ) → ℕ → Bpn h → Type 0
  Arrives h w n =
      (va : VmapArea) × Finds size align h n w va
      × (leaf_get_va_cond (areas h n) size align w ≡ some va)

  abbrev ArrivesBelow : (h : ℕ) → List ℕ → ℕ → List (Bpn h) → Type 0
  ArrivesBelow h ks w cs =
      (va : VmapArea) × FindsBelow size align h ks cs w va
      × (leaf_get_va_cond (flat (map (areas h) cs)) size align w ≡ some va)

  module _ (h : ℕ)
      (down : (lo hi w : ℕ) (c : Bpn h)
        → IsFree align lo hi h c
        → hi < word
        → w ≤ lo
        → size ≤ bpn_max_avail h c
        → Arrives h w c) where
    pub row-ArrivesBelow :
        (lo hi w : ℕ) (ks : List ℕ) (cs : List (Bpn h))
        → Chain (IsFreeChild align h) lo hi ks cs
        → hi < word
        → w ≤ lo
        → size ≤ greatest (map (bpn_max_avail h) cs)
        → ArrivesBelow h ks w cs
    unfolding lowest_link
    row-ArrivesBelow lo hi w ks [] p top l m = absurd p
    row-ArrivesBelow lo hi w [] (c ∷ d ∷ cs) p top l m = absurd p
    row-ArrivesBelow lo hi w [] (c ∷ []) p top l m =
        let (va, f, g) = down lo hi w c p top l (omega (arith, m)) in
        (va, (c, refl, f), get-append_some size align w (areas h c) [] va g)
    row-ArrivesBelow lo hi w (k ∷ ks) (c ∷ cs) p top l m =
        elim (Bool-cases (leb size (bpn_max_avail h c))) [
          | inl e ↦
              let enough : size ≤ bpn_max_avail h c = ground (arith, e) in
              let (va, f, g) = down lo k w c p.2 (omega (arith, p.1, top)) l enough in
              (
                va,
                first-FindsBelow size align h k ks c cs w va (omega (arith, l, p.0)) enough f,
                get-append_some size align w (areas h c) (flat (map (areas h) cs)) va g,
              )
          | inr e ↦
              let (va, f, g) =
                row-ArrivesBelow k hi w ks cs p.3 top (omega (arith, l, p.0))
                  (ground (arith, e, m)) in
              (
                va,
                later-FindsBelow size align h k ks c cs w va (rw e (and_false (ltb w k))) f,
                get-append_none size align w (areas h c) (flat (map (areas h) cs)) (
                      get-none_after align size lo k (omega (arith, p.1, top)) pos small w
                        (areas h c) l (areas-Lies align h lo k c p.2) (less e))
                    ∙ g,
              )
        ]
      where
        less : leb size (bpn_max_avail h c) ≡ false → greatest (map va_size (areas h c)) < size
        less e = ground (arith, e, avail-greatest align h lo k c p.2)

  pub node-Arrives :
      (h lo hi w : ℕ) (n : Bpn h)
      → IsFree align lo hi h n
      → hi < word
      → w ≤ lo
      → size ≤ bpn_max_avail h n
      → Arrives h w n
  unfolding bpt_lookup_lowest_leaf
  node-Arrives zero lo hi w n p top l m =
      let (va, g) =
        get-found align size lo hi top pos small w n l p
          (omega (arith, m, avail-greatest align zero lo hi n p)) in
      (va, ([], n, refl, g), g)
  node-Arrives (suc h) lo hi w n p top l m =
      let (va, f, g) =
        row-ArrivesBelow h (λ a b v c q r s t. node-Arrives h a b v c q r s t) lo hi w n.slot n.subl
          p.1 top l enough in
      (va, below-Finds size align h w n va p.0 f, g)
    where
      enough : size ≤ greatest (map (bpn_max_avail h) n.subl)
      enough = subst (λ z. size ≤ z) (avail-links h n ∙ ap greatest p.0) m
