-- ===== src/Vm/Node/Avail.antt =====
-- The areas of a tree in the order of its leaves, and the sizes that the internal nodes keep.
use libalgo.Common.{
  ℕ, zero, suc, max, ◌≡◌, refl, sym, ap, ◌∙◌, List, [], ◌∷◌, ◌++◌, append_assoc, map, ltb, arith,
  Bool-cases, inl, inr,
}
use mathlib.Core.List.{map-append}
use libalgo.Btree.Arrays.{Every}
use libalgo.Vm.{VmapArea, va_size}
use libalgo.Vm.Node.{Bpn, avail_loop, bpn_max_avail}

abbrev pub flat {ℓ} : {A : Type ℓ} → List (List A) → List A
flat [] = []
flat (x ∷ xs) = x ++ flat xs

pub flat-append {ℓ} : {A : Type ℓ} (xs ys : List (List A)) → flat (xs ++ ys) ≡ flat xs ++ flat ys
flat-append [] ys = refl
flat-append (x ∷ xs) ys =
    ap (λ z. x ++ z) (flat-append xs ys) ∙ sym (append_assoc x (flat xs) (flat ys))

abbrev pub areas : (h : ℕ) → Bpn h → List VmapArea
areas zero n = n
areas (suc h) n = flat (map (areas h) n.subl)

abbrev pub greatest : List ℕ → ℕ
greatest [] = 0
greatest (x ∷ xs) = max x (greatest xs)

pub greatest-append : (xs ys : List ℕ) → greatest (xs ++ ys) ≡ max (greatest xs) (greatest ys)
greatest-append [] ys = omega arith
greatest-append (x ∷ xs) ys = omega (arith, greatest-append xs ys)

pub avail_loop-greatest : (a : ℕ) (xs : List ℕ) → avail_loop a xs ≡ max a (greatest xs)
unfolding avail_loop
avail_loop-greatest a [] = omega arith
avail_loop-greatest a (x ∷ xs) = elim (Bool-cases (ltb a x)) [
  | inl e ↦ rw (avail_loop, e) (ground (arith, e, avail_loop-greatest x xs))
  | inr e ↦ rw (avail_loop, e) (ground (arith, e, avail_loop-greatest a xs))
]

pub avail-links : (h : ℕ) (n : Bpn (suc h)) → bpn_max_avail (suc h) n ≡ greatest n.suba
unfolding bpn_max_avail
avail-links h n = avail_loop-greatest 0 n.suba ∙ omega arith

-- Each internal node keeps with each link the greatest free size of the child.
abbrev pub HasAvail : (h : ℕ) → Bpn h → Type 0
HasAvail zero n = Unit
HasAvail (suc h) n = (n.suba ≡ map (bpn_max_avail h) n.subl) × Every (HasAvail h) n.subl

module _ (h : ℕ)
    (down : (c : Bpn h)
      → HasAvail h c
      → bpn_max_avail h c ≡ greatest (map va_size (areas h c))) where
  links-greatest :
      (cs : List (Bpn h))
      → Every (HasAvail h) cs
      → greatest (map (bpn_max_avail h) cs) ≡ greatest (map va_size (flat (map (areas h) cs)))
  links-greatest [] e = refl
  links-greatest (c ∷ cs) e =
      ap (λ z. max z (greatest (map (bpn_max_avail h) cs))) (down c (e.0))
      ∙ ap (λ z. max (greatest (map va_size (areas h c))) z) (links-greatest cs (e.1))
      ∙ sym (greatest-append (map va_size (areas h c)) (map va_size (flat (map (areas h) cs))))
      ∙ ap greatest (sym (map-append va_size (areas h c) (flat (map (areas h) cs))))

-- Where each internal node keeps the greatest sizes of its children, bpn_max_avail is the greatest
-- size of all areas below the node, and 0 where there is none.
pub bpn_max_avail-greatest :
    (h : ℕ) (n : Bpn h) → HasAvail h n → bpn_max_avail h n ≡ greatest (map va_size (areas h n))
unfolding bpn_max_avail
bpn_max_avail-greatest zero n p = avail_loop-greatest 0 (map va_size n) ∙ omega arith
bpn_max_avail-greatest (suc h) n p =
    avail-links h n
    ∙ ap greatest (p.0)
    ∙ links-greatest h (λ c q. bpn_max_avail-greatest h c q) (n.subl) (p.1)
