-- ===== src/Vm/Lookup/Way.antt =====
-- The fit test over a list of areas, and the areas of a node between its keys.
use libalgo.Common.{
  ℕ, zero, suc, ◌<◌, ◌≤◌, ◌≡◌, refl, sym, ap, ◌∙◌, List, [], ◌∷◌, ◌++◌, map, none, some, false, leb,
  if◌then◌else◌, Bool-cases, inl, inr, arith,
}
use libalgo.Btree.Arrays.{Every}
use libalgo.Bplus.Chain.{Chain}
use libalgo.Vm.{VmapArea, word, va_size, is_within_this_va}
use libalgo.Vm.Node.{Bpn, bpn_max_avail}
use libalgo.Vm.Node.Avail.{flat, areas, greatest, HasAvail, bpn_max_avail-greatest}
use libalgo.Vm.Lookup.{leaf_get_va_cond}
use libalgo.Vm.Lookup.Fit.{IsAligned, Lies, fit-small, fit-before, fit-after}

-- The areas of a node lie between its keys, from `lo` up to `hi`, and each link has its greatest
-- free size.
abbrev pub IsFree : ℕ → ℕ → ℕ → (h : ℕ) → Bpn h → Type 0
IsFree align lo hi zero n = Every (Lies align lo hi) n
IsFree align lo hi (suc h) n =
    (n.suba ≡ map (bpn_max_avail h) n.subl)
    × Chain (λ l u c. IsFree align l u h c) lo hi n.slot n.subl

abbrev pub IsFreeChild : ℕ → (h : ℕ) → ℕ → ℕ → Bpn h → Type 0
IsFreeChild align h l u c = IsFree align l u h c

Lies-wider :
    (align lo hi lo' hi' : ℕ) (xs : List VmapArea)
    → lo' ≤ lo
    → hi ≤ hi'
    → Every (Lies align lo hi) xs
    → Every (Lies align lo' hi') xs
Lies-wider align lo hi lo' hi' [] a b e = tt
Lies-wider align lo hi lo' hi' (va ∷ xs) a b e = (
  (omega (arith, a, e.0.0), e.0.1, omega (arith, b, e.0.2), e.0.3),
  Lies-wider align lo hi lo' hi' xs a b e.1,
)

pub Every-append {ℓ κ} :
    {A : Type ℓ} (P : A → Type κ) (xs ys : List A) → Every P xs → Every P ys → Every P (xs ++ ys)
Every-append P [] ys a b = b
Every-append P (x ∷ xs) ys a b = (a.0, Every-append P xs ys a.1 b)

module _ (align h : ℕ)
    (down : (lo hi : ℕ) (c : Bpn h)
      → IsFree align lo hi h c
      → Every (Lies align lo hi) (areas h c)) where
  pub links-Lies :
      (lo hi : ℕ) (ks : List ℕ) (cs : List (Bpn h))
      → Chain (IsFreeChild align h) lo hi ks cs
      → Every (Lies align lo hi) (flat (map (areas h) cs))
  links-Lies lo hi ks [] p = absurd p
  links-Lies lo hi [] (c ∷ []) p =
      Every-append (Lies align lo hi) (areas h c) [] (down lo hi c p) tt
  links-Lies lo hi [] (c ∷ d ∷ cs) p = absurd p
  links-Lies lo hi (k ∷ ks) (c ∷ cs) p =
      Every-append (Lies align lo hi) (areas h c) (flat (map (areas h) cs))
        (Lies-wider align lo k lo hi (areas h c) (omega arith) (omega (arith, p.1))
          (down lo k c p.2))
        (Lies-wider align k hi lo hi (flat (map (areas h) cs)) (omega (arith, p.0)) (omega arith)
          (links-Lies k hi ks cs p.3))

pub areas-Lies :
    (align h lo hi : ℕ) (n : Bpn h) → IsFree align lo hi h n → Every (Lies align lo hi) (areas h n)
areas-Lies align zero lo hi n p = p
areas-Lies align (suc h) lo hi n p =
    links-Lies align h (λ l u c q. areas-Lies align h l u c q) lo hi n.slot n.subl p.1

module _ (align h : ℕ)
    (down : (lo hi : ℕ) (c : Bpn h) → IsFree align lo hi h c → HasAvail h c) where
  links-HasAvail :
      (lo hi : ℕ) (ks : List ℕ) (cs : List (Bpn h))
      → Chain (IsFreeChild align h) lo hi ks cs
      → Every (HasAvail h) cs
  links-HasAvail lo hi ks [] p = absurd p
  links-HasAvail lo hi [] (c ∷ []) p = (down lo hi c p, tt)
  links-HasAvail lo hi [] (c ∷ d ∷ cs) p = absurd p
  links-HasAvail lo hi (k ∷ ks) (c ∷ cs) p = (down lo k c p.2, links-HasAvail k hi ks cs p.3)

pub node-HasAvail : (align h lo hi : ℕ) (n : Bpn h) → IsFree align lo hi h n → HasAvail h n
node-HasAvail align zero lo hi n p = tt
node-HasAvail align (suc h) lo hi n p =
    (p.0, links-HasAvail align h (λ l u c q. node-HasAvail align h l u c q) lo hi n.slot n.subl p.1)

pub avail-greatest :
    (align h lo hi : ℕ) (n : Bpn h)
    → IsFree align lo hi h n
    → bpn_max_avail h n ≡ greatest (map va_size (areas h n))
avail-greatest align h lo hi n p = bpn_max_avail-greatest h n (node-HasAvail align h lo hi n p)

module _ (align size lo hi : ℕ) (top : hi < word) (pos : 0 < size) (small : size < word) where
  pub get-small :
      (v : ℕ) (xs : List VmapArea)
      → IsAligned align v
      → Every (Lies align lo hi) xs
      → greatest (map va_size xs) < size
      → leaf_get_va_cond xs size align v ≡ none
  unfolding leaf_get_va_cond
  get-small v [] a e l = refl
  get-small v (va ∷ xs) a e l =
      rw (leaf_get_va_cond, fit-small align size lo hi va e.0 top pos small v a (omega (arith, l)))
        (get-small v xs a e.1 (omega (arith, l)))

  pub get-before :
      (v : ℕ) (xs : List VmapArea)
      → IsAligned align v
      → Every (Lies align lo hi) xs
      → hi ≤ v
      → leaf_get_va_cond xs size align v ≡ none
  unfolding leaf_get_va_cond
  get-before v [] a e l = refl
  get-before v (va ∷ xs) a e l =
      rw
        (
          leaf_get_va_cond,
          fit-before align size lo hi va e.0 top pos small v a (omega (arith, l, e.0.2)),
        )
        (get-before v xs a e.1 l)

  -- Where all areas start at or after the address, it is the first that is large enough.
  pub get-after :
      (v : ℕ) (va : VmapArea) (xs : List VmapArea)
      → v ≤ lo
      → Every (Lies align lo hi) (va ∷ xs)
      → leaf_get_va_cond (va ∷ xs) size align v
        ≡ (if leb size (va_size va) then some va else leaf_get_va_cond xs size align v)
  unfolding leaf_get_va_cond
  get-after v va xs l e =
      rw
        (
          leaf_get_va_cond,
          fit-after align size lo hi va e.0 top pos small v (omega (arith, l, e.0.0)),
        )
        refl

  pub get-same :
      (v w : ℕ) (xs : List VmapArea)
      → v ≤ lo
      → w ≤ lo
      → Every (Lies align lo hi) xs
      → leaf_get_va_cond xs size align v ≡ leaf_get_va_cond xs size align w
  unfolding leaf_get_va_cond
  get-same v w [] l m e = refl
  get-same v w (va ∷ xs) l m e =
      get-after v va xs l e
      ∙ ap (λ z. if leb size (va_size va) then some va else z) (get-same v w xs l m e.1)
      ∙ sym (get-after w va xs m e)

  pub get-none_after :
      (v : ℕ) (xs : List VmapArea)
      → v ≤ lo
      → Every (Lies align lo hi) xs
      → greatest (map va_size xs) < size
      → leaf_get_va_cond xs size align v ≡ none
  unfolding leaf_get_va_cond
  get-none_after v [] l e g = refl
  get-none_after v (va ∷ xs) l e g =
      get-after v va xs l e
      ∙ rw (not_leb (omega (arith, g))) (get-none_after v xs l e.1 (omega (arith, g)))
    where
      not_leb : va_size va < size → leb size (va_size va) ≡ false
      not_leb s = ground (arith, s)

  pub get-found :
      (v : ℕ) (xs : List VmapArea)
      → v ≤ lo
      → Every (Lies align lo hi) xs
      → size ≤ greatest (map va_size xs)
      → (va : VmapArea) × (leaf_get_va_cond xs size align v ≡ some va)
  unfolding leaf_get_va_cond
  get-found v [] l e g = absurd (omega (arith, g, pos))
  get-found v (va ∷ xs) l e g = elim (Bool-cases (leb size (va_size va))) [
    | inl s ↦ (va, get-after v va xs l e ∙ rw s refl)
    | inr s ↦
        let (vb, r) = get-found v xs l e.1 (ground (arith, s, g)) in
        (vb, get-after v va xs l e ∙ rw s r)
  ]

module _ (size align v : ℕ) where
  pub get-append_some :
      (xs ys : List VmapArea) (va : VmapArea)
      → leaf_get_va_cond xs size align v ≡ some va
      → leaf_get_va_cond (xs ++ ys) size align v ≡ some va
  unfolding leaf_get_va_cond
  get-append_some [] ys va e = cc
  get-append_some (x ∷ xs) ys va e = elim (Bool-cases (is_within_this_va x size align v)) [
    | inl s ↦ rw (leaf_get_va_cond, s) (rw (leaf_get_va_cond, s) at e)
    | inr s ↦ rw (leaf_get_va_cond, s) (get-append_some xs ys va (rw (leaf_get_va_cond, s) at e))
  ]

  pub get-append_none :
      (xs ys : List VmapArea)
      → leaf_get_va_cond xs size align v ≡ none
      → leaf_get_va_cond (xs ++ ys) size align v ≡ leaf_get_va_cond ys size align v
  unfolding leaf_get_va_cond
  get-append_none [] ys e = refl
  get-append_none (x ∷ xs) ys e = elim (Bool-cases (is_within_this_va x size align v)) [
    | inl s ↦ cc
    | inr s ↦ rw (leaf_get_va_cond, s) (get-append_none xs ys (rw (leaf_get_va_cond, s) at e))
  ]
