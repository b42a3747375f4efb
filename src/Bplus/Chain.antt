-- ===== src/Bplus/Chain.antt =====
-- The keys of an internal node between its children: each child lies between the keys on its sides.
use libalgo.Common.{
  ℕ, zero, suc, ◌<◌, ◌≤◌, ◌≡◌, refl, sym, ap, ◌∙◌, List, [], ◌∷◌, ◌++◌, append_assoc, map, length,
  get_or, take, drop, arith,
}
use libalgo.Tree.Sorted.{Below, Above}
use libalgo.Btree.Index.{Greater, IsRising}

abbrev pub Items : Type 0
Items = List (ℕ × ℕ)

abbrev pub flat : List Items → Items
flat [] = []
flat (x ∷ xs) = x ++ flat xs

pub flat-append : (xs ys : List Items) → flat (xs ++ ys) ≡ flat xs ++ flat ys
flat-append [] ys = refl
flat-append (x ∷ xs) ys =
    ap (λ z. x ++ z) (flat-append xs ys) ∙ sym (append_assoc x (flat xs) (flat ys))

-- The keys of all items are at least `lo` and less than `hi`.
abbrev pub Range : ℕ → ℕ → Items → Type 0
Range lo hi [] = Unit
Range lo hi (e ∷ xs) = (lo ≤ e.0) × (e.0 < hi) × Range lo hi xs

pub Range-append :
    (lo hi : ℕ) (xs ys : Items) → Range lo hi xs → Range lo hi ys → Range lo hi (xs ++ ys)
Range-append lo hi [] ys a b = b
Range-append lo hi (e ∷ xs) ys a b = (a.0, a.1, Range-append lo hi xs ys a.2 b)

pub Range-wider :
    (lo hi lo' hi' : ℕ) (xs : Items) → lo' ≤ lo → hi ≤ hi' → Range lo hi xs → Range lo' hi' xs
Range-wider lo hi lo' hi' [] a b r = tt
Range-wider lo hi lo' hi' (e ∷ xs) a b r =
    (omega arith, omega arith, Range-wider lo hi lo' hi' xs a b r.2)

pub Range-Below : (lo hi v : ℕ) (xs : Items) → hi ≤ v → Range lo hi xs → Below v xs
Range-Below lo hi v [] h r = tt
Range-Below lo hi v (e ∷ xs) h r = (omega arith, Range-Below lo hi v xs h r.2)

pub Range-Above : (lo hi v : ℕ) (xs : Items) → v < lo → Range lo hi xs → Above v xs
Range-Above lo hi v [] h r = tt
Range-Above lo hi v (e ∷ xs) h r = (omega arith, Range-Above lo hi v xs h r.2)

module _ {C : Type 0} (P : ℕ → ℕ → C → Type 0) where
  abbrev pub Chain : ℕ → ℕ → List ℕ → List C → Type 0
  Chain lo hi ks [] = ⊥
  Chain lo hi [] (c ∷ []) = P lo hi c
  Chain lo hi [] (c ∷ d ∷ cs) = ⊥
  Chain lo hi (k ∷ ks) (c ∷ cs) = (lo < k) × (k < hi) × P lo k c × Chain k hi ks cs

  pub length-Chain :
      (lo hi : ℕ) (ks : List ℕ) (cs : List C) → Chain lo hi ks cs → length cs ≡ suc (length ks)
  length-Chain lo hi ks [] h = absurd h
  length-Chain lo hi [] (c ∷ []) h = refl
  length-Chain lo hi [] (c ∷ d ∷ cs) h = absurd h
  length-Chain lo hi (k ∷ ks) (c ∷ cs) h = ap suc (length-Chain k hi ks cs h.3)

  Greater-Chain :
      (j lo hi : ℕ) (ks : List ℕ) (cs : List C) → j ≤ lo → Chain lo hi ks cs → Greater j ks
  Greater-Chain j lo hi [] cs l h = tt
  Greater-Chain j lo hi (k ∷ ks) [] l h = absurd h
  Greater-Chain j lo hi (k ∷ ks) (c ∷ cs) l h =
      (omega (arith, h.0), Greater-Chain j k hi ks cs (omega (arith, h.0)) h.3)

  pub Chain-IsRising : (lo hi : ℕ) (ks : List ℕ) (cs : List C) → Chain lo hi ks cs → IsRising ks
  Chain-IsRising lo hi [] cs h = tt
  Chain-IsRising lo hi (k ∷ ks) [] h = absurd h
  Chain-IsRising lo hi (k ∷ ks) (c ∷ cs) h =
      (Greater-Chain k k hi ks cs (omega arith) h.3, Chain-IsRising k hi ks cs h.3)

  -- Two chains with a key between them.
  pub Chain-append :
      (lo mid hi : ℕ) (ks js : List ℕ) (cs ds : List C)
      → lo < mid
      → mid < hi
      → Chain lo mid ks cs
      → Chain mid hi js ds
      → Chain lo hi (ks ++ (mid ∷ js)) (cs ++ ds)
  Chain-append lo mid hi ks js [] ds a b h i = absurd h
  Chain-append lo mid hi [] js (c ∷ []) ds a b h i = (a, b, h, i)
  Chain-append lo mid hi [] js (c ∷ d ∷ cs) ds a b h i = absurd h
  Chain-append lo mid hi (k ∷ ks) js (c ∷ cs) ds a b h i =
      (h.0, omega (arith, h.1, b), h.2, Chain-append k mid hi ks js cs ds h.1 b h.3 i)

  -- A chain cut at the key number `n`.
  pub Chain-cut :
      (n lo hi : ℕ) (ks : List ℕ) (cs : List C)
      → n < length ks
      → Chain lo hi ks cs
      → (lo < get_or ks n 0)
        × (get_or ks n 0 < hi)
        × Chain lo (get_or ks n 0) (take n ks) (take (suc n) cs)
        × Chain (get_or ks n 0) hi (drop (suc n) ks) (drop (suc n) cs)
  Chain-cut n lo hi [] cs l h = absurd (omega (arith, l))
  Chain-cut n lo hi (k ∷ ks) [] l h = absurd h
  Chain-cut zero lo hi (k ∷ ks) (c ∷ cs) l h = (h.0, h.1, h.2, h.3)
  Chain-cut (suc n) lo hi (k ∷ ks) (c ∷ []) l h = absurd (h.3)
  Chain-cut (suc n) lo hi (k ∷ ks) (c ∷ d ∷ cs) l h =
      let r = Chain-cut n k hi ks (d ∷ cs) (omega (arith, l)) h.3 in
      (omega (arith, h.0, r.0), r.1, (h.0, r.0, h.2, r.2), r.3)

  -- The items of the children, from a range for each.
  pub Chain-Range :
      (f : C → Items)
      → ((l u : ℕ) (c : C) → P l u c → Range l u (f c))
      → (lo hi : ℕ) (ks : List ℕ) (cs : List C) → Chain lo hi ks cs
      → Range lo hi (flat (map f cs))
  Chain-Range f r lo hi ks [] h = absurd h
  Chain-Range f r lo hi [] (c ∷ []) h = Range-append lo hi (f c) [] (r lo hi c h) tt
  Chain-Range f r lo hi [] (c ∷ d ∷ cs) h = absurd h
  Chain-Range f r lo hi (k ∷ ks) (c ∷ cs) h =
      Range-append lo hi (f c) (flat (map f cs))
        (Range-wider lo k lo hi (f c) (omega arith) (omega (arith, h.1)) (r lo k c h.2))
        (Range-wider k hi lo hi (flat (map f cs)) (omega (arith, h.0)) (omega arith)
          (Chain-Range f r k hi ks cs h.3))
