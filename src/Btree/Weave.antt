-- ===== src/Btree/Weave.antt =====
-- The items of a node with children: the items of the children with the slots between them.
use libalgo.Common.{
  ℕ, zero, suc, ◌<◌, ◌≤◌, ◌≡◌, refl, sym, ap, ◌∙◌, List, [], ◌∷◌, ◌++◌, append_assoc, append-nil,
  length, get_or, set, take, drop, arith,
}
use libalgo.Btree.{array_insert}

abbrev pub Items : Type 0
Items = List (ℕ × Unit)

abbrev pub tag : List ℕ → Items
tag [] = []
tag (s ∷ ss) = (s, tt) ∷ tag ss

abbrev pub weave : List ℕ → List Items → Items
weave ss [] = []
weave [] (c ∷ cs) = c
weave (s ∷ ss) (c ∷ cs) = c ++ ((s, tt) ∷ weave ss cs)

-- What stands before and after the items of the child `i`.
abbrev pub before : ℕ → List ℕ → List Items → Items
before zero ss cs = []
before (suc i) ss [] = []
before (suc i) [] (c ∷ cs) = []
before (suc i) (s ∷ ss) (c ∷ cs) = c ++ ((s, tt) ∷ before i ss cs)

abbrev pub after : ℕ → List ℕ → List Items → Items
after zero [] cs = []
after zero (s ∷ ss) [] = []
after zero (s ∷ ss) (c ∷ cs) = (s, tt) ∷ weave ss cs
after (suc i) ss [] = []
after (suc i) [] (c ∷ cs) = []
after (suc i) (s ∷ ss) (c ∷ cs) = after i ss cs

pub weave-set :
    (i : ℕ) (ss : List ℕ) (cs : List Items) (y : Items)
    → length cs ≡ suc (length ss)
    → i ≤ length ss
    → weave ss (set cs i y) ≡ before i ss cs ++ (y ++ after i ss cs)
weave-set i ss [] y l h = absurd (omega (arith, l))
weave-set zero [] (c ∷ []) y l h = sym (append-nil y)
weave-set zero [] (c ∷ d ∷ cs) y l h = absurd (omega (arith, l))
weave-set zero (s ∷ ss) (c ∷ cs) y l h = refl
weave-set (suc i) [] (c ∷ cs) y l h = absurd (omega (arith, h))
weave-set (suc i) (s ∷ ss) (c ∷ cs) y l h =
    ap (λ z. c ++ ((s, tt) ∷ z)) (weave-set i ss cs y (omega (arith, l)) (omega (arith, h)))
    ∙ simp append_assoc

-- A child replaced by two with a new slot between them.
pub weave-insert :
    (i : ℕ) (ss : List ℕ) (cs : List Items) (a b : Items) (k : ℕ)
    → length cs ≡ suc (length ss)
    → i ≤ length ss
    → weave (array_insert ss i k) (array_insert (set cs i a) (suc i) b)
      ≡ before i ss cs ++ ((a ++ ((k, tt) ∷ b)) ++ after i ss cs)
unfolding array_insert
weave-insert i ss [] a b k l h = absurd (omega (arith, l))
weave-insert zero [] (c ∷ []) a b k l h = sym (append-nil (a ++ ((k, tt) ∷ b)))
weave-insert zero [] (c ∷ d ∷ cs) a b k l h = absurd (omega (arith, l))
weave-insert zero (s ∷ ss) (c ∷ cs) a b k l h = simp append_assoc
weave-insert (suc i) [] (c ∷ cs) a b k l h = absurd (omega (arith, h))
weave-insert (suc i) (s ∷ ss) (c ∷ cs) a b k l h =
    ap (λ z. c ++ ((s, tt) ∷ z)) (weave-insert i ss cs a b k (omega (arith, l)) (omega (arith, h)))
    ∙ simp append_assoc

-- The items of a node, cut at the slot `n`.
pub weave-cut :
    (n : ℕ) (ss : List ℕ) (cs : List Items)
    → length cs ≡ suc (length ss)
    → n < length ss
    → weave ss cs
      ≡ weave (take n ss) (take (suc n) cs)
        ++ ((get_or ss n 0, tt) ∷ weave (drop (suc n) ss) (drop (suc n) cs))
weave-cut n [] cs l h = absurd (omega (arith, h))
weave-cut n (s ∷ ss) [] l h = absurd (omega (arith, l))
weave-cut zero (s ∷ ss) (c ∷ cs) l h = refl
weave-cut (suc n) (s ∷ ss) (c ∷ []) l h = absurd (omega (arith, l, h))
weave-cut (suc n) (s ∷ ss) (c ∷ d ∷ cs) l h =
    ap (λ z. c ++ ((s, tt) ∷ z)) (weave-cut n ss (d ∷ cs) (omega (arith, l)) (omega (arith, h)))
    ∙ simp append_assoc
