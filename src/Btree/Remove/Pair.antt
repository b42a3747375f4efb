-- ===== src/Btree/Remove/Pair.antt =====
-- Two neighbours among the items of a node, with the slot between them.
use libalgo.Common.{
  ℕ, zero, suc, ◌<◌, ◌≡◌, refl, sym, ap, ◌∙◌, List, [], ◌∷◌, ◌++◌, append_assoc, append-nil, map,
  some, length, get_or, get_elem?, set, take, drop, arith,
}
use mathlib.Core.List.{map-append}
use mathlib.Core.Option.{some-injective}
use libalgo.Btree.{BtNode, array_remove}
use libalgo.Btree.Arrays.{length-map, map-set, map-take, map-drop}
use libalgo.Btree.Weave.{Items, weave, before, after}
use libalgo.Btree.Items.{items}

pub weave-pair :
    (i k : ℕ) (ss : List ℕ) (cs : List Items) (x y : Items)
    → length cs ≡ suc (length ss)
    → i < length ss
    → weave (set ss i k) (set (set cs i x) (suc i) y)
      ≡ before i ss cs ++ ((x ++ ((k, tt) ∷ y)) ++ after (suc i) ss cs)
weave-pair i k [] cs x y l h = absurd (omega (arith, h))
weave-pair i k (s ∷ ss) [] x y l h = absurd (omega (arith, l))
weave-pair i k (s ∷ ss) (c ∷ []) x y l h = absurd (omega (arith, l))
weave-pair zero k (s ∷ []) (c ∷ d ∷ []) x y l h = sym (append-nil (x ++ ((k, tt) ∷ y)))
weave-pair zero k (s ∷ []) (c ∷ d ∷ e ∷ cs) x y l h = absurd (omega (arith, l))
weave-pair zero k (s ∷ t ∷ ss) (c ∷ d ∷ cs) x y l h = simp append_assoc
weave-pair (suc i) k (s ∷ ss) (c ∷ d ∷ cs) x y l h =
    ap (λ z. c ++ ((s, tt) ∷ z))
      (weave-pair i k ss (d ∷ cs) x y (omega (arith, l)) (omega (arith, h)))
    ∙ simp append_assoc

pub weave-merge :
    (i : ℕ) (ss : List ℕ) (cs : List Items) (z : Items)
    → length cs ≡ suc (length ss)
    → i < length ss
    → weave (array_remove ss i) (set (array_remove cs (suc i)) i z)
      ≡ before i ss cs ++ (z ++ after (suc i) ss cs)
unfolding array_remove
weave-merge i [] cs z l h = absurd (omega (arith, h))
weave-merge i (s ∷ ss) [] z l h = absurd (omega (arith, l))
weave-merge i (s ∷ ss) (c ∷ []) z l h = absurd (omega (arith, l))
weave-merge zero (s ∷ []) (c ∷ d ∷ []) z l h = sym (append-nil z)
weave-merge zero (s ∷ []) (c ∷ d ∷ e ∷ cs) z l h = absurd (omega (arith, l))
weave-merge zero (s ∷ t ∷ ss) (c ∷ d ∷ cs) z l h = refl
weave-merge (suc i) (s ∷ ss) (c ∷ d ∷ cs) z l h =
    ap (λ y. c ++ ((s, tt) ∷ y)) (weave-merge i ss (d ∷ cs) z (omega (arith, l)) (omega (arith, h)))
    ∙ simp append_assoc

pub after-pair :
    (i : ℕ) (ss : List ℕ) (cs : List Items) (y : Items)
    → length cs ≡ suc (length ss)
    → get_elem? cs (suc i) ≡ some y
    → i < length ss
    → after i ss cs ≡ (get_or ss i 0, tt) ∷ (y ++ after (suc i) ss cs)
after-pair i [] cs y l e h = absurd (omega (arith, h))
after-pair i (s ∷ ss) [] y l e h = absurd (omega (arith, l))
after-pair i (s ∷ ss) (c ∷ []) y l e h = absurd (omega (arith, l))
after-pair zero (s ∷ []) (c ∷ d ∷ []) y l e h =
    ap (λ z. (s, tt) ∷ z) (some-injective d y e ∙ sym (append-nil y))
after-pair zero (s ∷ []) (c ∷ d ∷ f ∷ cs) y l e h = absurd (omega (arith, l))
after-pair zero (s ∷ t ∷ ss) (c ∷ d ∷ cs) y l e h =
    ap (λ z. (s, tt) ∷ (z ++ ((t, tt) ∷ weave ss cs))) (some-injective d y e)
after-pair (suc i) (s ∷ ss) (c ∷ d ∷ cs) y l e h =
    after-pair i ss (d ∷ cs) y (omega (arith, l)) e (omega (arith, h))

pub before-pair :
    (i : ℕ) (ss : List ℕ) (cs : List Items) (x : Items)
    → length cs ≡ suc (length ss)
    → get_elem? cs i ≡ some x
    → i < length ss
    → before (suc i) ss cs ≡ before i ss cs ++ (x ++ ((get_or ss i 0, tt) ∷ []))
before-pair i [] cs x l e h = absurd (omega (arith, h))
before-pair i (s ∷ ss) [] x l e h = absurd (omega (arith, l))
before-pair zero (s ∷ ss) (c ∷ cs) x l e h = ap (λ z. z ++ ((s, tt) ∷ [])) (some-injective c x e)
before-pair (suc i) (s ∷ ss) (c ∷ cs) x l e h =
    ap (λ z. c ++ ((s, tt) ∷ z)) (before-pair i ss cs x (omega (arith, l)) e (omega (arith, h)))
    ∙ simp append_assoc

pub set_same {ℓ} :
    {A : Type ℓ} (xs : List A) (i : ℕ) (x : A) → get_elem? xs i ≡ some x → set xs i x ≡ xs
set_same [] i x e = refl
set_same (y ∷ xs) zero x e = ap (λ z. z ∷ xs) (sym (some-injective y x e))
set_same (y ∷ xs) (suc i) x e = ap (λ z. y ∷ z) (set_same xs i x e)

pub set_twice_left :
    {A : Type 0} (xs : List A) (i : ℕ) (a b n : A)
    → set (set (set xs i a) (suc i) b) i n ≡ set (set xs i n) (suc i) b
set_twice_left [] i a b n = refl
set_twice_left (x ∷ xs) zero a b n = refl
set_twice_left (x ∷ xs) (suc i) a b n = ap (λ z. x ∷ z) (set_twice_left xs i a b n)

pub set_twice_right :
    {A : Type 0} (xs : List A) (i : ℕ) (a b n : A)
    → set (set (set xs i a) (suc i) b) (suc i) n ≡ set (set xs i a) (suc i) n
set_twice_right [] i a b n = refl
set_twice_right (x ∷ []) zero a b n = refl
set_twice_right (x ∷ y ∷ xs) zero a b n = refl
set_twice_right (x ∷ xs) (suc i) a b n = ap (λ z. x ∷ z) (set_twice_right xs i a b n)

pub set_again : {A : Type 0} (xs : List A) (i : ℕ) (a b : A) → set (set xs i a) i b ≡ set xs i b
set_again [] i a b = refl
set_again (x ∷ xs) zero a b = refl
set_again (x ∷ xs) (suc i) a b = ap (λ z. x ∷ z) (set_again xs i a b)

-- The same of the nodes themselves.
module _ (h i : ℕ) (slot : List ℕ) (links : List (BtNode h))
    (len : length links ≡ suc (length slot)) (lt : i < length slot) where
  abbrev pub front : Items
  front = before i slot (map (items h) links)

  abbrev pub back : Items
  back = after (suc i) slot (map (items h) links)

  long : length (map (items h) links) ≡ suc (length slot)
  long = length-map (items h) links ∙ len

  pub items-pair :
      (k : ℕ) (a b : BtNode h)
      → items (suc h) (set slot i k, set (set links i a) (suc i) b)
        ≡ front ++ ((items h a ++ ((k, tt) ∷ items h b)) ++ back)
  items-pair k a b =
      ap (λ z. weave (set slot i k) z)
        (map-set (items h) (set links i a) (suc i) b
          ∙ ap (λ z. set z (suc i) (items h b)) (map-set (items h) links i a))
      ∙ weave-pair i k slot (map (items h) links) (items h a) (items h b) long lt

  pub items-merge :
      (m : BtNode h)
      → items (suc h) (array_remove slot i, set (array_remove links (suc i)) i m)
        ≡ front ++ (items h m ++ back)
  unfolding array_remove
  items-merge m =
      ap (λ z. weave (array_remove slot i) z)
        (map-set (items h) (array_remove links (suc i)) i m
          ∙ ap (λ z. set z i (items h m))
              (map-append (items h) (take (suc i) links) (drop (suc (suc i)) links)
                ∙ ap (λ z. z ++ map (items h) (drop (suc (suc i)) links))
                    (map-take (items h) (suc i) links)
                ∙ ap (λ z. take (suc i) (map (items h) links) ++ z)
                    (map-drop (items h) (suc (suc i)) links)))
      ∙ weave-merge i slot (map (items h) links) (items h m) long lt

  module _ (l r : BtNode h) (left : get_elem? links i ≡ some l)
      (right : get_elem? links (suc i) ≡ some r) where
    pub items-whole :
        items (suc h) (slot, links)
        ≡ front ++ ((items h l ++ ((get_or slot i 0, tt) ∷ items h r)) ++ back)
    items-whole =
        ap (λ z. items (suc h) (z, links)) (sym (set_own slot i))
        ∙ ap (λ z. items (suc h) (set slot i (get_or slot i 0), z))
            (sym (
              ap (λ z. set z (suc i) r) (set_same links i l left) ∙ set_same links (suc i) r right))
        ∙ items-pair (get_or slot i 0) l r
      where
        set_own : (ss : List ℕ) (j : ℕ) → set ss j (get_or ss j 0) ≡ ss
        set_own [] j = refl
        set_own (s ∷ ss) zero = refl
        set_own (s ∷ ss) (suc j) = ap (λ z. s ∷ z) (set_own ss j)
