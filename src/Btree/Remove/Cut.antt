-- ===== src/Btree/Remove/Cut.antt =====
-- The items of nodes put together and cut.
use libalgo.Common.{
  ℕ, zero, suc, ◌-◌, ◌<◌, ◌≡◌, refl, sym, ap, ◌∙◌, List, [], ◌∷◌, ◌++◌, append_assoc, map, length,
  get_or, take, drop, arith,
}
use mathlib.Core.List.{map-append}
use libalgo.Btree.{BtNode}
use libalgo.Btree.Arrays.{drop_all, Every, length-map, map-take, map-drop}
use libalgo.Btree.Weave.{Items, tag, weave, weave-cut}
use libalgo.Btree.Items.{items, tag-cut}

pub Every-append :
    {A : Type 0} (P : A → Type 0) (xs ys : List A) → Every P xs → Every P ys → Every P (xs ++ ys)
Every-append P [] ys a b = b
Every-append P (x ∷ xs) ys a b = (a.0, Every-append P xs ys a.1 b)

pub tag-append : (xs ys : List ℕ) → tag (xs ++ ys) ≡ tag xs ++ tag ys
tag-append [] ys = refl
tag-append (x ∷ xs) ys = ap (λ z. (x, tt) ∷ z) (tag-append xs ys)

weave-append :
    (ss ts : List ℕ) (k : ℕ) (cs ds : List Items)
    → length cs ≡ suc (length ss)
    → weave (ss ++ (k ∷ ts)) (cs ++ ds) ≡ weave ss cs ++ ((k, tt) ∷ weave ts ds)
weave-append ss ts k [] ds l = absurd (omega (arith, l))
weave-append [] ts k (c ∷ []) ds l = refl
weave-append [] ts k (c ∷ d ∷ cs) ds l = absurd (omega (arith, l))
weave-append (s ∷ ss) ts k (c ∷ cs) ds l =
    ap (λ z. c ++ ((s, tt) ∷ z)) (weave-append ss ts k cs ds (omega (arith, l))) ∙ simp append_assoc

pub node-append :
    (h k : ℕ) (ss ts : List ℕ) (cs ds : List (BtNode h))
    → length cs ≡ suc (length ss)
    → items (suc h) (ss ++ (k ∷ ts), cs ++ ds)
      ≡ items (suc h) (ss, cs) ++ ((k, tt) ∷ items (suc h) (ts, ds))
node-append h k ss ts cs ds l =
    ap (λ z. weave (ss ++ (k ∷ ts)) z) (map-append (items h) cs ds)
    ∙ weave-append ss ts k (map (items h) cs) (map (items h) ds) (length-map (items h) cs ∙ l)

-- A node cut at the slot `n`.
pub node-cut :
    (h n : ℕ) (ss : List ℕ) (cs : List (BtNode h))
    → length cs ≡ suc (length ss)
    → n < length ss
    → items (suc h) (ss, cs)
      ≡ items (suc h) (take n ss, take (suc n) cs)
        ++ ((get_or ss n 0, tt) ∷ items (suc h) (drop (suc n) ss, drop (suc n) cs))
node-cut h n ss cs l lt =
    weave-cut n ss (map (items h) cs) (length-map (items h) cs ∙ l) lt
    ∙ ap
        (λ z.
          weave (take n ss) z
          ++ ((get_or ss n 0, tt) ∷ weave (drop (suc n) ss) (drop (suc n) (map (items h) cs))))
        (sym (map-take (items h) (suc n) cs))
    ∙ ap
        (λ z.
          items (suc h) (take n ss, take (suc n) cs)
          ++ ((get_or ss n 0, tt) ∷ weave (drop (suc n) ss) z))
        (sym (map-drop (items h) (suc n) cs))

pub get_or-middle :
    (n : ℕ) (xs : List ℕ) (y : ℕ) (ys : List ℕ) → length xs ≡ n → get_or (xs ++ (y ∷ ys)) n 0 ≡ y
get_or-middle zero [] y ys e = refl
get_or-middle (suc n) [] y ys e = absurd (omega (arith, e))
get_or-middle zero (x ∷ xs) y ys e = absurd (omega (arith, e))
get_or-middle (suc n) (x ∷ xs) y ys e = get_or-middle n xs y ys (omega (arith, e))

-- A leaf and a node cut at their last slots.
pub tag_last :
    (l : List ℕ)
    → 0 < length l
    → tag l ≡ tag (take (length l - 1) l) ++ ((get_or l (length l - 1) 0, tt) ∷ [])
tag_last l b =
    tag-cut (length l - 1) l (omega (arith, b)) ∙ end (suc (length l - 1)) (omega (arith, b))
  where
    end :
        (n : ℕ)
        → n ≡ length l
        → tag (take (length l - 1) l) ++ ((get_or l (length l - 1) 0, tt) ∷ tag (drop n l))
          ≡ tag (take (length l - 1) l) ++ ((get_or l (length l - 1) 0, tt) ∷ [])
    end n e =
        ap (λ z. tag (take (length l - 1) l) ++ ((get_or l (length l - 1) 0, tt) ∷ tag z))
          (ap (λ m. drop m l) e ∙ drop_all l)

pub node_last :
    (h : ℕ) (l : List ℕ) (ls : List (BtNode h))
    → length ls ≡ suc (length l)
    → 0 < length l
    → items (suc h) (l, ls)
      ≡ items (suc h) (take (length l - 1) l, take (length l) ls)
        ++ ((get_or l (length l - 1) 0, tt) ∷ items (suc h) ([], drop (length l) ls))
node_last h l ls len b =
    node-cut h (length l - 1) l ls len (omega (arith, b))
    ∙ end (suc (length l - 1)) (omega (arith, b))
  where
    k : ℕ
    k = get_or l (length l - 1) 0

    end :
        (n : ℕ)
        → n ≡ length l
        → items (suc h) (take (length l - 1) l, take n ls)
            ++ ((k, tt) ∷ items (suc h) (drop n l, drop n ls))
          ≡ items (suc h) (take (length l - 1) l, take (length l) ls)
            ++ ((k, tt) ∷ items (suc h) ([], drop (length l) ls))
    end n e =
        ap
          (λ m.
            items (suc h) (take (length l - 1) l, take m ls)
            ++ ((k, tt) ∷ items (suc h) (drop m l, drop m ls)))
          e
        ∙ ap
            (λ z.
              items (suc h) (take (length l - 1) l, take (length l) ls)
              ++ ((k, tt) ∷ items (suc h) (z, drop (length l) ls)))
            (drop_all l)
