-- ===== src/Vm/Delete/Links.antt =====
-- One link, or two neighbours, of a node, and the areas below after a write or a split.
use libalgo.Common.{
  ℕ, zero, suc, ◌-◌, ◌<◌, ◌≡◌, refl, sym, ap, ◌∙◌, List, [], ◌∷◌, ◌++◌, append_assoc, map, some,
  length, get_elem?, get_or, set, arith,
}
use mathlib.Core.Option.{some-injective, none-ne-some}
use libalgo.Btree.{array_remove, array_insert}
use libalgo.Btree.Arrays.{Every, pair_at}
use libalgo.Vm.Node.Avail.{flat}

module _ {ℓ} {A : Type ℓ} where
  pub length-array_remove :
      (xs : List A) (i : ℕ) → i < length xs → length (array_remove xs i) ≡ length xs - 1
  unfolding array_remove
  length-array_remove [] i l = absurd (omega (arith, l))
  length-array_remove (x ∷ xs) zero l = omega arith
  length-array_remove (x ∷ xs) (suc i) l =
      omega (arith, length-array_remove xs i (omega (arith, l)), l)

  pub Every-array_remove {κ} :
      (P : A → Type κ) (xs : List A) (i : ℕ) → Every P xs → Every P (array_remove xs i)
  unfolding array_remove
  Every-array_remove P [] zero e = tt
  Every-array_remove P [] (suc i) e = tt
  Every-array_remove P (x ∷ xs) zero e = e.1
  Every-array_remove P (x ∷ xs) (suc i) e = (e.0, Every-array_remove P xs i e.1)

pub map-array_remove {ℓ κ} :
    {A : Type ℓ} {B : Type κ} (f : A → B) (xs : List A) (i : ℕ)
    → map f (array_remove xs i) ≡ array_remove (map f xs) i
unfolding array_remove
map-array_remove f [] zero = refl
map-array_remove f [] (suc i) = refl
map-array_remove f (x ∷ xs) zero = refl
map-array_remove f (x ∷ xs) (suc i) = ap (λ z. f x ∷ z) (map-array_remove f xs i)

pub get_or-map :
    {A : Type 0} (f : A → ℕ) (xs : List A) (i : ℕ) (x : A) (d : ℕ)
    → get_elem? xs i ≡ some x
    → get_or (map f xs) i d ≡ f x
get_or-map f [] i x d e = absurd (none-ne-some x e)
get_or-map f (y ∷ xs) zero x d e = ap f (some-injective y x e)
get_or-map f (y ∷ xs) (suc i) x d e = get_or-map f xs i x d e

module _ {A C : Type 0} (f : C → List A) where
  abbrev below : List C → List A
  below cs = flat (map f cs)

  pub record One (cs : List C) (i : ℕ) (c : C) : Type 0 where
    pub front : List A
    pub back : List A
    pub whole : flat (map f cs) ≡ front ++ (f c ++ back)
    pub after_write : (x : C) → flat (map f (set cs i x)) ≡ front ++ (f x ++ back)
    pub after_split : (a b : C) → flat (map f (pair_at cs i a b)) ≡ front ++ ((f a ++ f b) ++ back)

  pub one : (cs : List C) (i : ℕ) (c : C) → get_elem? cs i ≡ some c → One cs i c
  unfolding array_insert
  one [] i c e = absurd (none-ne-some c e)
  one (d ∷ cs) zero c e = record {
    front = [];
    back = below cs;
    whole = ap (λ z. f z ++ below cs) (some-injective d c e);
    after_write = λ x. refl;
    after_split = λ a b. sym (append_assoc (f a) (f b) (below cs));
  }
  one (d ∷ cs) (suc i) c e =
      let o = one cs i c e in
      record {
        front = f d ++ o.front;
        back = o.back;
        whole = ap (λ z. f d ++ z) o.whole ∙ sym (append_assoc (f d) o.front (f c ++ o.back));
        after_write = λ x.
            ap (λ z. f d ++ z) (o.after_write x) ∙ sym (append_assoc (f d) o.front (f x ++ o.back));
        after_split = λ a b.
            ap (λ z. f d ++ z) (o.after_split a b)
            ∙ sym (append_assoc (f d) o.front ((f a ++ f b) ++ o.back));
      }

  pub record Two (cs : List C) (i : ℕ) (l r : C) : Type 0 where
    pub front : List A
    pub back : List A
    pub whole : flat (map f cs) ≡ front ++ ((f l ++ f r) ++ back)
    pub after_shift :
        (a b : C) → flat (map f (set (set cs i a) (suc i) b)) ≡ front ++ ((f a ++ f b) ++ back)
    pub after_merge :
        (m : C) → flat (map f (set (array_remove cs (suc i)) i m)) ≡ front ++ (f m ++ back)

  pub two :
      (cs : List C) (i : ℕ) (l r : C)
      → get_elem? cs i ≡ some l
      → get_elem? cs (suc i) ≡ some r
      → Two cs i l r
  unfolding array_remove
  two [] i l r e g = absurd (none-ne-some l e)
  two (d ∷ []) zero l r e g = absurd (none-ne-some r g)
  two (d ∷ c ∷ cs) zero l r e g = record {
    front = [];
    back = below cs;
    whole =
        ap (λ z. f z ++ (f c ++ below cs)) (some-injective d l e)
        ∙ ap (λ z. f l ++ (f z ++ below cs)) (some-injective c r g)
        ∙ sym (append_assoc (f l) (f r) (below cs));
    after_shift = λ a b. sym (append_assoc (f a) (f b) (below cs));
    after_merge = λ m. refl;
  }
  two (d ∷ cs) (suc i) l r e g =
      let o = two cs i l r e g in
      record {
        front = f d ++ o.front;
        back = o.back;
        whole =
            ap (λ z. f d ++ z) o.whole ∙ sym (append_assoc (f d) o.front ((f l ++ f r) ++ o.back));
        after_shift = λ a b.
            ap (λ z. f d ++ z) (o.after_shift a b)
            ∙ sym (append_assoc (f d) o.front ((f a ++ f b) ++ o.back));
        after_merge = λ m.
            ap (λ z. f d ++ z) (o.after_merge m) ∙ sym (append_assoc (f d) o.front (f m ++ o.back));
      }
