-- ===== src/Vm/Merge/Covers.antt =====
-- The addresses that the areas of a leaf cover, and what a write to one or two of them changes.
use libalgo.Common.{
  ℕ, zero, suc, ◌≤◌, ◌≡◌, refl, sym, ap, ◌∙◌, List, [], ◌∷◌, some, Bool, true, false, ◌||◌,
  get_elem?, set, subst,
}
use mathlib.Core.Option.{some-injective, none-ne-some}
use libalgo.Btree.{array_remove}
use libalgo.Btree.Arrays.{Every}
use libalgo.Vm.{VmapArea}
use libalgo.Vm.Clip.{covers}

abbrev pub some_covers : List VmapArea → ℕ → Bool
some_covers [] x = false
some_covers (va ∷ n) x = covers va x || some_covers n x

abbrev pub IsForward : VmapArea → Type 0
IsForward va = va.va_start ≤ va.va_end

pub forward :
    (n : List VmapArea) (i : ℕ) (a : VmapArea)
    → Every IsForward n
    → get_elem? n i ≡ some a
    → IsForward a
forward [] i a e g = absurd (none-ne-some a g)
forward (c ∷ n) zero a e g = subst (λ z. IsForward z) (some-injective c a g) e.0
forward (c ∷ n) (suc i) a e g = forward n i a e.1 g

-- An area of the leaf that gives way to one with the addresses of `va` too.
pub set-covers :
    (n : List VmapArea) (i : ℕ) (a b va : VmapArea) (x : ℕ)
    → get_elem? n i ≡ some a
    → covers b x ≡ (covers a x || covers va x)
    → some_covers (set n i b) x ≡ (some_covers n x || covers va x)
set-covers [] i a b va x e g = absurd (none-ne-some a e)
set-covers (c ∷ n) zero a b va x e g =
    ap (λ z. z || some_covers n x) g
    ∙ subst
        (λ z.
          ((covers a x || covers va x) || some_covers n x)
          ≡ ((covers z x || some_covers n x) || covers va x))
        (sym (some-injective c a e)) (swap (covers a x) (covers va x) (some_covers n x))
  where
    swap : (p q r : Bool) → ((p || q) || r) ≡ ((p || r) || q)
    swap true q r = refl
    swap false true true = refl
    swap false true false = refl
    swap false false true = refl
    swap false false false = refl
set-covers (c ∷ n) (suc i) a b va x e g =
    ap (λ z. covers c x || z) (set-covers n i a b va x e g) ∙ assoc (covers c x)
  where
    assoc :
        (p : Bool)
        → (p || (some_covers n x || covers va x)) ≡ ((p || some_covers n x) || covers va x)
    assoc true = refl
    assoc false = refl

-- The neighbours `l` and `r` give way to one area with their addresses and those of `va`.
pub joined-covers :
    (n : List VmapArea) (j : ℕ) (l r b va : VmapArea) (x : ℕ)
    → get_elem? n j ≡ some l
    → get_elem? n (suc j) ≡ some r
    → covers b x ≡ ((covers l x || covers r x) || covers va x)
    → some_covers (array_remove (set n j b) (suc j)) x ≡ (some_covers n x || covers va x)
unfolding array_remove
joined-covers [] j l r b va x e g h = absurd (none-ne-some l e)
joined-covers (c ∷ []) zero l r b va x e g h = absurd (none-ne-some r g)
joined-covers (c ∷ d ∷ n) zero l r b va x e g h =
    ap (λ z. z || some_covers n x) h
    ∙ move (covers l x) (covers r x) (covers va x) (some_covers n x)
    ∙ ap (λ z. (covers z x || (covers r x || some_covers n x)) || covers va x)
        (sym (some-injective c l e))
    ∙ ap (λ z. (covers c x || (covers z x || some_covers n x)) || covers va x)
        (sym (some-injective d r g))
  where
    move : (p q s t : Bool) → (((p || q) || s) || t) ≡ ((p || (q || t)) || s)
    move true q s t = refl
    move false true s t = refl
    move false false true true = refl
    move false false true false = refl
    move false false false true = refl
    move false false false false = refl
joined-covers (c ∷ n) (suc j) l r b va x e g h =
    ap (λ z. covers c x || z) (joined-covers n j l r b va x e g h) ∙ assoc (covers c x)
  where
    assoc :
        (p : Bool)
        → (p || (some_covers n x || covers va x)) ≡ ((p || some_covers n x) || covers va x)
    assoc true = refl
    assoc false = refl
