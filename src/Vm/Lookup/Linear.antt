-- ===== src/Vm/Lookup/Linear.antt =====
-- lin_lookup_smallest_va over the list of the leaves, and its agreement with lookup_smallest_va.
use libalgo.Common.{
  ℕ, zero, suc, ◌<◌, ◌≤◌, ◌≡◌, refl, sym, ap, ◌∙◌, List, [], ◌∷◌, ◌++◌, append-nil, map, some, ltb,
  Bool-cases, Option-cases, inl, inr, arith, subst,
}
use mathlib.Core.Option
use libalgo.Btree.Arrays.{Every}
use libalgo.Vm.{VmapArea, word, va_size}
use libalgo.Vm.Node.{Bpn}
use libalgo.Vm.Node.Avail.{areas, flat, flat-append}
use libalgo.Vm.Lookup.{
  page_size, wanted_length, leaf_get_va_cond, lin_leaf, lin_lookup_smallest_va, leaves,
  lookup_smallest_va,
}
use libalgo.Vm.Lookup.Fit.{IsAligned, Lies, fit-small}
use libalgo.Vm.Lookup.Way.{IsFree, areas-Lies, get-append_some, get-append_none}
use libalgo.Vm.Lookup.Next.{first_fit}
use libalgo.Vm.Lookup.Rounds.{area_of, wanted-size, lookup_smallest_va-first_fit}

module _ (align size lo hi : ℕ) (top : hi < word) (pos : 0 < size) (small : size < word)
    (fine : wanted_length size align ≡ size) (v : ℕ) (aligned : IsAligned align v) where
  lin_leaf-get :
      (xs : List VmapArea)
      → Every (Lies align lo hi) xs
      → lin_leaf xs size align v ≡ leaf_get_va_cond xs size align v
  unfolding lin_leaf leaf_get_va_cond
  lin_leaf-get [] e = refl
  lin_leaf-get (va ∷ xs) e = elim (Bool-cases (ltb (va_size va) size)) [
    | inl s ↦
        rw
          (
            lin_leaf,
            fine,
            s,
            leaf_get_va_cond,
            fit-small align size lo hi va e.0 top pos small v aligned (ground (arith, s)),
          )
          (lin_leaf-get xs e.1)
    | inr s ↦ rw (lin_leaf, fine, s, leaf_get_va_cond, lin_leaf-get xs e.1) refl
  ]

  lin-first_fit :
      (ls : List (List VmapArea))
      → Every (Every (Lies align lo hi)) ls
      → area_of (lin_lookup_smallest_va ls size align v) ≡ first_fit align size v (flat ls)
  unfolding lin_lookup_smallest_va leaf_get_va_cond
  lin-first_fit [] e = refl
  lin-first_fit (n ∷ ls) e = elim (Option-cases (leaf_get_va_cond n size align v)) [
    | inr (va, g) ↦
        rw (lin_lookup_smallest_va, lin_leaf-get n e.0, g)
          (sym (get-append_some size align v n (flat ls) va g))
    | inl g ↦
        rw (lin_lookup_smallest_va, lin_leaf-get n e.0, g)
          (lin-first_fit ls e.1 ∙ sym (get-append_none size align v n (flat ls) g))
  ]

-- The leaves in order have the areas in order.
module _ (h : ℕ) (down : (c : Bpn h) → flat (leaves h c) ≡ areas h c) where
  links-leaves : (cs : List (Bpn h)) → flat (flat (map (leaves h) cs)) ≡ flat (map (areas h) cs)
  links-leaves [] = refl
  links-leaves (c ∷ cs) =
      flat-append (leaves h c) (flat (map (leaves h) cs))
      ∙ ap (λ z. z ++ flat (flat (map (leaves h) cs))) (down c)
      ∙ ap (λ z. areas h c ++ z) (links-leaves cs)

pub flat-leaves : (h : ℕ) (n : Bpn h) → flat (leaves h n) ≡ areas h n
unfolding leaves
flat-leaves zero n = append-nil n
flat-leaves (suc h) n = links-leaves h (λ c. flat-leaves h c) n.subl

module _ {ℓ κ} {A : Type ℓ} (P : A → Type κ) where
  pub Every-front : (xs ys : List A) → Every P (xs ++ ys) → Every P xs × Every P ys
  Every-front [] ys e = (tt, e)
  Every-front (x ∷ xs) ys e = let (a, b) = Every-front xs ys e.1 in ((e.0, a), b)

  Every-flat : (xs : List (List A)) → Every P (flat xs) → Every (Every P) xs
  Every-flat [] e = tt
  Every-flat (x ∷ xs) e = let (a, b) = Every-front x (flat xs) e in (a, Every-flat xs b)

-- Of a tree whose areas lie between the keys and whose nodes keep the greatest free sizes of their
-- children, a positive size, and an alignment of at most a page that all areas and vstart have,
-- lookup_smallest_va returns the area that lin_lookup_smallest_va finds in the list of the leaves,
-- and NULL where that returns NULL.
pub lookup_smallest_va-lin_lookup_smallest_va :
    (h hi : ℕ) (n : Bpn h) (size align vstart : ℕ)
    → IsFree align 0 hi h n
    → hi < word
    → 0 < size
    → size < word
    → align ≤ page_size
    → IsAligned align vstart
    → Option.map area_of (lookup_smallest_va h n size align vstart)
      ≡ some (area_of (lin_lookup_smallest_va (leaves h n) size align vstart))
lookup_smallest_va-lin_lookup_smallest_va h hi n size align v p top pos small l aligned =
    lookup_smallest_va-first_fit h hi n size align v p top pos small l aligned
    ∙ ap some (
        ap (first_fit align size v) (sym (flat-leaves h n))
        ∙ sym (
            lin-first_fit align size 0 hi top pos small (wanted-size size align l) v aligned
              (leaves h n)
              (Every-flat (Lies align 0 hi) (leaves h n) (
                subst (λ z. Every (Lies align 0 hi) z) (sym (flat-leaves h n))
                  (areas-Lies align h 0 hi n p)))))
