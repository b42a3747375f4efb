-- ===== src/Vm/Merge/Touch.antt =====
-- The neighbours that a freed area touches, and what get_va_merge_state says of them.
use libalgo.Common.{
  ◌≤◌, ℕ, zero, suc, ◌-◌, ◌≡◌, refl, sym, ap, ◌∙◌, List, [], ◌∷◌, Option, none, some, true, false,
  length, get_elem?, arith,
}
use libalgo.Vm.{VmapArea}
use libalgo.Vm.Merge.{
  ends_at, starts_at, MergeState, can_merge_to_left, can_merge_to_left_leaf, can_merge_to_right,
  can_merge_to_right_leaf, get_va_merge_state,
}

-- The neighbours of the position `i`; `before` and `behind` belong to other leaves.
abbrev pub left_neighbour : Option VmapArea → List VmapArea → ℕ → Option VmapArea
left_neighbour before n zero = before
left_neighbour before n (suc i) = get_elem? n i

abbrev pub right_neighbour : Option VmapArea → List VmapArea → ℕ → Option VmapArea
right_neighbour behind n i = elim (get_elem? n i) [ none ↦ behind | some a ↦ some a ]

abbrev pub EndsAt : Option VmapArea → ℕ → Type 0
EndsAt none x = ⊥
EndsAt (some a) x = a.va_end ≡ x

abbrev pub StartsAt : Option VmapArea → ℕ → Type 0
StartsAt none x = ⊥
StartsAt (some a) x = a.va_start ≡ x

-- What the bits say.
ends-area :
    (o : Option VmapArea) (x : ℕ)
    → ends_at o x ≡ true
    → (a : VmapArea) × (o ≡ some a) × (a.va_end ≡ x)
unfolding ends_at
ends-area none x e = absurd (ground (arith, e))
ends-area (some a) x e = (a, refl, ground (arith, e))

pub starts-area :
    (o : Option VmapArea) (x : ℕ)
    → starts_at o x ≡ true
    → (a : VmapArea) × (o ≡ some a) × (a.va_start ≡ x)
unfolding starts_at
starts-area none x e = absurd (ground (arith, e))
starts-area (some a) x e = (a, refl, ground (arith, e))

pub left-area :
    (n : List VmapArea) (va : VmapArea) (i : ℕ)
    → can_merge_to_left n va i ≡ true
    → (a : VmapArea) × (get_elem? n (i - 1) ≡ some a) × (a.va_end ≡ va.va_start) × (i ≡ suc (i - 1))
unfolding can_merge_to_left
left-area n va zero e = absurd (ground (arith, e))
left-area n va (suc i) e =
    let (a, g, s) = ends-area (get_elem? n i) va.va_start e in
    (a, ap (λ z. get_elem? n z) (pred i) ∙ g, s, ap suc (sym (pred i)))
  where
    pred : (i : ℕ) → suc i - 1 ≡ i
    pred i = omega arith

ends-EndsAt : (o : Option VmapArea) (x : ℕ) → ends_at o x ≡ true → EndsAt o x
unfolding ends_at
ends-EndsAt none x e = absurd (ground (arith, e))
ends-EndsAt (some a) x e = ground (arith, e)

starts-StartsAt : (o : Option VmapArea) (x : ℕ) → starts_at o x ≡ true → StartsAt o x
unfolding starts_at
starts-StartsAt none x e = absurd (ground (arith, e))
starts-StartsAt (some a) x e = ground (arith, e)

pub not-EndsAt : (o : Option VmapArea) (x : ℕ) → ends_at o x ≡ false → ¬ EndsAt o x
unfolding ends_at
not-EndsAt none x e p = p
not-EndsAt (some a) x e p = ground (arith, e, p)

pub not-StartsAt : (o : Option VmapArea) (x : ℕ) → starts_at o x ≡ false → ¬ StartsAt o x
unfolding starts_at
not-StartsAt none x e p = p
not-StartsAt (some a) x e p = ground (arith, e, p)

-- What the bits for the other leaves say.
abbrev pub TouchesRight : Option VmapArea → VmapArea → MergeState → Type 0
TouchesRight behind va ms = ms.merge_with_right_leaf ≡ true → StartsAt behind va.va_end

abbrev pub TouchesLeft : Option VmapArea → VmapArea → MergeState → Type 0
TouchesLeft before va ms = ms.merge_with_left_leaf ≡ true → EndsAt before va.va_start

pub get_va_merge_state-TouchesRight :
    (before behind : Option VmapArea) (n : List VmapArea) (va : VmapArea) (i : ℕ)
    → TouchesRight behind va (get_va_merge_state before behind n va i)
unfolding get_va_merge_state can_merge_to_right_leaf
get_va_merge_state-TouchesRight before behind n va i e =
    starts-StartsAt behind va.va_end (ground (arith, e))

pub get_va_merge_state-TouchesLeft :
    (before behind : Option VmapArea) (n : List VmapArea) (va : VmapArea) (i : ℕ)
    → TouchesLeft before va (get_va_merge_state before behind n va i)
unfolding get_va_merge_state can_merge_to_left_leaf
get_va_merge_state-TouchesLeft before behind n va zero e =
    ends-EndsAt before va.va_start (ground (arith, e))
get_va_merge_state-TouchesLeft before behind n va (suc i) e = absurd (ground (arith, e))

pub no_left-EndsAt :
    (before behind : Option VmapArea) (n : List VmapArea) (va : VmapArea) (i : ℕ)
    → can_merge_to_left n va i ≡ false
    → (get_va_merge_state before behind n va i).merge_with_left_leaf ≡ false
    → ¬ EndsAt (left_neighbour before n i) va.va_start
unfolding get_va_merge_state can_merge_to_left can_merge_to_left_leaf
no_left-EndsAt before behind n va zero e f = not-EndsAt before va.va_start (ground (arith, f))
no_left-EndsAt before behind n va (suc i) e f = not-EndsAt (get_elem? n i) va.va_start e

past : (n : List VmapArea) (i : ℕ) → i ≤ length n → get_elem? n i ≡ none → i ≡ length n
past [] i l e = omega (arith, l)
past (a ∷ n) zero l e = cc
past (a ∷ n) (suc i) l e = ap suc (past n i (omega (arith, l)) e)

pub no_right-StartsAt :
    (before behind : Option VmapArea) (n : List VmapArea) (va : VmapArea) (i : ℕ)
    → i ≤ length n
    → can_merge_to_left n va i ≡ false
    → can_merge_to_right n va i ≡ false
    → (get_va_merge_state before behind n va i).merge_with_right_leaf ≡ false
    → ¬ StartsAt (right_neighbour behind n i) va.va_end
unfolding get_va_merge_state can_merge_to_right can_merge_to_right_leaf
no_right-StartsAt before behind n va i l e f g = go (get_elem? n i) refl
  where
    go :
        (o : Option VmapArea)
        → get_elem? n i ≡ o
        → ¬ StartsAt (elim o [ none ↦ behind | some a ↦ some a ]) va.va_end
    go none h = not-StartsAt behind va.va_end (ground (arith, g, e, past n i l h))
    go (some a) h = not-StartsAt (some a) va.va_end (ap (λ o. starts_at o va.va_end) (sym h) ∙ f)
