-- ===== src/Vm/Lookup/Fit.antt =====
-- The fit test on areas whose starts have the alignment.
use libalgo.Common.{
  ℕ, ◌+◌, ◌-◌, ◌<◌, ◌≤◌, ◌≡◌, refl, ap, ◌∙◌, false, ltb, leb, if◌then◌else◌, Bool-cases, inl, inr,
  le→not_ltb, lt→ltb, order, lt, eq, gt, arith,
}
use libalgo.Vm.{
  VmapArea, word, add_ulong, sub_ulong, va_size, align_up, nva_start, is_within_this_va,
}

-- The address is a multiple of the alignment.
abbrev pub IsAligned : ℕ → ℕ → Type 0
IsAligned align x = align_up x align ≡ x

-- An area between `lo` and `hi` that starts at an aligned address.
abbrev pub Lies : ℕ → ℕ → ℕ → VmapArea → Type 0
Lies align lo hi va =
    (lo ≤ va.va_start) × (va.va_start ≤ va.va_end) × (va.va_end ≤ hi) × IsAligned align va.va_start

module _ (align size lo hi : ℕ) (va : VmapArea) (p : Lies align lo hi va) (top : hi < word)
    (pos : 0 < size) (small : size < word) where
  size_eq : va_size va ≡ va.va_end - va.va_start
  unfolding va_size sub_ulong
  size_eq = omega (arith, p.1, p.2, top)

  -- The test with the address that is tried.
  tried :
      (v a : ℕ)
      → nva_start va align v ≡ a
      → v ≤ a
      → va.va_start ≤ a
      → is_within_this_va va size align v ≡ leb (a + size) va.va_end
  unfolding is_within_this_va add_ulong
  tried v a e l m = rw (is_within_this_va, e) (ground (arith, l, m, p.2, top, pos, small))

  unroll :
      (v : ℕ)
      → nva_start va align v
        ≡ (if ltb v va.va_start then align_up va.va_start align else align_up v align)
  unfolding nva_start
  unroll v = refl

  nva_max :
      (v : ℕ)
      → IsAligned align v
      → nva_start va align v ≡ (if ltb v va.va_start then va.va_start else v)
  unfolding nva_start
  nva_max v e = rw (nva_start, p.3, e) refl

  -- No block fits into an area that is too small, or that ends before the address.
  pub fit-small :
      (v : ℕ) → IsAligned align v → va_size va < size → is_within_this_va va size align v ≡ false
  fit-small v e l = elim (Bool-cases (ltb v va.va_start)) [
    | inl h ↦
        tried v va.va_start (nva_max v e ∙ rw h refl) (ground (arith, h)) (omega arith)
        ∙ ground (arith, l, size_eq, p.1)
    | inr h ↦
        tried v v (nva_max v e ∙ rw h refl) (omega arith) (ground (arith, h))
        ∙ ground (arith, h, l, size_eq, p.1)
  ]

  pub fit-before :
      (v : ℕ) → IsAligned align v → va.va_end ≤ v → is_within_this_va va size align v ≡ false
  fit-before v e l =
      tried v v (nva_max v e ∙ rw (le→not_ltb v va.va_start (omega (arith, l, p.1))) refl)
        (omega arith) (omega (arith, l, p.1))
      ∙ ground (arith, l, pos)

  -- In an area that starts at or after the address, the size decides.
  pub fit-after :
      (v : ℕ) → v ≤ va.va_start → is_within_this_va va size align v ≡ leb size (va_size va)
  fit-after v l = tried v va.va_start start l (omega arith) ∙ ground (arith, size_eq, p.1)
    where
      start : nva_start va align v ≡ va.va_start
      start = elim (order v va.va_start) [
        | lt h ↦ unroll v ∙ rw (lt→ltb v va.va_start h) (p.3)
        | eq h ↦
            unroll v
            ∙ rw (le→not_ltb v va.va_start (omega (arith, h))) (ap (λ x. align_up x align) h ∙ p.3)
        | gt h ↦ absurd (omega (arith, h, l))
      ]
