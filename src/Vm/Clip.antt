-- ===== src/Vm/Clip.antt =====
-- Taking a block out of an area: what the pieces cover.
use libalgo.Common.{
  ℕ, ◌+◌, ◌<◌, ◌≤◌, ◌≡◌, ap, ◌∙◌, Option, none, some, Bool, true, false, ltb, leb, le→not_ltb,
  ==_iff, ◌==◌, ◌||◌, ◌&&◌, Bool-cases, inl, inr, arith,
}
use libalgo.Vm.{
  VmapArea, word, add_ulong, align_up, nva_start, is_within_this_va, classify_va_fit_type, clip,
  Clipped,
}

-- The address lies in the block of `size` addresses from `start` on; in the area; in what is left.
abbrev pub within : ℕ → ℕ → ℕ → Bool
within start size x = leb start x && ltb x (start + size)

abbrev pub covers : VmapArea → ℕ → Bool
covers va x = leb va.va_start x && ltb x va.va_end

abbrev pub covers_option : Option VmapArea → ℕ → Bool
covers_option none x = false
covers_option (some va) x = covers va x

-- What `clip` answers for a block that lies in the area.
abbrev pub Taken : VmapArea → ℕ → ℕ → Option Clipped → Type 0
Taken va nva size none = ⊥
Taken va nva size (some c) =
    (x : ℕ)
    → (covers va x ≡ (within nva size x || (covers_option c.lva x || covers_option c.va x)))
      × ((within nva size x && (covers_option c.lva x || covers_option c.va x)) ≡ false)
      × ((covers_option c.lva x && covers_option c.va x) ≡ false)

-- A block that lies in the area is taken: every address of the area is either in the block or in
-- what is left, and none is in two parts.
pub clip-Taken :
    (va : VmapArea) (nva size : ℕ)
    → va.va_end < word
    → va.va_start ≤ nva
    → nva + size ≤ va.va_end
    → Taken va nva size (clip va nva size)
unfolding clip classify_va_fit_type add_ulong
clip-Taken va nva size e l h =
    let low = le→not_ltb nva va.va_start l in
    let high = le→not_ltb va.va_end (nva + size) h in
    elim (Bool-cases (va.va_start == nva)) [
      | inl p ↦ elim (Bool-cases (va.va_end == nva + size)) [
        | inl q ↦ rw (clip, low, sum, high, p, q) (λ x. (ground arith, ground arith, ground arith))
        | inr q ↦
            rw (clip, low, sum, high, p, q, edge ((==_iff va.va_start nva).0 p))
              (λ x. (ground arith, ground arith, ground arith))
      ]
      | inr p ↦ elim (Bool-cases (va.va_end == nva + size)) [
        | inl q ↦ rw (clip, low, sum, high, p, q) (λ x. (ground arith, ground arith, ground arith))
        | inr q ↦
            rw (clip, low, sum, high, p, q, sum) (λ x. (ground arith, ground arith, ground arith))
      ]
    ]
  where
    sum : add_ulong nva size ≡ nva + size
    sum = omega (arith, e, h)

    edge : va.va_start ≡ nva → add_ulong va.va_start size ≡ nva + size
    edge p = ap (λ a. add_ulong a size) p ∙ sum

-- Where neither the alignment of the area's start nor the sizes wrap, a block that is_within_this_va
-- accepts starts at or after vstart, and clip takes it out of the area at the tried address.
pub is_within_this_va-clip :
    (va : VmapArea) (size align vstart : ℕ)
    → va.va_end < word
    → size < word
    → nva_start va align vstart < word
    → va.va_start ≤ align_up va.va_start align
    → is_within_this_va va size align vstart ≡ true
    → (vstart ≤ nva_start va align vstart)
      × Taken va (nva_start va align vstart) size (clip va (nva_start va align vstart) size)
unfolding is_within_this_va add_ulong nva_start
is_within_this_va-clip va size align vstart e s n up h = (
  ground (arith, h),
  clip-Taken va (nva_start va align vstart) size e low (ground (arith, e, s, n, h)),
)
  where
    low : va.va_start ≤ nva_start va align vstart
    low = elim (Bool-cases (ltb vstart va.va_start)) [
      | inl l ↦ rw (nva_start, l) up
      | inr l ↦ ground (arith, l, h)
    ]
