-- ===== src/Vm/Lookup/Rounds.antt =====
-- lookup_smallest_va against the order of the areas.
use libalgo.Common.{
  ℕ, suc, ◌<◌, ◌≤◌, ◌≡◌, refl, sym, ap, ◌∙◌, List, Option, none, some, le→not_ltb, Option-cases,
  inl, inr,
}
use mathlib.Core.Option
use libalgo.Vm.{VmapArea, word}
use libalgo.Vm.Node.{Bpn}
use libalgo.Vm.Node.Avail.{areas}
use libalgo.Vm.Lookup.{
  Level, page_size, wanted_length, leaf_get_va_cond, first_next_sub_avail, bpt_lookup_lowest_leaf,
  lookup_rounds, lookup_smallest_va,
}
use libalgo.Vm.Lookup.Fit.{IsAligned}
use libalgo.Vm.Lookup.Way.{IsFree}
use libalgo.Vm.Lookup.Next.{first_fit}
use libalgo.Vm.Lookup.Arrive.{Finds}
use libalgo.Vm.Lookup.Rows.{Descends}
use libalgo.Vm.Lookup.Descent.{node-Descends}

-- The area that is returned, without its leaf.
abbrev pub area_of : Option (VmapArea × List VmapArea) → Option VmapArea
area_of r = Option.map (λ p. p.0) r

pub wanted-size : (size align : ℕ) → align ≤ page_size → wanted_length size align ≡ size
unfolding wanted_length
wanted-size size align l = rw (wanted_length, le→not_ltb page_size align l) refl

module _ (h : ℕ) (n : Bpn h) (size align : ℕ) (fine : wanted_length size align ≡ size) where
  -- A round that finds an area.
  round-found :
      (rounds v : ℕ) (va : VmapArea)
      → Finds size align h n v va
      → Option.map area_of (lookup_rounds (suc rounds) h n size align v) ≡ some (some va)
  unfolding lookup_rounds
  round-found rounds v va (way, leaf, found, got) = rw (lookup_rounds, fine, found, got) refl

  module _ (v : ℕ) (way : List Level) (leaf : List VmapArea)
      (found : bpt_lookup_lowest_leaf h n size v ≡ some (way, leaf))
      (got : leaf_get_va_cond leaf size align v ≡ none) where
    round-none :
        (rounds : ℕ)
        → first_next_sub_avail way size ≡ none
        → Option.map area_of (lookup_rounds (suc rounds) h n size align v) ≡ some none
    unfolding lookup_rounds
    round-none rounds e = rw (lookup_rounds, fine, found, got, fine, e) refl

    round-next :
        (rounds w : ℕ)
        → first_next_sub_avail way size ≡ some w
        → lookup_rounds (suc rounds) h n size align v ≡ lookup_rounds rounds h n size align w
    unfolding lookup_rounds
    round-next rounds w e = rw (lookup_rounds, fine, found, got, fine, e) refl

-- The lookup against the list of all areas: the first that fits.
pub lookup_smallest_va-first_fit :
    (h hi : ℕ) (n : Bpn h) (size align vstart : ℕ)
    → IsFree align 0 hi h n
    → hi < word
    → 0 < size
    → size < word
    → align ≤ page_size
    → IsAligned align vstart
    → Option.map area_of (lookup_smallest_va h n size align vstart)
      ≡ some (first_fit align size vstart (areas h n))
unfolding lookup_smallest_va
lookup_smallest_va-first_fit h hi n size align v p top pos small l aligned =
    go (node-Descends align size v pos small aligned h 0 hi n p top)
  where
    fine : wanted_length size align ≡ size
    fine = wanted-size size align l

    go :
        Descends align size v h hi n
        → Option.map area_of (lookup_rounds 2 h n size align v)
          ≡ some (first_fit align size v (areas h n))
    go (way, leaf, found, (a, b, d)) = elim (Option-cases (leaf_get_va_cond leaf size align v)) [
      | inr (va, g) ↦
          round-found h n size align fine 1 v va (way, leaf, found, g) ∙ ap some (sym (a va g))
      | inl g ↦ elim (Option-cases (first_next_sub_avail way size)) [
        | inl e ↦ round-none h n size align fine v way leaf found g 1 e ∙ ap some (sym (b g e))
        | inr (w, e) ↦
            let (m, k, (va, f, r)) = d g w e in
            ap (Option.map area_of) (round-next h n size align fine v way leaf found g 1 w e)
            ∙ round-found h n size align fine 0 w va f
            ∙ ap some (sym r)
      ]
    ]
