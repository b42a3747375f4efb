-- ===== src/Vm/Lookup/Lowest.antt =====
-- lookup_smallest_va against the lowest area that a block fits into.
use libalgo.Common.{
  ℕ, subst, zero, suc, ◌<◌, ◌≤◌, ◌≡◌, refl, List, [], ◌∷◌, map, Option, none, some, true, false,
  Bool-cases, inl, inr, get_elem?, arith,
}
use mathlib.Core.Option
use mathlib.Core.Option.{some-injective, none-ne-some}
use libalgo.Btree.Index.{Greater, IsRising}
use libalgo.Vm.{VmapArea, word, is_within_this_va}
use libalgo.Vm.Node.{Bpn}
use libalgo.Vm.Node.Avail.{areas}
use libalgo.Vm.Lookup.{page_size, leaf_get_va_cond, lookup_smallest_va}
use libalgo.Vm.Lookup.Fit.{IsAligned}
use libalgo.Vm.Lookup.Way.{IsFree}
use libalgo.Vm.Lookup.Next.{first_fit}
use libalgo.Vm.Lookup.Rounds.{area_of, lookup_smallest_va-first_fit}

abbrev pub starts : List VmapArea → List ℕ
starts xs = map (λ a. a.va_start) xs

module _ (size align v : ℕ) where
  -- The area is one of `xs`, the block fits into it, and into no area that starts below it; or the
  -- block fits into none.
  abbrev pub Lowest : List VmapArea → Option VmapArea → Type 0
  Lowest xs none =
      (j : ℕ) (a : VmapArea) → get_elem? xs j ≡ some a → is_within_this_va a size align v ≡ false
  Lowest xs (some va) =
      (is_within_this_va va size align v ≡ true)
      × ((i : ℕ) × (get_elem? xs i ≡ some va))
      × ((j : ℕ) (a : VmapArea)
          → get_elem? xs j ≡ some a
          → is_within_this_va a size align v ≡ true
          → va.va_start ≤ a.va_start)

  later-Greater :
      (s j : ℕ) (xs : List VmapArea) (a : VmapArea)
      → Greater s (starts xs)
      → get_elem? xs j ≡ some a
      → s < a.va_start
  later-Greater s j [] a g e = absurd (none-ne-some a e)
  later-Greater s zero (x ∷ xs) a g e = subst (λ z. s < z.va_start) (some-injective x a e) g.0
  later-Greater s (suc j) (x ∷ xs) a g e = later-Greater s j xs a g.1 e

  past :
      (x : VmapArea) (xs : List VmapArea) (o : Option VmapArea)
      → is_within_this_va x size align v ≡ false
      → Lowest xs o
      → Lowest (x ∷ xs) o
  past x xs none e l = go
    where
      go :
          (j : ℕ) (a : VmapArea)
          → get_elem? (x ∷ xs) j ≡ some a
          → is_within_this_va a size align v ≡ false
      go zero a g = subst (λ z. is_within_this_va z size align v ≡ false) (some-injective x a g) e
      go (suc j) a g = l j a g
  past x xs (some va) e (f, (i, at), l) = (f, (suc i, at), go)
    where
      go :
          (j : ℕ) (a : VmapArea)
          → get_elem? (x ∷ xs) j ≡ some a
          → is_within_this_va a size align v ≡ true
          → va.va_start ≤ a.va_start
      go zero a g h =
          let e' = subst (λ z. is_within_this_va z size align v ≡ false) (some-injective x a g) e in
          cc
      go (suc j) a g h = l j a g h

  -- In the order of the starts the first area that fits is the lowest.
  first_fit-Lowest :
      (xs : List VmapArea) → IsRising (starts xs) → Lowest xs (first_fit align size v xs)
  unfolding leaf_get_va_cond
  first_fit-Lowest [] r = λ j a e. absurd (none-ne-some a e)
  first_fit-Lowest (x ∷ xs) r = elim (Bool-cases (is_within_this_va x size align v)) [
    | inr e ↦
        rw (leaf_get_va_cond, e) (past x xs (first_fit align size v xs) e (first_fit-Lowest xs r.1))
    | inl e ↦ rw (leaf_get_va_cond, e) (e, (0, refl), least)
  ]
    where
      least :
          (j : ℕ) (a : VmapArea)
          → get_elem? (x ∷ xs) j ≡ some a
          → is_within_this_va a size align v ≡ true
          → x.va_start ≤ a.va_start
      least zero a g h = subst (λ z. x.va_start ≤ z.va_start) (some-injective x a g) (omega arith)
      least (suc j) a g h = omega (arith, later-Greater x.va_start j xs a r.0 g)

-- Of a tree whose areas have rising starts and lie between the keys, and whose nodes keep the
-- greatest free sizes of their children, and an alignment of at most a page that all areas and
-- vstart have, lookup_smallest_va follows no null pointer and returns the lowest area that a block
-- of a positive size fits into, NULL when it fits into none; two rounds are enough.
pub lookup_smallest_va-Lowest :
    (h hi : ℕ) (n : Bpn h) (size align vstart : ℕ)
    → IsFree align 0 hi h n
    → IsRising (starts (areas h n))
    → hi < word
    → 0 < size
    → size < word
    → align ≤ page_size
    → IsAligned align vstart
    → (o : Option VmapArea) × (Option.map area_of (lookup_smallest_va h n size align vstart)
        ≡ some o)
      × Lowest size align vstart (areas h n) o
lookup_smallest_va-Lowest h hi n size align v p r top pos small l aligned = (
  first_fit align size v (areas h n),
  lookup_smallest_va-first_fit h hi n size align v p top pos small l aligned,
  first_fit-Lowest size align v (areas h n) r,
)
