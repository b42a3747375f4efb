-- ===== src/Bplus/Leaf.antt =====
-- A leaf as a sorted list of records: the position of a key, insertion and removal there.
use libalgo.Common.{
  ℕ, suc, ◌<◌, ◌≡◌, refl, sym, ap, ◌∙◌, List, [], ◌∷◌, map, Bool, true, false, none, some, ltb,
  ◌==◌, ◌&&◌, Bool-cases, inl, inr, length, get_or, get_elem?, arith,
}
use libalgo.Tree.Sorted.{
  Above, IsSorted, find, insert, erase, find-Above, erase-Above, Above-lt, insert_left,
  insert_right, insert_here,
}
use libalgo.Btree.{array_remove, array_insert}
use libalgo.Btree.Index.{rank, Greater, IsRising}
use libalgo.Vm.Search.{PosCc, pos_cc_eq, pos_cc_lt, pos_cc_gt, Placed}
use libalgo.Bplus.{}
use libalgo.Bplus.Chain.{Items}

abbrev pub keys : Items → List ℕ
keys n = map (λ r. r.0) n

pub length-keys : (n : Items) → length (keys n) ≡ length n
length-keys [] = refl
length-keys (r ∷ n) = ap suc (length-keys n)

pub keys-IsRising : (n : Items) → IsSorted n → IsRising (keys n)
keys-IsRising [] s = tt
keys-IsRising (r ∷ n) s = (greater n s.0, keys-IsRising n s.1)
  where
    greater : (xs : Items) → Above r.0 xs → Greater r.0 (keys xs)
    greater [] a = tt
    greater (x ∷ xs) a = (a.0, greater xs a.1)

-- The key stands at its rank.
abbrev pub at_rank : ℕ → Items → Bool
at_rank v n = ltb (rank v (keys n)) (length n) && get_or (keys n) (rank v (keys n)) 0 == v

-- Of a key that stands in the leaf.
abbrev pub Present : ℕ → Items → Type 0
Present v n =
    (x : ℕ) × (find v n ≡ some x)
    × (get_elem? n (rank v (keys n)) ≡ some (v, x))
    × (array_remove n (rank v (keys n)) ≡ erase v n)
    × ((a : ℕ) → insert v a n ≡ n)

pub leaf-Present : (v : ℕ) (n : Items) → IsSorted n → at_rank v n ≡ true → Present v n
unfolding rank find insert erase array_remove
leaf-Present v [] s e = absurd (ground (arith, e))
leaf-Present v ((k, x) ∷ n) s e = elim (Bool-cases (ltb k v)) [
  | inl h ↦
      let (y, f, g, r, i) = leaf-Present v n s.1 (ground (arith, e, h)) in
      (
        y,
        ground (arith, h, f),
        rw h g,
        rw h (ap (λ z. (k, x) ∷ z) r ∙ ground (arith, h)),
        λ a. insert_right v (k, x) n a [] (ground (arith, h)) tt ∙ ap (λ z. (k, x) ∷ z) (i a),
      )
  | inr h ↦
      let same : v ≡ k = ground (arith, e, h) in
      (
        x,
        ground (arith, same),
        rw h (ap (λ j. some (j, x)) (sym same)),
        rw h (ground (arith, same)),
        λ a. insert_here v (k, x) n a [] same tt,
      )
]

-- Of a key that does not stand in the leaf.
abbrev pub Absent : ℕ → Items → Type 0
Absent v n =
    (find v n ≡ none)
    × (erase v n ≡ n)
    × ((a : ℕ) → array_insert n (rank v (keys n)) (v, a) ≡ insert v a n)

pub leaf-Absent : (v : ℕ) (n : Items) → IsSorted n → at_rank v n ≡ false → Absent v n
unfolding rank find insert erase array_insert
leaf-Absent v [] s e = (refl, refl, λ a. refl)
leaf-Absent v ((k, x) ∷ n) s e = elim (Bool-cases (ltb k v)) [
  | inl h ↦
      let (f, r, i) = leaf-Absent v n s.1 (ground (arith, e, h)) in
      (
        ground (arith, h, f),
        ground (arith, h, r),
        λ a. rw h (
            ap (λ z. (k, x) ∷ z) (i a) ∙ sym (insert_right v (k, x) n a [] (ground (arith, h)) tt)),
      )
  | inr h ↦
      let l : v < k = ground (arith, e, h) in
      (
        find-Above v ((k, x) ∷ n) (l, Above-lt v k n l s.0),
        erase-Above v ((k, x) ∷ n) (l, Above-lt v k n l s.0),
        λ a. rw h (sym (insert_left v (k, x) n a [] l)),
      )
]

-- The condition code tells whether the key stands at its rank.
abbrev pub is_eq : PosCc → Bool
is_eq pos_cc_eq = true
is_eq pos_cc_lt = false
is_eq pos_cc_gt = false

pub Placed-at_rank :
    (v : ℕ) (n : Items) (found : ℕ × PosCc)
    → Placed (keys n) v found
    → at_rank v n ≡ is_eq (found.1)
Placed-at_rank v n (r, pos_cc_eq) (e, l, g) = ground (arith, length-keys n, sym e, l, g)
Placed-at_rank v n (r, pos_cc_lt) (e, l, g) = ground (arith, length-keys n, e, l, g)
Placed-at_rank v n (r, pos_cc_gt) (e, l) = ground (arith, length-keys n, e, l)
