-- ===== src/Tree/Spec.antt =====
-- Laws of the sorted lists that specify the trees.
use libalgo.Common.{
  ℕ, ◌<◌, ◌≡◌, refl, List, [], ◌∷◌, ◌++◌, none, some, arith, ◌==◌, if◌then◌else◌, order, lt, eq, gt,
  sym, ◌∙◌,
}
use libalgo.Tree.Sorted.{Above, IsSorted, find, insert, erase, Above-lt, Above-parts, find-Above}

module _ {ℓ} {V : Type ℓ} where
  pub IsSorted-parts : (xs ys : List (ℕ × V)) → IsSorted (xs ++ ys) → IsSorted xs × IsSorted ys
  IsSorted-parts [] ys s = (tt, s)
  IsSorted-parts (x ∷ xs) ys s =
      let (a, b) = IsSorted-parts xs ys s.1 in (((Above-parts x.0 xs ys s.0).0, a), b)

  Above-insert :
      (j k : ℕ) (v : V) (xs : List (ℕ × V)) → j < k → Above j xs → Above j (insert k v xs)
  unfolding insert
  Above-insert j k v [] h a = (h, tt)
  Above-insert j k v (e ∷ xs) h a = ground (arith, Above-insert j k v xs h a.1)

  Above-erase : (j k : ℕ) (xs : List (ℕ × V)) → Above j xs → Above j (erase k xs)
  unfolding erase
  Above-erase j k [] a = tt
  Above-erase j k (e ∷ xs) a = ground (arith, Above-erase j k xs a.1)

  pub insert-IsSorted : (k : ℕ) (v : V) (xs : List (ℕ × V)) → IsSorted xs → IsSorted (insert k v xs)
  unfolding insert
  insert-IsSorted k v [] s = (tt, tt)
  insert-IsSorted k v (e ∷ xs) s =
      ground (arith, insert-IsSorted k v xs s.1, Above-insert e.0 k v xs, Above-lt k e.0 xs)

  pub erase-IsSorted : (k : ℕ) (xs : List (ℕ × V)) → IsSorted xs → IsSorted (erase k xs)
  unfolding erase
  erase-IsSorted k [] s = tt
  erase-IsSorted k (e ∷ xs) s = ground (arith, erase-IsSorted k xs s.1, Above-erase e.0 k xs s.0)

  pub find-insert :
      (j k : ℕ) (v : V) (xs : List (ℕ × V))
      → find k xs ≡ none
      → find j (insert k v xs) ≡ (if j == k then some v else find j xs)
  unfolding insert find
  find-insert j k v [] h = refl
  find-insert j k v (e ∷ xs) h = ground (arith, find-insert j k v xs)

  pub find-erase :
      (j k : ℕ) (xs : List (ℕ × V))
      → IsSorted xs
      → find j (erase k xs) ≡ (if j == k then none else find j xs)
  unfolding erase find
  find-erase j k [] s = ground arith
  find-erase j k (e ∷ xs) s = ground (arith, find-erase j k xs s.1, find-Above j xs)

  -- Inserting a key that is there changes nothing.
  pub insert_present :
      (k : ℕ) (v w : V) (xs : List (ℕ × V)) → IsSorted xs → find k xs ≡ some w → insert k v xs ≡ xs
  unfolding insert find
  insert_present k v w [] s h = cc
  insert_present k v w (e ∷ xs) s h = elim (order k e.0) [
    | lt p ↦
        let missing = find-Above k (e ∷ xs) (p, Above-lt k e.0 xs p s.0) in cc (sym h ∙ missing)
    | eq p ↦ ground arith
    | gt p ↦ ground (arith, insert_present k v w xs s.1)
  ]

  pub erase_absent : (k : ℕ) (xs : List (ℕ × V)) → find k xs ≡ none → erase k xs ≡ xs
  unfolding erase find
  erase_absent k [] h = refl
  erase_absent k (e ∷ xs) h = ground (arith, erase_absent k xs)
