-- ===== src/Tree/Sorted.antt =====
-- The specification of an ordered tree: a list of keys with their data, in strictly rising order.
use libalgo.Common.{
  ℕ, ◌<◌, ◌≡◌, refl, List, [], ◌∷◌, ◌++◌, Option, none, some, arith, ltb, ◌==◌, if◌then◌else◌,
}

module _ {ℓ} {V : Type ℓ} where
  -- Every key is below `k`; every key is above `k`.
  abbrev pub Below : ℕ → List (ℕ × V) → Type 0
  Below k [] = Unit
  Below k (e ∷ xs) = (e.0 < k) × Below k xs

  abbrev pub Above : ℕ → List (ℕ × V) → Type 0
  Above k [] = Unit
  Above k (e ∷ xs) = (k < e.0) × Above k xs

  abbrev pub IsSorted : List (ℕ × V) → Type 0
  IsSorted [] = Unit
  IsSorted (e ∷ xs) = Above e.0 xs × IsSorted xs

  unfoldable pub find : ℕ → List (ℕ × V) → Option V
  find k [] = none
  find k (e ∷ xs) = if k == e.0 then some e.1 else find k xs

  -- Inserts before the first greater key, and changes nothing if the key is there.
  unfoldable pub insert : ℕ → V → List (ℕ × V) → List (ℕ × V)
  insert k v [] = (k, v) ∷ []
  insert k v (e ∷ xs) =
      if ltb k e.0 then (k, v) ∷ e ∷ xs else if k == e.0 then e ∷ xs else e ∷ insert k v xs

  unfoldable pub erase : ℕ → List (ℕ × V) → List (ℕ × V)
  erase k [] = []
  erase k (e ∷ xs) = if k == e.0 then xs else e ∷ erase k xs

  pub Below-append : (k : ℕ) (xs ys : List (ℕ × V)) → Below k xs → Below k ys → Below k (xs ++ ys)
  Below-append k [] ys a b = b
  Below-append k (e ∷ xs) ys a b = (a.0, Below-append k xs ys a.1 b)

  pub Above-append : (k : ℕ) (xs ys : List (ℕ × V)) → Above k xs → Above k ys → Above k (xs ++ ys)
  Above-append k [] ys a b = b
  Above-append k (e ∷ xs) ys a b = (a.0, Above-append k xs ys a.1 b)

  pub Above-parts : (k : ℕ) (xs ys : List (ℕ × V)) → Above k (xs ++ ys) → Above k xs × Above k ys
  Above-parts k [] ys a = (tt, a)
  Above-parts k (e ∷ xs) ys a = let (p, q) = Above-parts k xs ys a.1 in ((a.0, p), q)

  pub Below-parts : (k : ℕ) (xs ys : List (ℕ × V)) → Below k (xs ++ ys) → Below k xs × Below k ys
  Below-parts k [] ys a = (tt, a)
  Below-parts k (e ∷ xs) ys a = let (p, q) = Below-parts k xs ys a.1 in ((a.0, p), q)

  pub Above-lt : (j k : ℕ) (xs : List (ℕ × V)) → j < k → Above k xs → Above j xs
  Above-lt j k [] h a = tt
  Above-lt j k (e ∷ xs) h a = (omega arith, Above-lt j k xs h a.1)

  pub Below-lt : (j k : ℕ) (xs : List (ℕ × V)) → j < k → Below j xs → Below k xs
  Below-lt j k [] h a = tt
  Below-lt j k (e ∷ xs) h a = (omega arith, Below-lt j k xs h a.1)

  -- What a sorted list is, seen from one of its entries.
  pub record Split (xs : List (ℕ × V)) (e : ℕ × V) (ys : List (ℕ × V)) : Type 0 where
    pub below : Below e.0 xs
    pub above : Above e.0 ys
    pub left : IsSorted xs
    pub right : IsSorted ys

  pub split :
      (xs : List (ℕ × V)) (e : ℕ × V) (ys : List (ℕ × V)) → IsSorted (xs ++ e ∷ ys) → Split xs e ys
  split [] e ys s = record { below = tt; above = s.0; left = tt; right = s.1 }
  split (x ∷ xs) e ys s =
      let t = split xs e ys s.1 in
      let h = Above-parts x.0 xs (e ∷ ys) s.0 in
      record { below = (h.1.0, t.below); above = t.above; left = (h.0, t.left); right = t.right }

  pub join :
      (xs : List (ℕ × V)) (e : ℕ × V) (ys : List (ℕ × V)) → Split xs e ys → IsSorted (xs ++ e ∷ ys)
  join [] e ys t = (t.above, t.right)
  join (x ∷ xs) e ys t =
      let rest : Split xs e ys = record {
        below = t.below.1;
        above = t.above;
        left = t.left.1;
        right = t.right;
      } in
      (
        Above-append x.0 xs (e ∷ ys) t.left.0 (t.below.0, Above-lt x.0 e.0 ys t.below.0 t.above),
        join xs e ys rest,
      )

  pub find-Above : (k : ℕ) (xs : List (ℕ × V)) → Above k xs → find k xs ≡ none
  unfolding find
  find-Above k [] a = refl
  find-Above k (e ∷ xs) a = ground (arith, find-Above k xs)

  pub erase-Above : (k : ℕ) (xs : List (ℕ × V)) → Above k xs → erase k xs ≡ xs
  unfolding erase
  erase-Above k [] a = refl
  erase-Above k (e ∷ xs) a = ground (arith, erase-Above k xs)

  -- Each operation on `xs ++ e ∷ ys`, by how the key compares with that of `e`.
  module _ (k : ℕ) (e : ℕ × V) (ys : List (ℕ × V)) where
    pub find_left : (xs : List (ℕ × V)) → k < e.0 → Above e.0 ys → find k (xs ++ e ∷ ys) ≡ find k xs
    unfolding find
    find_left [] h a = ground (arith, find-Above k ys (Above-lt k e.0 ys h a))
    find_left (x ∷ xs) h a = ground (arith, find_left xs h a)

    pub find_right :
        (xs : List (ℕ × V)) → e.0 < k → Below e.0 xs → find k (xs ++ e ∷ ys) ≡ find k ys
    unfolding find
    find_right [] h b = ground arith
    find_right (x ∷ xs) h b = ground (arith, find_right xs h b.1)

    pub find_here : (xs : List (ℕ × V)) → k ≡ e.0 → Below e.0 xs → find k (xs ++ e ∷ ys) ≡ some e.1
    unfolding find
    find_here [] h b = ground arith
    find_here (x ∷ xs) h b = ground (arith, find_here xs h b.1)

    pub insert_left :
        (v : V) (xs : List (ℕ × V)) → k < e.0 → insert k v (xs ++ e ∷ ys) ≡ insert k v xs ++ e ∷ ys
    unfolding insert
    insert_left v [] h = ground arith
    insert_left v (x ∷ xs) h = ground (arith, insert_left v xs h)

    pub insert_right :
        (v : V) (xs : List (ℕ × V))
        → e.0 < k
        → Below e.0 xs
        → insert k v (xs ++ e ∷ ys) ≡ xs ++ e ∷ insert k v ys
    unfolding insert
    insert_right v [] h b = ground arith
    insert_right v (x ∷ xs) h b = ground (arith, insert_right v xs h b.1)

    pub insert_here :
        (v : V) (xs : List (ℕ × V))
        → k ≡ e.0
        → Below e.0 xs
        → insert k v (xs ++ e ∷ ys) ≡ xs ++ e ∷ ys
    unfolding insert
    insert_here v [] h b = ground arith
    insert_here v (x ∷ xs) h b = ground (arith, insert_here v xs h b.1)

    pub erase_left :
        (xs : List (ℕ × V)) → k < e.0 → Above e.0 ys → erase k (xs ++ e ∷ ys) ≡ erase k xs ++ e ∷ ys
    unfolding erase
    erase_left [] h a = ground (arith, erase-Above k ys (Above-lt k e.0 ys h a))
    erase_left (x ∷ xs) h a = ground (arith, erase_left xs h a)

    pub erase_right :
        (xs : List (ℕ × V)) → e.0 < k → Below e.0 xs → erase k (xs ++ e ∷ ys) ≡ xs ++ e ∷ erase k ys
    unfolding erase
    erase_right [] h b = ground arith
    erase_right (x ∷ xs) h b = ground (arith, erase_right xs h b.1)

    pub erase_here :
        (xs : List (ℕ × V)) → k ≡ e.0 → Below e.0 xs → erase k (xs ++ e ∷ ys) ≡ xs ++ ys
    unfolding erase
    erase_here [] h b = ground arith
    erase_here (x ∷ xs) h b = ground (arith, erase_here xs h b.1)

  -- Each operation inside a gap that the key falls into.
  module _ (k : ℕ) where
    pub find_gap :
        (bs xs cs : List (ℕ × V)) → Below k bs → Above k cs → find k (bs ++ (xs ++ cs)) ≡ find k xs
    unfolding find
    find_gap [] [] cs b c = find-Above k cs c
    find_gap [] (x ∷ xs) cs b c = ground (arith, find_gap [] xs cs b c)
    find_gap (x ∷ bs) xs cs b c = ground (arith, find_gap bs xs cs b.1 c)

    pub insert_gap :
        (v : V) (bs xs cs : List (ℕ × V))
        → Below k bs
        → Above k cs
        → insert k v (bs ++ (xs ++ cs)) ≡ bs ++ (insert k v xs ++ cs)
    unfolding insert
    insert_gap v [] [] [] b c = refl
    insert_gap v [] [] (y ∷ cs) b c = ground arith
    insert_gap v [] (x ∷ xs) cs b c = ground (arith, insert_gap v [] xs cs b c)
    insert_gap v (x ∷ bs) xs cs b c = ground (arith, insert_gap v bs xs cs b.1 c)

    pub erase_gap :
        (bs xs cs : List (ℕ × V))
        → Below k bs
        → Above k cs
        → erase k (bs ++ (xs ++ cs)) ≡ bs ++ (erase k xs ++ cs)
    unfolding erase
    erase_gap [] [] cs b c = erase-Above k cs c
    erase_gap [] (x ∷ xs) cs b c = ground (arith, erase_gap [] xs cs b c)
    erase_gap (x ∷ bs) xs cs b c = ground (arith, erase_gap bs xs cs b.1 c)
