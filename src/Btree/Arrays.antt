-- ===== src/Btree/Arrays.antt =====
-- The arrays of a node: ARRAY_INSERT, writes and copies as they meet reads, lengths and `map`.
use libalgo.Common.{
  ◌+◌, ◌++◌, ℕ, zero, suc, ◌-◌, ◌<◌, ◌≤◌, ◌≡◌, refl, ap, List, [], ◌∷◌, map, some, length, get_or,
  get_elem?, set, take, drop, arith,
}
use mathlib.Core.Option.{some-injective, none-ne-some}
use libalgo.Btree.{array_insert}

module _ {ℓ} {A : Type ℓ} where
  abbrev pub Every {κ} : (A → Type κ) → List A → Type κ
  Every P [] = Unit
  Every P (x ∷ xs) = P x × Every P xs

  pub length-take : (n : ℕ) (xs : List A) → n ≤ length xs → length (take n xs) ≡ n
  length-take zero xs h = refl
  length-take (suc n) [] h = absurd (omega (arith, h))
  length-take (suc n) (x ∷ xs) h = ap suc (length-take n xs (omega (arith, h)))

  pub length-drop : (n : ℕ) (xs : List A) → length (drop n xs) ≡ length xs - n
  length-drop zero xs = omega arith
  length-drop (suc n) [] = omega arith
  length-drop (suc n) (x ∷ xs) = omega (arith, length-drop n xs)

  pub length-array_insert :
      (xs : List A) (i : ℕ) (x : A) → length (array_insert xs i x) ≡ suc (length xs)
  unfolding array_insert
  length-array_insert xs zero x = refl
  length-array_insert [] (suc i) x = refl
  length-array_insert (y ∷ xs) (suc i) x = ap suc (length-array_insert xs i x)

  pub Every-take {κ} : (P : A → Type κ) (n : ℕ) (xs : List A) → Every P xs → Every P (take n xs)
  Every-take P zero xs h = tt
  Every-take P (suc n) [] h = tt
  Every-take P (suc n) (x ∷ xs) h = (h.0, Every-take P n xs h.1)

  pub Every-drop {κ} : (P : A → Type κ) (n : ℕ) (xs : List A) → Every P xs → Every P (drop n xs)
  Every-drop P zero xs h = h
  Every-drop P (suc n) [] h = tt
  Every-drop P (suc n) (x ∷ xs) h = Every-drop P n xs h.1

  pub Every-set {κ} :
      (P : A → Type κ) (xs : List A) (i : ℕ) (x : A) → Every P xs → P x → Every P (set xs i x)
  Every-set P [] i x h p = tt
  Every-set P (y ∷ xs) zero x h p = (p, h.1)
  Every-set P (y ∷ xs) (suc i) x h p = (h.0, Every-set P xs i x h.1 p)

  pub Every-array_insert {κ} :
      (P : A → Type κ) (xs : List A) (i : ℕ) (x : A)
      → Every P xs
      → P x
      → Every P (array_insert xs i x)
  unfolding array_insert
  Every-array_insert P xs zero x h p = (p, h)
  Every-array_insert P [] (suc i) x h p = (p, tt)
  Every-array_insert P (y ∷ xs) (suc i) x h p = (h.0, Every-array_insert P xs i x h.1 p)

  -- An entry in range is there, and has what all entries have; writing it back changes nothing.
  pub get_elem-Every {κ} :
      (P : A → Type κ) (xs : List A) (i : ℕ)
      → i < length xs
      → Every P xs
      → (x : A) × (get_elem? xs i ≡ some x) × P x × (set xs i x ≡ xs)
  get_elem-Every P [] i l h = absurd (omega (arith, l))
  get_elem-Every P (x ∷ xs) zero l h = (x, refl, h.0, refl)
  get_elem-Every P (x ∷ xs) (suc i) l h =
      let (y, e, p, s) = get_elem-Every P xs i (omega (arith, l)) h.1 in
      (y, e, p, ap (λ zs. x ∷ zs) s)

  pub get_or-array_insert :
      (xs : List A) (i : ℕ) (x d : A) → i ≤ length xs → get_or (array_insert xs i x) i d ≡ x
  unfolding array_insert
  get_or-array_insert xs zero x d l = refl
  get_or-array_insert [] (suc i) x d l = absurd (omega (arith, l))
  get_or-array_insert (y ∷ xs) (suc i) x d l = get_or-array_insert xs i x d (omega (arith, l))

  -- The two entries of a split, read and written.
  abbrev pub pair_at : List A → ℕ → A → A → List A
  pair_at xs i a b = array_insert (set xs i a) (suc i) b

  pub get_elem-left :
      (xs : List A) (i : ℕ) (a b : A) → i < length xs → get_elem? (pair_at xs i a b) i ≡ some a
  unfolding array_insert
  get_elem-left [] i a b l = absurd (omega (arith, l))
  get_elem-left (x ∷ xs) zero a b l = refl
  get_elem-left (x ∷ xs) (suc i) a b l = get_elem-left xs i a b (omega (arith, l))

  pub get_elem-right :
      (xs : List A) (i : ℕ) (a b : A)
      → i < length xs
      → get_elem? (pair_at xs i a b) (suc i) ≡ some b
  unfolding array_insert
  get_elem-right [] i a b l = absurd (omega (arith, l))
  get_elem-right (x ∷ xs) zero a b l = refl
  get_elem-right (x ∷ xs) (suc i) a b l = get_elem-right xs i a b (omega (arith, l))

  pub set-left :
      (xs : List A) (i : ℕ) (a b y : A)
      → i < length xs
      → set (pair_at xs i a b) i y ≡ pair_at xs i y b
  unfolding array_insert
  set-left [] i a b y l = absurd (omega (arith, l))
  set-left (x ∷ xs) zero a b y l = refl
  set-left (x ∷ xs) (suc i) a b y l = ap (λ zs. x ∷ zs) (set-left xs i a b y (omega (arith, l)))

  pub set-right :
      (xs : List A) (i : ℕ) (a b y : A)
      → i < length xs
      → set (pair_at xs i a b) (suc i) y ≡ pair_at xs i a y
  unfolding array_insert
  set-right [] i a b y l = absurd (omega (arith, l))
  set-right (x ∷ xs) zero a b y l = refl
  set-right (x ∷ xs) (suc i) a b y l = ap (λ zs. x ∷ zs) (set-right xs i a b y (omega (arith, l)))

module _ {ℓ κ} {A : Type ℓ} {B : Type κ} (f : A → B) where
  pub length-map : (xs : List A) → length (map f xs) ≡ length xs
  length-map [] = refl
  length-map (x ∷ xs) = ap suc (length-map xs)

  pub map-take : (n : ℕ) (xs : List A) → map f (take n xs) ≡ take n (map f xs)
  map-take zero xs = refl
  map-take (suc n) [] = refl
  map-take (suc n) (x ∷ xs) = ap (λ zs. f x ∷ zs) (map-take n xs)

  pub map-drop : (n : ℕ) (xs : List A) → map f (drop n xs) ≡ drop n (map f xs)
  map-drop zero xs = refl
  map-drop (suc n) [] = refl
  map-drop (suc n) (x ∷ xs) = map-drop n xs

  pub map-set : (xs : List A) (i : ℕ) (y : A) → map f (set xs i y) ≡ set (map f xs) i (f y)
  map-set [] i y = refl
  map-set (x ∷ xs) zero y = refl
  map-set (x ∷ xs) (suc i) y = ap (λ zs. f x ∷ zs) (map-set xs i y)

  pub map-array_insert :
      (xs : List A) (i : ℕ) (y : A) → map f (array_insert xs i y) ≡ array_insert (map f xs) i (f y)
  unfolding array_insert
  map-array_insert xs zero y = refl
  map-array_insert [] (suc i) y = refl
  map-array_insert (x ∷ xs) (suc i) y = ap (λ zs. f x ∷ zs) (map-array_insert xs i y)

-- Reads after writes.
module _ {A : Type 0} where
  pub get_elem-set :
      (xs : List A) (i : ℕ) (a : A) → i < length xs → get_elem? (set xs i a) i ≡ some a
  get_elem-set [] i a l = absurd (omega (arith, l))
  get_elem-set (x ∷ xs) zero a l = refl
  get_elem-set (x ∷ xs) (suc i) a l = get_elem-set xs i a (omega (arith, l))

  pub get_elem-set_next :
      (xs : List A) (i : ℕ) (b : A) → get_elem? (set xs (suc i) b) i ≡ get_elem? xs i
  get_elem-set_next [] i b = refl
  get_elem-set_next (x ∷ xs) zero b = refl
  get_elem-set_next (x ∷ xs) (suc i) b = get_elem-set_next xs i b

  pub get_elem-set_after :
      (xs : List A) (i : ℕ) (a : A) → get_elem? (set xs i a) (suc i) ≡ get_elem? xs (suc i)
  get_elem-set_after [] i a = refl
  get_elem-set_after (x ∷ xs) zero a = refl
  get_elem-set_after (x ∷ xs) (suc i) a = get_elem-set_after xs i a

pub get_elem-map :
    {A B : Type 0} (f : A → B) (xs : List A) (i : ℕ) (x : A)
    → get_elem? xs i ≡ some x
    → get_elem? (map f xs) i ≡ some (f x)
get_elem-map f [] i x e = absurd (none-ne-some x e)
get_elem-map f (y ∷ xs) zero x e = ap (λ z. some (f z)) (some-injective y x e)
get_elem-map f (y ∷ xs) (suc i) x e = get_elem-map f xs i x e

pub length-append : {A : Type 0} (xs ys : List A) → length (xs ++ ys) ≡ length xs + length ys
length-append [] ys = omega arith
length-append (x ∷ xs) ys = omega (arith, length-append xs ys)

pub drop_all : {A : Type 0} (xs : List A) → drop (length xs) xs ≡ []
drop_all [] = refl
drop_all (x ∷ xs) = drop_all xs
