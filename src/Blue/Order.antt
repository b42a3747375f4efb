-- ===== src/Blue/Order.antt =====
-- The order of keys that longcmp decides, and the comparisons of falling keys with a key.
use libalgo.Common.{
  ℕ, zero, suc, ◌<◌, ◌≡◌, ◌⊎◌, refl, sym, ap, List, [], ◌∷◌, Bool, true, false, inl, inr, length,
  get_or, arith,
}
use libalgo.Blue.{Comparison, below, same, above, Key, longcmp, keycmp}

abbrev pub is_above : Comparison → Bool
is_above below = false
is_above same = false
is_above above = true

abbrev pub is_same : Comparison → Bool
is_same below = false
is_same same = true
is_same above = false

abbrev pub is_below : Comparison → Bool
is_below below = true
is_below same = false
is_below above = false

-- A key above another that is not below a third is above the third.
pub longcmp-longcmp :
    (n : ℕ) (a b c : Key)
    → length a ≡ n
    → length b ≡ n
    → length c ≡ n
    → longcmp n b a ≡ below
    → is_below (longcmp n b c) ≡ false
    → longcmp n a c ≡ above
unfolding longcmp
longcmp-longcmp zero a b c la lb lc e f = absurd (ground (arith, ap is_below e))
longcmp-longcmp (suc n) [] b c la lb lc e f = absurd (omega (arith, la))
longcmp-longcmp (suc n) (x ∷ a) [] c la lb lc e f = absurd (omega (arith, lb))
longcmp-longcmp (suc n) (x ∷ a) (y ∷ b) [] la lb lc e f = absurd (omega (arith, lc))
longcmp-longcmp (suc n) (x ∷ a) (y ∷ b) (z ∷ c) la lb lc e f = ground (
  arith,
  e,
  f,
  longcmp-longcmp n a b c (omega (arith, la)) (omega (arith, lb)) (omega (arith, lc)),
)

-- Every key has `n` words, and each is below the one before it.
abbrev pub Falls : ℕ → List Key → Type 0
Falls n [] = Unit
Falls n (k ∷ []) = length k ≡ n
Falls n (k ∷ j ∷ ks) = (length k ≡ n) × (longcmp n j k ≡ below) × Falls n (j ∷ ks)

-- The comparisons with a key: above, then at most once the same, then below.
abbrev pub IsSteep : ℕ → (ℕ → Comparison) → Type 0
IsSteep nr cmp = (i j : ℕ) → i < j → j < nr → is_below (cmp j) ≡ false → is_above (cmp i) ≡ true

pub Comparison-cases : (c : Comparison) → (c ≡ below) ⊎ (c ≡ same) ⊎ (c ≡ above)
Comparison-cases below = inl refl
Comparison-cases same = inr (inl refl)
Comparison-cases above = inr (inr refl)

above-not_below : (c : Comparison) → is_above c ≡ true → is_below c ≡ false
above-not_below below e = sym e
above-not_below same e = refl
above-not_below above e = refl

Falls-length : (n : ℕ) (k : Key) (ks : List Key) → Falls n (k ∷ ks) → length k ≡ n
Falls-length n k [] f = f
Falls-length n k (j ∷ ks) f = f.0

Falls-first :
    (n j : ℕ) (key k : Key) (ks : List Key)
    → length key ≡ n
    → Falls n (k ∷ ks)
    → j < length ks
    → is_below (longcmp n (get_or ks j []) key) ≡ false
    → is_above (longcmp n k key) ≡ true
Falls-first n j key k [] l f b e = absurd (omega (arith, b))
Falls-first n zero key k (x ∷ ks) l f b e =
    ap is_above (longcmp-longcmp n k x key f.0 (Falls-length n x ks f.2) l f.1 e)
Falls-first n (suc j) key k (x ∷ ks) l f b e = ap is_above (
    longcmp-longcmp n k x key f.0 (Falls-length n x ks f.2) l f.1
      (above-not_below (longcmp n x key) (Falls-first n j key x ks l f.2 (omega (arith, b)) e)))

pub keycmp-IsSteep :
    (n : ℕ) (keys : List Key) (key : Key)
    → length key ≡ n
    → Falls n keys
    → IsSteep (length keys) (keycmp n keys key)
unfolding keycmp
keycmp-IsSteep n [] key l f i j a b e = absurd (omega (arith, b))
keycmp-IsSteep n (k ∷ ks) key l f i zero a b e = absurd (omega (arith, a))
keycmp-IsSteep n (k ∷ ks) key l f zero (suc j) a b e =
    Falls-first n j key k ks l f (omega (arith, b)) e
keycmp-IsSteep n (k ∷ []) key l f (suc i) (suc j) a b e = absurd (omega (arith, b))
keycmp-IsSteep n (k ∷ x ∷ ks) key l f (suc i) (suc j) a b e =
    keycmp-IsSteep n (x ∷ ks) key l f.2 i j (omega (arith, a)) (omega (arith, b)) e
