-- ===== src/Hash/Key.antt =====
-- The comparison of keys, and the range of the hash.
use libalgo.Common.{ℕ, ◌<◌, ◌≡◌, refl, ap, [], ◌∷◌, true, arith}
use libalgo.Hash.{Str, str_eq, hash_function}

pub str_eq_refl : (a : Str) → str_eq a a ≡ true
unfolding str_eq
str_eq_refl [] = refl
str_eq_refl (x ∷ xs) = ground (arith, str_eq_refl xs)

pub eq_of_str_eq : (a b : Str) → str_eq a b ≡ true → a ≡ b
unfolding str_eq
eq_of_str_eq [] [] h = refl
eq_of_str_eq [] (y ∷ ys) h = cc
eq_of_str_eq (x ∷ xs) [] h = cc
eq_of_str_eq (x ∷ xs) (y ∷ ys) h = ground (arith, eq_of_str_eq xs ys)

pub str_eq_symm : (a b : Str) → str_eq a b ≡ str_eq b a
unfolding str_eq
str_eq_symm [] [] = refl
str_eq_symm [] (y ∷ ys) = refl
str_eq_symm (x ∷ xs) [] = refl
str_eq_symm (x ∷ xs) (y ∷ ys) = ground (arith, str_eq_symm xs ys)

pub str_eq_congr : (a b c : Str) → str_eq a b ≡ true → str_eq a c ≡ str_eq b c
str_eq_congr a b c h = ap (λ k. str_eq k c) (eq_of_str_eq a b h)

-- The index is in the table.
pub hash_function-lt : (key : Str) (n : ℕ) → 0 < n → hash_function key n < n
unfolding hash_function
hash_function-lt key n h = omega arith
