-- ===== src/Bplus/Delete/Cut.antt =====
-- Leaves put together and cut.
use libalgo.Common.{ℕ, zero, suc, ◌<◌, ◌≤◌, [], ◌∷◌, ◌++◌, length, get_or, take, drop, arith}
use libalgo.Tree.Sorted.{Above, IsSorted, Above-append}
use libalgo.Bplus.Chain.{Items, Range, Range-wider, Range-Above}
use libalgo.Bplus.Leaf.{keys}

Above-Range : (v lo hi : ℕ) (xs : Items) → Above v xs → Range lo hi xs → Range (suc v) hi xs
Above-Range v lo hi [] a r = tt
Above-Range v lo hi (e ∷ xs) a r = (omega (arith, a.0), r.1, Above-Range v lo hi xs a.1 r.2)

pub IsSorted-append :
    (lo m hi : ℕ) (xs ys : Items)
    → IsSorted xs
    → IsSorted ys
    → Range lo m xs
    → Range m hi ys
    → IsSorted (xs ++ ys)
IsSorted-append lo m hi [] ys s t a b = t
IsSorted-append lo m hi (e ∷ xs) ys s t a b = (
  Above-append e.0 xs ys s.0 (Range-Above m hi e.0 ys (a.1) b),
  IsSorted-append lo m hi xs ys s.1 t a.2 b,
)

-- A leaf cut before its record number `n`, whose key is `k`.
abbrev pub Cut : ℕ → ℕ → ℕ → ℕ → Items → Type 0
Cut lo hi n k xs =
    (lo ≤ k)
    × (0 < n → lo < k)
    × (k < hi)
    × IsSorted (take n xs)
    × Range lo k (take n xs)
    × IsSorted (drop n xs)
    × Range k hi (drop n xs)

pub leaf-Cut :
    (n lo hi : ℕ) (xs : Items)
    → IsSorted xs
    → Range lo hi xs
    → n < length xs
    → Cut lo hi n (get_or (keys xs) n 0) xs
leaf-Cut n lo hi [] s r l = absurd (omega (arith, l))
leaf-Cut zero lo hi (e ∷ xs) s r l = (
  r.0,
  λ z. absurd (omega (arith, z)),
  r.1,
  tt,
  tt,
  s,
  (
    omega arith,
    r.1,
    Range-wider (suc e.0) hi e.0 hi xs (omega arith) (omega arith)
        (Above-Range e.0 lo hi xs s.0 r.2),
  ),
)
leaf-Cut (suc n) lo hi (e ∷ xs) s r l =
    let u = leaf-Cut n (suc e.0) hi xs s.1 (Above-Range e.0 lo hi xs s.0 r.2) (omega (arith, l)) in
    let k = get_or (keys xs) n 0 in
    (
      omega (arith, r.0, u.0),
      λ z. omega (arith, r.0, u.0),
      u.2,
      (Range-Above (suc e.0) k e.0 (take n xs) (omega arith) u.4, u.3),
      (
        r.0,
        omega (arith, u.0),
        Range-wider (suc e.0) k lo k (take n xs) (omega (arith, r.0)) (omega arith) u.4,
      ),
      u.5,
      u.6,
    )
