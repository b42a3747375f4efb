-- ===== src/Ewma/Bounds.antt =====
-- Bounds of the averages.
use libalgo.Common.{
  ℕ, zero, suc, ◌^◌, ◌<◌, ◌≤◌, ◌≡◌, ◌∙◌, List, [], ◌∷◌, length, set, length-set, arith,
}
use libalgo.Ewma.{hist_size, sum_loop, averages, round}

abbrev pub Between : ℕ → ℕ → List ℕ → Type 0
Between low high [] = Unit
Between low high (x ∷ xs) = (low ≤ x) × (x ≤ high) × Between low high xs

abbrev pub Inside : ℕ → ℕ → ℕ × ℕ → Type 0
Inside low high (ewma, avg) = (low ≤ ewma) × (ewma ≤ high) × (low ≤ avg) × (avg ≤ high)

Between-set :
    (low high : ℕ) (xs : List ℕ) (i v : ℕ)
    → Between low high xs
    → low ≤ v
    → v ≤ high
    → Between low high (set xs i v)
Between-set low high [] i v h l g = tt
Between-set low high (x ∷ xs) zero v h l g = (l, g, h.2)
Between-set low high (x ∷ xs) (suc i) v h l g = (h.0, h.1, Between-set low high xs i v h.2 l g)

averages-Inside :
    (low high index : ℕ) (hist : List ℕ)
    → high < 2 ^ 27
    → index < hist_size
    → length hist ≡ hist_size
    → Between low high hist
    → Inside low high (averages hist index)
unfolding averages sum_loop
averages-Inside low high index [] l i n h = absurd (omega (arith, n))
averages-Inside low high index (a ∷ []) l i n h = absurd (omega (arith, n))
averages-Inside low high index (a ∷ b ∷ []) l i n h = absurd (omega (arith, n))
averages-Inside low high index (a ∷ b ∷ c ∷ []) l i n h = absurd (omega (arith, n))
averages-Inside low high index (a ∷ b ∷ c ∷ d ∷ []) l i n h = absurd (omega (arith, n))
averages-Inside low high index (a ∷ b ∷ c ∷ d ∷ e ∷ f ∷ hist) l i n h = absurd (omega (arith, n))
averages-Inside low high zero (a ∷ b ∷ c ∷ d ∷ e ∷ []) l i n h = omega arith
averages-Inside low high (suc zero) (a ∷ b ∷ c ∷ d ∷ e ∷ []) l i n h = omega arith
averages-Inside low high (suc (suc zero)) (a ∷ b ∷ c ∷ d ∷ e ∷ []) l i n h = omega arith
averages-Inside low high (suc (suc (suc zero))) (a ∷ b ∷ c ∷ d ∷ e ∷ []) l i n h = omega arith
averages-Inside low high (suc (suc (suc (suc zero)))) (a ∷ b ∷ c ∷ d ∷ e ∷ []) l i n h = omega arith
averages-Inside low high (suc (suc (suc (suc (suc k))))) (a ∷ b ∷ c ∷ d ∷ e ∷ []) l i n h =
    absurd (omega (arith, i))

-- What a round leaves and prints.
abbrev pub Kept : ℕ → ℕ → List ℕ × ℕ × (ℕ × ℕ) → Type 0
Kept low high (hist, index, out) =
    (length hist ≡ hist_size) × (index < hist_size) × Between low high hist × Inside low high out

-- With five samples and an index below five, samples and the new one between bounds under 2 ^ 27, a
-- round leaves the same and prints two averages between the bounds.
pub round-Kept :
    (low high val index : ℕ) (hist : List ℕ)
    → high < 2 ^ 27
    → index < hist_size
    → length hist ≡ hist_size
    → Between low high hist
    → low ≤ val
    → val ≤ high
    → Kept low high (round val hist index)
unfolding round
round-Kept low high val index hist l i n h a b =
    let len = length-set hist index val ∙ n in
    let new = Between-set low high hist index val h a b in
    (len, omega arith, new, averages-Inside low high index (set hist index val) l i len new)
