-- ===== src/Ewma.antt =====
-- ewma.c: one round of the program, which keeps the last samples in a ring and prints their average
-- and their average with weights that double from each sample to the next newer one.
pub mod Bounds
use libalgo.Common.{
  ℕ, zero, suc, ◌+◌, ◌-◌, ◌*◌, ◌/◌, ◌%◌, ◌^◌, ◌<◌, ◌≤◌, ◌≡◌, refl, List, [], ◌∷◌, length, set,
  arith,
}

abbrev pub hist_size : ℕ
hist_size = 5

-- The loop over the samples, from `weight`, `avg` and `ewma` on.
unfoldable pub sum_loop : List ℕ → ℕ → ℕ → ℕ → ℕ × ℕ
sum_loop [] weight avg ewma = (ewma, avg)
sum_loop (x ∷ hist) weight avg ewma =
    sum_loop hist ((weight + 1) % hist_size) ((avg + x) % 2 ^ 32)
      ((ewma + x * 2 ^ weight % 2 ^ 32) % 2 ^ 32)

-- The two averages that are printed for the samples, the newest of them at `index`.
unfoldable pub averages : List ℕ → ℕ → ℕ × ℕ
unfolding sum_loop
averages hist index =
    let (ewma, avg) = sum_loop hist (hist_size - index - 1) 0 0 in
    (ewma / (2 ^ hist_size - 1), avg / hist_size)

-- A round of the endless loop with the new sample `val`: the samples and the index after it, and
-- the averages.
unfoldable pub round : ℕ → List ℕ → ℕ → List ℕ × ℕ × (ℕ × ℕ)
unfolding averages
round val hist index =
    let hist' = set hist index val in (hist', (index + 1) % hist_size, averages hist' index)
