-- ===== src/Tests/Ewma.antt =====
-- ewma.c on one ring of samples.
use libalgo.Common.{ℕ, ◌≡◌, List, [], ◌∷◌, refl, arith}
use libalgo.Ewma.{round}
use libalgo.Ewma.Bounds.{Kept, round-Kept}

abbrev samples : List ℕ
samples = 10 ∷ 20 ∷ 30 ∷ 40 ∷ 50 ∷ []

-- The new sample 99 weighs 16, and the oldest, 40, weighs 1.
round_99 : round 99 samples 2 ≡ (10 ∷ 20 ∷ 99 ∷ 40 ∷ 50 ∷ [], 3, (62, 43))
unfolding round
round_99 = refl

round-Kept_example : Kept 0 99 (round 99 samples 2)
round-Kept_example =
    round-Kept 0 99 99 2 samples (omega arith) (omega arith) refl (omega arith) (omega arith)
      (omega arith)
