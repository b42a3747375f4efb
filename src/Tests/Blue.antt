-- ===== src/Tests/Blue.antt =====
-- The search within a node of libtree/btree_blue/btree_blue.c, for keys of two words.
use libalgo.Common.{some, ℕ, zero, suc, ◌+◌, ◌≡◌, refl, List, [], ◌∷◌, length}
use libalgo.Blue.Lookup.{find_slot}
use libalgo.Blue.Descent.{slots_of, IsBlue, btree_blue_lookup-find_slot}
use libalgo.Blue.{
  BlueNode, btree_blue_lookup, btree_blue_lookup_node, lookup_levels, value_at, Key, longcmp,
  keycmp, scan_slots, getpos_blocks, getpos, find_eqv, geteqv_blocks, geteqv,
}
use libalgo.Blue.Order.{Falls}
use libalgo.Blue.Getpos.{Splits, getpos-Splits}
use libalgo.Blue.Geteqv.{Finds, geteqv-Finds}

-- The keys (1, 2 * n), ..., (1, 2).
abbrev falling : ℕ → List Key
falling zero = []
falling (suc n) = (1 ∷ (suc n + suc n) ∷ []) ∷ falling n

abbrev ten : List Key
ten = falling 10

-- Eight keys are above (1, 5): the ten keys end in 20, 18, and so on.
getpos_odd : getpos 2 ten (1 ∷ 5 ∷ []) ≡ 8
unfolding getpos getpos_blocks keycmp longcmp scan_slots
getpos_odd = refl

geteqv_even : geteqv 2 ten (1 ∷ 12 ∷ []) ≡ 4
unfolding geteqv geteqv_blocks keycmp longcmp find_eqv
geteqv_even = refl

geteqv_odd : geteqv 2 ten (1 ∷ 13 ∷ []) ≡ 10
unfolding geteqv geteqv_blocks keycmp longcmp find_eqv
geteqv_odd = refl

ten-Falls : Falls 2 ten
unfolding longcmp
ten-Falls = (
  refl,
  refl,
  (
    refl,
    refl,
    (
      refl,
      refl,
      (refl, refl, (refl, refl, (refl, refl, (refl, refl, (refl, refl, (refl, refl, refl)))))),
    ),
  ),
)

getpos-Splits_example : Splits (length ten) (keycmp 2 ten (1 ∷ 5 ∷ [])) (getpos 2 ten (1 ∷ 5 ∷ []))
getpos-Splits_example = getpos-Splits 2 ten (1 ∷ 5 ∷ []) refl ten-Falls

geteqv-Finds_example : Finds (length ten) (keycmp 2 ten (1 ∷ 12 ∷ [])) (geteqv 2 ten (1 ∷ 12 ∷ []))
geteqv-Finds_example = geteqv-Finds 2 ten (1 ∷ 12 ∷ []) refl ten-Falls

abbrev two_levels : BlueNode 1
two_levels =
    ((4 ∷ []), ((6 ∷ []), 60) ∷ ((4 ∷ []), 40) ∷ [])
    ∷ ((1 ∷ []), ((3 ∷ []), 30) ∷ ((1 ∷ []), 10) ∷ [])
    ∷ []

lookup_three : btree_blue_lookup 1 2 two_levels (3 ∷ []) ≡ some 30
unfolding btree_blue_lookup btree_blue_lookup_node lookup_levels value_at getpos getpos_blocks
    geteqv geteqv_blocks keycmp longcmp scan_slots find_eqv
lookup_three = refl

two_levels-IsBlue : IsBlue 1 1 two_levels
unfolding longcmp
two_levels-IsBlue = (
  (refl, refl, refl),
  (
    (refl, refl, refl),
    refl,
    (refl, refl, (refl, refl, tt)),
    (refl, refl, (refl, refl, tt)),
    ((refl, refl, refl), refl, (refl, refl, (refl, refl, tt)), tt, tt),
  ),
)

btree_blue_lookup-find_slot_example :
    btree_blue_lookup 1 2 two_levels (3 ∷ []) ≡ find_slot 1 (slots_of 2 two_levels) (3 ∷ [])
btree_blue_lookup-find_slot_example =
    btree_blue_lookup-find_slot 1 2 two_levels (3 ∷ []) refl two_levels-IsBlue
