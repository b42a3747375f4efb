-- ===== src/Blue/Lookup.antt =====
-- The lookup through the levels of the tree, against the list of all slots at the lowest level.
use libalgo.Common.{
  ℕ, zero, suc, ◌≡◌, refl, List, [], ◌∷◌, ◌++◌, true, false, if◌then◌else◌, Bool-cases, inl, inr,
  Option, some, none, length, arith,
}
use libalgo.Blue.{Key, longcmp}
use libalgo.Blue.Order.{is_above, is_below, is_same}
use libalgo.Blue.Geteqv.{above-not_same, below-not_same}

abbrev pub Slots : Type 0
Slots = List (Key × ℕ)

longcmp-above :
    (n : ℕ) (e k key : Key)
    → length e ≡ n
    → length k ≡ n
    → length key ≡ n
    → is_below (longcmp n e k) ≡ false
    → is_above (longcmp n k key) ≡ true
    → is_above (longcmp n e key) ≡ true
unfolding longcmp
longcmp-above zero e k key a b c p q = q
longcmp-above (suc n) [] k key a b c p q = absurd (omega (arith, a))
longcmp-above (suc n) (x ∷ e) [] key a b c p q = absurd (omega (arith, b))
longcmp-above (suc n) (x ∷ e) (y ∷ k) [] a b c p q = absurd (omega (arith, c))
longcmp-above (suc n) (x ∷ e) (y ∷ k) (z ∷ key) a b c p q =
    ground (
      arith,
      p,
      q,
      longcmp-above n e k key (omega (arith, a)) (omega (arith, b)) (omega (arith, c)),
    )

longcmp-below :
    (n : ℕ) (e k key : Key)
    → length e ≡ n
    → length k ≡ n
    → length key ≡ n
    → is_below (longcmp n e k) ≡ true
    → is_above (longcmp n k key) ≡ false
    → is_below (longcmp n e key) ≡ true
unfolding longcmp
longcmp-below zero e k key a b c p q = p
longcmp-below (suc n) [] k key a b c p q = absurd (omega (arith, a))
longcmp-below (suc n) (x ∷ e) [] key a b c p q = absurd (omega (arith, b))
longcmp-below (suc n) (x ∷ e) (y ∷ k) [] a b c p q = absurd (omega (arith, c))
longcmp-below (suc n) (x ∷ e) (y ∷ k) (z ∷ key) a b c p q =
    ground (
      arith,
      p,
      q,
      longcmp-below n e k key (omega (arith, a)) (omega (arith, b)) (omega (arith, c)),
    )

-- The value of the first slot whose key is the one given.
unfoldable pub find_slot : ℕ → Slots → Key → Option ℕ
find_slot n [] key = none
find_slot n (e ∷ es) key = if is_same (longcmp n e.0 key) then some e.1 else find_slot n es key

-- The slots have keys of `n` words, none of them below `k`, or all of them.
abbrev pub NotBelow : ℕ → Key → Slots → Type 0
NotBelow n k [] = Unit
NotBelow n k (e ∷ es) = (length e.0 ≡ n) × (is_below (longcmp n e.0 k) ≡ false) × NotBelow n k es

abbrev pub AllBelow : ℕ → Key → Slots → Type 0
AllBelow n k [] = Unit
AllBelow n k (e ∷ es) = (length e.0 ≡ n) × (is_below (longcmp n e.0 k) ≡ true) × AllBelow n k es

pub find_slot-before :
    (n : ℕ) (k key : Key) (es fs : Slots)
    → length k ≡ n
    → length key ≡ n
    → NotBelow n k es
    → is_above (longcmp n k key) ≡ true
    → find_slot n (es ++ fs) key ≡ find_slot n fs key
unfolding find_slot
find_slot-before n k key [] fs a b p q = refl
find_slot-before n k key (e ∷ es) fs a b p q =
    rw (above-not_same (longcmp n e.0 key) (longcmp-above n e.0 k key p.0 a b p.1 q))
      (find_slot-before n k key es fs a b p.2 q)

pub find_slot-none :
    (n : ℕ) (k key : Key) (es : Slots)
    → length k ≡ n
    → length key ≡ n
    → AllBelow n k es
    → is_above (longcmp n k key) ≡ false
    → find_slot n es key ≡ none
unfolding find_slot
find_slot-none n k key [] a b p q = refl
find_slot-none n k key (e ∷ es) a b p q =
    rw (below-not_same (longcmp n e.0 key) (longcmp-below n e.0 k key p.0 a b p.1 q))
      (find_slot-none n k key es a b p.2 q)

pub find_slot-after :
    (n : ℕ) (key : Key) (es fs : Slots)
    → find_slot n fs key ≡ none
    → find_slot n (es ++ fs) key ≡ find_slot n es key
unfolding find_slot
find_slot-after n key [] fs p = p
find_slot-after n key (e ∷ es) fs p = elim (Bool-cases (is_same (longcmp n e.0 key))) [
  | inl h ↦ rw h refl
  | inr h ↦ rw h (find_slot-after n key es fs p)
]
