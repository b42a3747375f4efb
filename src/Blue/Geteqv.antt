-- ===== src/Blue/Geteqv.antt =====
-- The position of the key searched.
use libalgo.Common.{
  ℕ, zero, suc, ◌+◌, ◌*◌, ◌/◌, ◌%◌, ◌<◌, ◌≤◌, ◌≡◌, refl, sym, ap, ◌∙◌, List, true, false,
  Bool-cases, inl, inr, length, order, Order, lt, eq, gt, arith,
}
use libalgo.Blue.{Comparison, below, same, above, Key, keycmp, find_eqv, geteqv_blocks, geteqv}
use libalgo.Blue.Order.{
  is_above, is_below, is_same, Falls, IsSteep, keycmp-IsSteep, Comparison-cases,
}
use libalgo.Blue.Getpos.{further}

-- `p` is a position below `nr` that compares the same, or `nr`, where there is none.
abbrev pub Finds : ℕ → (ℕ → Comparison) → ℕ → Type 0
Finds nr cmp p =
    (p ≤ nr)
    × (p < nr → is_same (cmp p) ≡ true)
    × (p ≡ nr → (j : ℕ) → j < nr → is_same (cmp j) ≡ false)

pub above-not_same : (c : Comparison) → is_above c ≡ true → is_same c ≡ false
above-not_same below e = refl
above-not_same same e = sym e
above-not_same above e = refl

pub below-not_same : (c : Comparison) → is_below c ≡ true → is_same c ≡ false
below-not_same below e = refl
below-not_same same e = sym e
below-not_same above e = refl

find_eqv-Finds :
    (k : ℕ) (cmp : ℕ → Comparison) (p nr : ℕ)
    → p + k ≤ nr
    → ((j : ℕ) → j < p → is_same (cmp j) ≡ false)
    → ((j : ℕ) → p + k ≤ j → j < nr → is_same (cmp j) ≡ false)
    → Finds nr cmp (find_eqv k cmp p nr)
unfolding find_eqv
find_eqv-Finds zero cmp p nr l f g = (
  omega arith,
  λ m. absurd (omega (arith, m)),
  λ e j m. elim (order j p) [
    | lt b ↦ f j b
    | eq b ↦ g j (omega (arith, b)) m
    | gt b ↦ g j (omega (arith, b)) m
  ],
)
find_eqv-Finds (suc k) cmp p nr l f g =
    let next : is_same (cmp p) ≡ false → Finds nr cmp (find_eqv k cmp (suc p) nr) = λ e.
      find_eqv-Finds k cmp (suc p) nr (omega (arith, l))
        (further (λ j. is_same (cmp j) ≡ false) p f e) (λ j m. g j (omega (arith, m))) in
    elim (Comparison-cases (cmp p)) [
      | inl e ↦ rw (find_eqv, e) (next (ap is_same e))
      | inr (inl e) ↦
          rw (find_eqv, e) (omega (arith, l), λ m. ap is_same e, λ m. absurd (omega (arith, m, l)))
      | inr (inr e) ↦ rw (find_eqv, e) (next (ap is_same e))
    ]

geteqv_blocks-Finds :
    (q r b nr : ℕ) (cmp : ℕ → Comparison)
    → IsSteep nr cmp
    → (b + q) * 8 + r ≡ nr
    → ((j : ℕ) → j < b * 8 → is_same (cmp j) ≡ false)
    → Finds nr cmp (geteqv_blocks q r cmp b nr)
unfolding geteqv_blocks
geteqv_blocks-Finds zero r b nr cmp st e f =
    find_eqv-Finds r cmp (b * 8) nr (omega (arith, e)) f (λ j m l. absurd (omega (arith, m, l, e)))
geteqv_blocks-Finds (suc q) r b nr cmp st e f = elim (Comparison-cases (cmp p)) [
  | inl d ↦
      rw (geteqv_blocks, d)
        (find_eqv-Finds 7 cmp (b * 8) nr (omega (arith, e)) f (λ j m l. behind d j m l (order j p)))
  | inr (inl d) ↦
      rw (geteqv_blocks, d) (omega (arith, e), λ l. ap is_same d, λ l. absurd (omega (arith, l, e)))
  | inr (inr d) ↦
      rw (geteqv_blocks, d)
        (geteqv_blocks-Finds q r (suc b) nr cmp st (omega (arith, e)) (λ j l.
          further (λ i. is_same (cmp i) ≡ false) p
            (λ i m. above-not_same (cmp i) (st i p m (omega (arith, e)) (ap is_below d)))
            (ap is_same d) j (omega (arith, l))))
]
  where
    p : ℕ
    p = b * 8 + 7

    behind : cmp p ≡ below → (j : ℕ) → p ≤ j → j < nr → Order j p → is_same (cmp j) ≡ false
    behind d j m l (lt o) = absurd (omega (arith, m, o))
    behind d j m l (eq o) = ap is_same (ap cmp o ∙ d)
    behind d j m l (gt o) = elim (Bool-cases (is_below (cmp j))) [
      | inl c ↦ below-not_same (cmp j) c
      | inr c ↦ absurd (ground (arith, sym (st p j o l c) ∙ ap is_above d))
    ]

-- On falling keys geteqv returns the position of the key searched, and the number of the keys where
-- it is not among them.
pub geteqv-Finds :
    (keylen : ℕ) (keys : List Key) (key : Key)
    → length key ≡ keylen
    → Falls keylen keys
    → Finds (length keys) (keycmp keylen keys key) (geteqv keylen keys key)
unfolding geteqv
geteqv-Finds keylen keys key l f =
    geteqv_blocks-Finds (nr / 8) (nr % 8) 0 nr (keycmp keylen keys key)
      (keycmp-IsSteep keylen keys key l f) (omega arith) (λ j m. absurd (omega (arith, m)))
  where
    nr : ℕ
    nr = length keys
