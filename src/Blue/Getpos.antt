-- ===== src/Blue/Getpos.antt =====
-- The position of the first key that is not above the one searched.
use libalgo.Common.{
  ℕ, zero, suc, ◌+◌, ◌*◌, ◌/◌, ◌%◌, ◌<◌, ◌≤◌, ◌≡◌, sym, ap, List, true, false, inl, inr, length,
  order, lt, eq, gt, subst, arith,
}
use libalgo.Blue.{Comparison, Key, keycmp, scan_slots, getpos_blocks, getpos}
use libalgo.Blue.Order.{is_above, is_below, Falls, IsSteep, keycmp-IsSteep, Comparison-cases}

-- Of the positions below `nr`, `p` is the first whose comparison is not above, or `nr`.
abbrev pub Splits : ℕ → (ℕ → Comparison) → ℕ → Type 0
Splits nr cmp p =
    (p ≤ nr) × ((j : ℕ) → j < p → is_above (cmp j) ≡ true) × (p < nr → is_above (cmp p) ≡ false)

pub further : (P : ℕ → Type 0) (p : ℕ) → ((j : ℕ) → j < p → P j) → P p → (j : ℕ) → j < suc p → P j
further P p f q j l = elim (order j p) [
  | lt b ↦ f j b
  | eq e ↦ subst P (sym e) q
  | gt b ↦ absurd (omega (arith, l, b))
]

scan_slots-Splits :
    (k : ℕ) (cmp : ℕ → Comparison) (p : ℕ)
    → ((j : ℕ) → j < p → is_above (cmp j) ≡ true)
    → Splits (p + k) cmp (scan_slots k cmp p)
unfolding scan_slots
scan_slots-Splits zero cmp p f = (omega arith, f, λ l. absurd (omega (arith, l)))
scan_slots-Splits (suc k) cmp p f = elim (Comparison-cases (cmp p)) [
  | inl e ↦ rw (scan_slots, e) (omega arith, f, λ l. ap is_above e)
  | inr (inl e) ↦ rw (scan_slots, e) (omega arith, f, λ l. ap is_above e)
  | inr (inr e) ↦
      rw (scan_slots, e)
        (subst (λ n. Splits n cmp (scan_slots k cmp (suc p))) (omega arith)
          (scan_slots-Splits k cmp (suc p)
            (further (λ j. is_above (cmp j) ≡ true) p f (ap is_above e))))
]

-- A wider range whose comparison at the end of the narrower is not above.
wider :
    (nr p k : ℕ) (cmp : ℕ → Comparison)
    → p ≤ nr
    → is_above (cmp p) ≡ false
    → Splits p cmp k
    → Splits nr cmp k
wider nr p k cmp l e s = elim (order k p) [
  | lt b ↦ (omega (arith, s.0, l), s.1, λ m. s.2 b)
  | eq b ↦ (omega (arith, s.0, l), s.1, λ m. subst (λ z. is_above (cmp z) ≡ false) (sym b) e)
  | gt b ↦ absurd (omega (arith, b, s.0))
]

blocks-Splits :
    (q r b nr : ℕ) (cmp : ℕ → Comparison)
    → IsSteep nr cmp
    → (b + q) * 8 + r ≡ nr
    → ((j : ℕ) → j < b * 8 → is_above (cmp j) ≡ true)
    → Splits nr cmp (getpos_blocks q r cmp b)
unfolding getpos_blocks
blocks-Splits zero r b nr cmp st e f =
    subst (λ n. Splits n cmp (scan_slots r cmp (b * 8))) (omega (arith, e))
      (scan_slots-Splits r cmp (b * 8) f)
blocks-Splits (suc q) r b nr cmp st e f = elim (Comparison-cases (cmp p)) [
  | inl d ↦
      rw (getpos_blocks, d)
        (wider nr p (scan_slots 7 cmp (b * 8)) cmp (omega (arith, e)) (ap is_above d)
          (scan_slots-Splits 7 cmp (b * 8) f))
  | inr (inl d) ↦
      rw (getpos_blocks, d)
        (omega (arith, e), λ j l. st j p l (omega (arith, e)) (ap is_below d), λ l. ap is_above d)
  | inr (inr d) ↦
      rw (getpos_blocks, d)
        (blocks-Splits q r (suc b) nr cmp st (omega (arith, e)) (λ j l.
          further (λ i. is_above (cmp i) ≡ true) p
            (λ i m. st i p m (omega (arith, e)) (ap is_below d)) (ap is_above d) j
            (omega (arith, l))))
]
  where
    p : ℕ
    p = b * 8 + 7

-- On falling keys getpos returns the number of the keys that are above the one searched, which
-- are the first ones.
pub getpos-Splits :
    (keylen : ℕ) (keys : List Key) (key : Key)
    → length key ≡ keylen
    → Falls keylen keys
    → Splits (length keys) (keycmp keylen keys key) (getpos keylen keys key)
unfolding getpos
getpos-Splits keylen keys key l f =
    blocks-Splits (nr / 8) (nr % 8) 0 nr (keycmp keylen keys key)
      (keycmp-IsSteep keylen keys key l f) (omega arith) (λ j m. absurd (omega (arith, m)))
  where
    nr : ℕ
    nr = length keys
