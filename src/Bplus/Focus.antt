-- ===== src/Bplus/Focus.antt =====
-- The child of an internal node that a key belongs to, and what becomes of the node when the child
-- is replaced by one or by two.
use libalgo.Common.{
  ℕ, zero, suc, ◌<◌, ◌≤◌, ◌≡◌, refl, sym, ap, ◌∙◌, List, [], ◌∷◌, ◌++◌, append_assoc, map, some,
  ltb, if◌then◌else◌, Bool-cases, inl, inr, length, get_or, get_elem?, set, arith,
}
use libalgo.Tree.Sorted.{Below, Above, Below-append}
use libalgo.Btree.{array_insert}
use libalgo.Btree.Arrays.{pair_at}
use libalgo.Btree.Index.{rank, IsRising, Greater}
use libalgo.Vm.Search.{PosCc, pos_cc_eq, pos_cc_lt, pos_cc_gt, Placed}
use libalgo.Bplus.{followed}
use libalgo.Bplus.Chain.{Items, flat, Range, Chain, Range-Below, Range-Above, Chain-Range}

-- The number of keys up to the first that is greater than `v`.
unfoldable pub upper : ℕ → List ℕ → ℕ
upper v [] = 0
upper v (k ∷ ks) = if ltb v k then 0 else suc (upper v ks)

pub upper-le-length : (v : ℕ) (ks : List ℕ) → upper v ks ≤ length ks
unfolding upper
upper-le-length v [] = omega arith
upper-le-length v (k ∷ ks) = ground (arith, upper-le-length v ks)

Greater-upper : (v k : ℕ) (ks : List ℕ) → v ≤ k → Greater k ks → upper v ks ≡ 0
unfolding upper
Greater-upper v k [] l g = refl
Greater-upper v k (j ∷ ks) l g = ground (arith, l, g.0)

-- The rank and the key at it give the number of keys that are not greater.
upper_eq :
    (v : ℕ) (ks : List ℕ)
    → IsRising ks
    → rank v ks < length ks
    → get_or ks (rank v ks) 0 ≡ v
    → upper v ks ≡ suc (rank v ks)
unfolding upper rank
upper_eq v [] i l e = absurd (omega (arith, l))
upper_eq v (k ∷ ks) i l e = elim (Bool-cases (ltb k v)) [
  | inl h ↦ ground (arith, h, upper_eq v ks i.1 (ground (arith, l, h)) (ground (arith, e, h)))
  | inr h ↦
      let s : v ≡ k = ground (arith, e, h) in
      ground (arith, h, s, Greater-upper v k ks (omega (arith, s)) i.0)
]

upper_lt :
    (v : ℕ) (ks : List ℕ)
    → IsRising ks
    → rank v ks < length ks
    → v < get_or ks (rank v ks) 0
    → upper v ks ≡ rank v ks
unfolding upper rank
upper_lt v [] i l e = absurd (omega (arith, l))
upper_lt v (k ∷ ks) i l e = elim (Bool-cases (ltb k v)) [
  | inl h ↦ ground (arith, h, upper_lt v ks i.1 (ground (arith, l, h)) (ground (arith, e, h)))
  | inr h ↦ ground (arith, e, h)
]

upper_gt : (v : ℕ) (ks : List ℕ) → rank v ks ≡ length ks → upper v ks ≡ length ks
unfolding upper rank
upper_gt v [] e = refl
upper_gt v (k ∷ ks) e = elim (Bool-cases (ltb k v)) [
  | inl h ↦ ground (arith, h, upper_gt v ks (ground (arith, e, h)))
  | inr h ↦ absurd (ground (arith, e, h))
]

-- The link that is followed after the search.
pub followed-upper :
    (ks : List ℕ) (v : ℕ) (found : ℕ × PosCc)
    → IsRising ks
    → Placed ks v found
    → followed found ≡ upper v ks
unfolding followed
followed-upper ks v (r, pos_cc_eq) i (e, l, g) =
    rw e (sym (upper_eq v ks i (rw e at l) (rw e at g)))
followed-upper ks v (r, pos_cc_lt) i (e, l, g) =
    rw e (sym (upper_lt v ks i (rw e at l) (rw e at g)))
followed-upper ks v (r, pos_cc_gt) i (e, l) = l ∙ sym (upper_gt v ks (sym e ∙ l))

module _ {C : Type 0} (P : ℕ → ℕ → C → Type 0) (f : C → Items) where
  -- The child number `i` lies between `low` and `high`, with `v` among them.
  pub record Focus (v lo hi i : ℕ) (ks : List ℕ) (cs : List C) : Type 0 where
    pub child : C
    pub low : ℕ
    pub high : ℕ
    pub front : Items
    pub back : Items
    pub there : get_elem? cs i ≡ some child
    pub fits : P low high child
    pub low_le : low ≤ v
    pub lt_high : v < high
    pub low_zero : i ≡ 0 → low ≡ lo
    pub low_suc : (j : ℕ) → i ≡ suc j → low ≡ get_or ks j 0
    pub front_Below : Below v front
    pub back_Above : Above v back
    pub whole : flat (map f cs) ≡ front ++ (f child ++ back)
    pub set_items : (c : C) → flat (map f (set cs i c)) ≡ front ++ (f c ++ back)
    pub set_Chain : (c : C) → P low high c → Chain P lo hi ks (set cs i c)
    pub pair_items : (a b : C) → flat (map f (pair_at cs i a b)) ≡ front ++ ((f a ++ f b) ++ back)
    pub pair_Chain :
        (k : ℕ) (a b : C)
        → low < k
        → k < high
        → P low k a
        → P k high b
        → Chain P lo hi (array_insert ks i k) (pair_at cs i a b)

  low_at :
      (ks : List ℕ) {i k low : ℕ}
      → (i ≡ 0 → low ≡ k)
      → ((j : ℕ) → i ≡ suc j → low ≡ get_or ks j 0)
      → (j : ℕ) → suc i ≡ suc j
      → low ≡ get_or (k ∷ ks) j 0
  low_at ks z s zero e = z (omega (arith, e))
  low_at ks z s (suc j) e = s j (omega (arith, e))

  module _ (r : (l u : ℕ) (c : C) → P l u c → Range l u (f c)) where
    pub focus :
        (v lo hi : ℕ) (ks : List ℕ) (cs : List C)
        → Chain P lo hi ks cs
        → lo ≤ v
        → v < hi
        → Focus v lo hi (upper v ks) ks cs
    unfolding upper array_insert
    focus v lo hi ks [] h a b = absurd h
    focus v lo hi [] (c ∷ d ∷ cs) h a b = absurd h
    focus v lo hi [] (c ∷ []) h a b = record {
      child = c;
      low = lo;
      high = hi;
      front = [];
      back = [];
      there = refl;
      fits = h;
      low_le = a;
      lt_high = b;
      low_zero = λ e. refl;
      low_suc = λ j e. absurd (omega (arith, e));
      front_Below = tt;
      back_Above = tt;
      whole = refl;
      set_items = λ x. refl;
      set_Chain = λ x p. p;
      pair_items = λ x y. sym (append_assoc (f x) (f y) []);
      pair_Chain = λ k x y l m p q. (l, m, p, q);
    }
    focus v lo hi (k ∷ ks) (c ∷ cs) h a b = elim (Bool-cases (ltb v k)) [
      | inl g ↦ rw g (record {
        child = c;
        low = lo;
        high = k;
        front = [];
        back = flat (map f cs);
        there = refl;
        fits = h.2;
        low_le = a;
        lt_high = ground (arith, g);
        low_zero = λ e. refl;
        low_suc = λ j e. absurd (omega (arith, e));
        front_Below = tt;
        back_Above =
            Range-Above k hi v (flat (map f cs)) (ground (arith, g))
              (Chain-Range P f r k hi ks cs h.3);
        whole = refl;
        set_items = λ x. refl;
        set_Chain = λ x p. (h.0, h.1, p, h.3);
        pair_items = λ x y. sym (append_assoc (f x) (f y) (flat (map f cs)));
        pair_Chain = λ m x y l n p q. (l, omega (arith, n, h.1), p, (n, h.1, q, h.3));
      })
      | inr g ↦
          let u = focus v k hi ks cs h.3 (ground (arith, g)) b in
          rw g (record {
            child = u.child;
            low = u.low;
            high = u.high;
            front = f c ++ u.front;
            back = u.back;
            there = u.there;
            fits = u.fits;
            low_le = u.low_le;
            lt_high = u.lt_high;
            low_zero = λ e. absurd (omega (arith, e));
            low_suc = λ j e. low_at ks u.low_zero u.low_suc j e;
            front_Below =
                Below-append v (f c) u.front
                  (Range-Below lo k v (f c) (ground (arith, g)) (r lo k c h.2)) u.front_Below;
            back_Above = u.back_Above;
            whole =
                ap (λ z. f c ++ z) u.whole ∙ sym (append_assoc (f c) u.front (f u.child ++ u.back));
            set_items = λ x.
                ap (λ z. f c ++ z) (u.set_items x)
                ∙ sym (append_assoc (f c) u.front (f x ++ u.back));
            set_Chain = λ x p. (h.0, h.1, h.2, u.set_Chain x p);
            pair_items = λ x y.
                ap (λ z. f c ++ z) (u.pair_items x y)
                ∙ sym (append_assoc (f c) u.front ((f x ++ f y) ++ u.back));
            pair_Chain = λ m x y l n p q. (h.0, h.1, h.2, u.pair_Chain m x y l n p q);
          })
    ]
