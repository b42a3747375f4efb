-- ===== src/Bplus/Delete/Pair.antt =====
-- Two neighbours of an internal node with the key between them, replaced by two or by one.
use libalgo.Common.{
  ℕ, zero, suc, ◌-◌, ◌<◌, ◌≤◌, ◌≡◌, ◌⊎◌, refl, sym, ap, ◌∙◌, List, [], ◌∷◌, ◌++◌, append_assoc, map,
  some, ltb, if◌then◌else◌, inl, inr, length, get_or, get_elem?, set, arith,
}
use libalgo.Btree.Index.{IsRising, Greater}
use libalgo.Vm.Search.{PosCc, pos_cc_eq, pos_cc_lt, pos_cc_gt, Placed}
use libalgo.Btree.{array_remove}
use libalgo.Bplus.{followed}
use libalgo.Bplus.Chain.{Items, flat, Chain}
use libalgo.Bplus.Focus.{upper}

module _ {C : Type 0} (P : ℕ → ℕ → C → Type 0) (f : C → Items) where
  pub record Pair (lo hi i : ℕ) (ks : List ℕ) (cs : List C) : Type 0 where
    pub left : C
    pub right : C
    pub low : ℕ
    pub mid : ℕ
    pub high : ℕ
    pub front : Items
    pub back : Items
    pub left_there : get_elem? cs i ≡ some left
    pub right_there : get_elem? cs (suc i) ≡ some right
    pub mid_there : get_or ks i 0 ≡ mid
    pub low_lt : low < mid
    pub lt_high : mid < high
    pub left_fits : P low mid left
    pub right_fits : P mid high right
    pub whole : flat (map f cs) ≡ front ++ ((f left ++ f right) ++ back)
    pub set_items :
        (a b : C) → flat (map f (set (set cs i a) (suc i) b)) ≡ front ++ ((f a ++ f b) ++ back)
    pub set_Chain :
        (k : ℕ) (a b : C)
        → low < k
        → k < high
        → P low k a
        → P k high b
        → Chain P lo hi (set ks i k) (set (set cs i a) (suc i) b)
    pub merge_items :
        (c : C) → flat (map f (set (array_remove cs (suc i)) i c)) ≡ front ++ (f c ++ back)
    pub merge_Chain :
        (c : C)
        → P low high c
        → Chain P lo hi (array_remove ks i) (set (array_remove cs (suc i)) i c)

  pub pair :
      (i lo hi : ℕ) (ks : List ℕ) (cs : List C)
      → Chain P lo hi ks cs
      → i < length ks
      → Pair lo hi i ks cs
  unfolding array_remove
  pair i lo hi [] cs h l = absurd (omega (arith, l))
  pair i lo hi (k ∷ ks) [] h l = absurd h
  pair zero lo hi (k ∷ ks) (c ∷ []) h l = absurd (h.3)
  pair (suc i) lo hi (k ∷ ks) (c ∷ []) h l = absurd (h.3)
  pair zero lo hi (k ∷ []) (c ∷ d ∷ e ∷ cs) h l = absurd (h.3)
  pair zero lo hi (k ∷ []) (c ∷ d ∷ []) h l = record {
    left = c;
    right = d;
    low = lo;
    mid = k;
    high = hi;
    front = [];
    back = [];
    left_there = refl;
    right_there = refl;
    mid_there = refl;
    low_lt = h.0;
    lt_high = h.1;
    left_fits = h.2;
    right_fits = h.3;
    whole = sym (append_assoc (f c) (f d) []);
    set_items = λ a b. sym (append_assoc (f a) (f b) []);
    set_Chain = λ m a b u w p q. (u, w, p, q);
    merge_items = λ x. refl;
    merge_Chain = λ x p. p;
  }
  pair zero lo hi (k ∷ j ∷ ks) (c ∷ d ∷ cs) h l = record {
    left = c;
    right = d;
    low = lo;
    mid = k;
    high = j;
    front = [];
    back = flat (map f cs);
    left_there = refl;
    right_there = refl;
    mid_there = refl;
    low_lt = h.0;
    lt_high = h.3.0;
    left_fits = h.2;
    right_fits = h.3.2;
    whole = sym (append_assoc (f c) (f d) (flat (map f cs)));
    set_items = λ a b. sym (append_assoc (f a) (f b) (flat (map f cs)));
    set_Chain = λ m a b u w p q. (u, omega (arith, w, h.3.1), p, (w, h.3.1, q, h.3.3));
    merge_items = λ x. refl;
    merge_Chain = λ x p. (omega (arith, h.0, h.3.0), h.3.1, p, h.3.3);
  }
  pair (suc i) lo hi (k ∷ ks) (c ∷ d ∷ cs) h l =
      let u = pair i k hi ks (d ∷ cs) h.3 (omega (arith, l)) in
      record {
        left = u.left;
        right = u.right;
        low = u.low;
        mid = u.mid;
        high = u.high;
        front = f c ++ u.front;
        back = u.back;
        left_there = u.left_there;
        right_there = u.right_there;
        mid_there = u.mid_there;
        low_lt = u.low_lt;
        lt_high = u.lt_high;
        left_fits = u.left_fits;
        right_fits = u.right_fits;
        whole =
            ap (λ z. f c ++ z) u.whole
            ∙ sym (append_assoc (f c) u.front ((f u.left ++ f u.right) ++ u.back));
        set_items = λ a b.
            ap (λ z. f c ++ z) (u.set_items a b)
            ∙ sym (append_assoc (f c) u.front ((f a ++ f b) ++ u.back));
        set_Chain = λ m a b v w p q. (h.0, h.1, h.2, u.set_Chain m a b v w p q);
        merge_items = λ x.
            ap (λ z. f c ++ z) (u.merge_items x) ∙ sym (append_assoc (f c) u.front (f x ++ u.back));
        merge_Chain = λ x p. (h.0, h.1, h.2, u.merge_Chain x p);
      }

-- The number of keys that are not greater, against a single key.
pub upper-lt-key : (v i : ℕ) (ks : List ℕ) → upper v ks ≡ i → i < length ks → v < get_or ks i 0
unfolding upper
upper-lt-key v i [] e l = absurd (omega (arith, l))
upper-lt-key v zero (k ∷ ks) e l = ground (arith, e)
upper-lt-key v (suc i) (k ∷ ks) e l = upper-lt-key v i ks (ground (arith, e)) (omega (arith, l))

pub key-le-upper : (v i : ℕ) (ks : List ℕ) → upper v ks ≡ suc i → get_or ks i 0 ≤ v
unfolding upper
key-le-upper v i [] e = omega arith
key-le-upper v zero (k ∷ ks) e = ground (arith, e)
key-le-upper v (suc i) (k ∷ ks) e = key-le-upper v i ks (ground (arith, e))

pub upper-set :
    (v i k : ℕ) (ks : List ℕ)
    → i < length ks
    → ltb v k ≡ ltb v (get_or ks i 0)
    → upper v (set ks i k) ≡ upper v ks
unfolding upper
upper-set v i k [] l e = absurd (omega (arith, l))
upper-set v zero k (j ∷ ks) l e = rw e refl
upper-set v (suc i) k (j ∷ ks) l e = rw (upper-set v i k ks (omega (arith, l)) e) refl

Greater-upper : (v k : ℕ) (ks : List ℕ) → v < k → Greater k ks → upper v ks ≡ 0
unfolding upper
Greater-upper v k [] l g = refl
Greater-upper v k (j ∷ ks) l g = ground (arith, l, g.0)

pub upper-array_remove :
    (v i : ℕ) (ks : List ℕ)
    → IsRising ks
    → i < length ks
    → (upper v ks ≡ i) ⊎ (upper v ks ≡ suc i)
    → upper v (array_remove ks i) ≡ i
unfolding upper array_remove
upper-array_remove v i [] r l e = absurd (omega (arith, l))
upper-array_remove v zero (k ∷ ks) r l (inl e) = Greater-upper v k ks (ground (arith, e)) r.0
upper-array_remove v zero (k ∷ ks) r l (inr e) = ground (arith, e)
upper-array_remove v (suc i) (k ∷ ks) r l (inl e) =
    ground (arith, e, upper-array_remove v i ks r.1 (omega (arith, l)) (inl (ground (arith, e))))
upper-array_remove v (suc i) (k ∷ ks) r l (inr e) =
    ground (arith, e, upper-array_remove v i ks r.1 (omega (arith, l)) (inr (ground (arith, e))))

-- The position of the key between the child that the search leads to and its neighbour.
abbrev pub beside : ℕ × PosCc → ℕ → ℕ
beside found n = if ltb found.0 n then found.0 else found.0 - 1

pub followed-beside :
    (ks : List ℕ) (v : ℕ) (found : ℕ × PosCc)
    → Placed ks v found
    → 0 < length ks
    → (beside found (length ks) < length ks)
      × ((followed found ≡ beside found (length ks))
          ⊎ (followed found ≡ suc (beside found (length ks))))
unfolding followed
followed-beside ks v (r, pos_cc_eq) p l = (ground (arith, p.1), inr (ground (arith, p.1)))
followed-beside ks v (r, pos_cc_lt) p l = (ground (arith, p.1), inl (ground (arith, p.1)))
followed-beside ks v (r, pos_cc_gt) p l = (ground (arith, p.1, l), inr (ground (arith, p.1, l)))
