-- ===== src/Vm/Insert/Place.antt =====
-- The areas of a tree in order, and the place of an area among them.
use libalgo.Common.{
  ℕ, zero, suc, ◌<◌, ◌≤◌, ◌≡◌, refl, sym, ap, ◌∙◌, List, [], ◌∷◌, ◌++◌, append_assoc, map, some,
  Bool, true, false, ltb, leb, ◌||◌, ◌&&◌, Bool-cases, inl, inr, get_elem?, set, arith,
}
use mathlib.Core.Option.{some-injective}
use libalgo.Bplus.Chain.{Chain}
use libalgo.Bplus.Focus.{upper}
use libalgo.Vm.{VmapArea}
use libalgo.Vm.Node.{Bpn}
use libalgo.Vm.Node.Avail.{areas, flat}
use libalgo.Vm.Insert.Order.{Spans, overlaps_any, insert_area}

-- The areas are not empty, disjoint and in order, and lie between the keys, from `lo` up to `hi`.
abbrev pub IsRanged : ℕ → ℕ → (h : ℕ) → Bpn h → Type 0
IsRanged lo hi zero n = Spans lo hi n
IsRanged lo hi (suc h) n = Chain (λ l u c. IsRanged l u h c) lo hi n.slot n.subl

abbrev pub IsRangedChild : (h : ℕ) → ℕ → ℕ → Bpn h → Type 0
IsRangedChild h l u c = IsRanged l u h c

-- The area starts within another one.
abbrev pub starts_in : VmapArea → List VmapArea → Bool
starts_in va [] = false
starts_in va (a ∷ n) = (leb a.va_start va.va_start && ltb va.va_start a.va_end) || starts_in va n

Spans-append :
    (lo k hi : ℕ) (xs ys : List VmapArea)
    → lo ≤ k
    → k ≤ hi
    → Spans lo k xs
    → Spans k hi ys
    → Spans lo hi (xs ++ ys)
Spans-append lo k hi [] [] l m p q = tt
Spans-append lo k hi [] (a ∷ ys) l m p q = (omega (arith, l, q.0), q.1, q.2, q.3)
Spans-append lo k hi (a ∷ xs) ys l m p q =
    (p.0, p.1, omega (arith, p.2, m), Spans-append a.va_end k hi xs ys p.2 m p.3 q)

module _ (h : ℕ)
    (down : (lo hi : ℕ) (c : Bpn h) → IsRanged lo hi h c → lo ≤ hi → Spans lo hi (areas h c)) where
  pub links-Spans :
      (lo hi : ℕ) (ks : List ℕ) (cs : List (Bpn h))
      → Chain (IsRangedChild h) lo hi ks cs
      → lo ≤ hi
      → Spans lo hi (flat (map (areas h) cs))
  links-Spans lo hi ks [] p l = absurd p
  links-Spans lo hi [] (c ∷ []) p l =
      Spans-append lo hi hi (areas h c) [] l (omega arith) (down lo hi c p l) tt
  links-Spans lo hi [] (c ∷ d ∷ cs) p l = absurd p
  links-Spans lo hi (k ∷ ks) (c ∷ cs) p l =
      Spans-append lo k hi (areas h c) (flat (map (areas h) cs)) (omega (arith, p.0))
        (omega (arith, p.1)) (down lo k c p.2 (omega (arith, p.0)))
        (links-Spans k hi ks cs p.3 (omega (arith, p.1)))

pub node-Spans : (h lo hi : ℕ) (n : Bpn h) → IsRanged lo hi h n → lo ≤ hi → Spans lo hi (areas h n)
node-Spans zero lo hi n p l = p
node-Spans (suc h) lo hi n p l =
    links-Spans h (λ a b c q m. node-Spans h a b c q m) lo hi n.slot n.subl p l

-- The areas end at or before the address; they start behind it.
abbrev pub Ended : ℕ → List VmapArea → Type 0
Ended v [] = Unit
Ended v (a ∷ n) = (a.va_start < v) × (a.va_end ≤ v) × Ended v n

abbrev pub Later : ℕ → List VmapArea → Type 0
Later v [] = Unit
Later v (a ∷ n) = (v < a.va_start) × Later v n

Spans-Ended : (lo hi v : ℕ) (n : List VmapArea) → hi ≤ v → Spans lo hi n → Ended v n
Spans-Ended lo hi v [] l p = tt
Spans-Ended lo hi v (a ∷ n) l p =
    (omega (arith, l, p.1, p.2), omega (arith, l, p.2), Spans-Ended a.va_end hi v n l p.3)

Spans-Later : (lo hi v : ℕ) (n : List VmapArea) → v < lo → Spans lo hi n → Later v n
Spans-Later lo hi v [] l p = tt
Spans-Later lo hi v (a ∷ n) l p =
    (omega (arith, l, p.0), Spans-Later a.va_end hi v n (omega (arith, l, p.0, p.1)) p.3)

Ended-append : (v : ℕ) (xs ys : List VmapArea) → Ended v xs → Ended v ys → Ended v (xs ++ ys)
Ended-append v [] ys p q = q
Ended-append v (a ∷ xs) ys p q = (p.0, p.1, Ended-append v xs ys p.2 q)

-- The areas on the sides of the child number `i`, which an area that starts at `v` belongs to.
pub record Around (h v i : ℕ) (cs : List (Bpn h)) (c : Bpn h) : Type 0 where
  pub front : List VmapArea
  pub back : List VmapArea
  pub ended : Ended v front
  pub later : Later v back
  pub whole : flat (map (areas h) cs) ≡ front ++ (areas h c ++ back)
  pub after_write : (x : Bpn h) → flat (map (areas h) (set cs i x)) ≡ front ++ (areas h x ++ back)

module _ (h v : ℕ) where
  pub around :
      (lo hi : ℕ) (ks : List ℕ) (cs : List (Bpn h)) (c : Bpn h)
      → Chain (IsRangedChild h) lo hi ks cs
      → lo ≤ hi
      → get_elem? cs (upper v ks) ≡ some c
      → Around h v (upper v ks) cs c
  unfolding upper
  around lo hi ks [] c p l e = absurd p
  around lo hi [] (d ∷ []) c p l e = record {
    front = [];
    back = [];
    ended = tt;
    later = tt;
    whole = ap (λ z. areas h z ++ []) (some-injective d c e);
    after_write = λ x. refl;
  }
  around lo hi [] (d ∷ f ∷ cs) c p l e = absurd p
  around lo hi (k ∷ ks) (d ∷ cs) c p l e = elim (Bool-cases (ltb v k)) [
    | inl g ↦ rw g (record {
      front = [];
      back = flat (map (areas h) cs);
      ended = tt;
      later =
          Spans-Later k hi v (flat (map (areas h) cs)) (ground (arith, g)) (
            links-Spans h (λ a b x q m. node-Spans h a b x q m) k hi ks cs p.3
              (omega (arith, p.1)));
      whole = ap (λ z. areas h z ++ flat (map (areas h) cs)) (some-injective d c (rw g at e));
      after_write = λ x. refl;
    })
    | inr g ↦
        let r = around k hi ks cs c p.3 (omega (arith, p.1)) (rw g at e) in
        rw g (record {
          front = areas h d ++ r.front;
          back = r.back;
          ended =
              Ended-append v (areas h d) r.front
                (Spans-Ended lo k v (areas h d) (ground (arith, g))
                  (node-Spans h lo k d p.2 (omega (arith, p.0))))
                r.ended;
          later = r.later;
          whole = ap (λ z. areas h d ++ z) r.whole ∙ sym (append_assoc (areas h d) r.front _);
          after_write = λ x.
              ap (λ z. areas h d ++ z) (r.after_write x) ∙ sym (append_assoc (areas h d) r.front _);
        })
  ]

-- What the areas on the sides mean for an area that starts between them.
module _ (va : VmapArea) where
  pub insert_area-around :
      (xs ys zs : List VmapArea)
      → Ended va.va_start xs
      → Later va.va_start zs
      → insert_area va (xs ++ (ys ++ zs)) ≡ xs ++ (insert_area va ys ++ zs)
  unfolding insert_area
  insert_area-around [] [] [] p q = refl
  insert_area-around [] [] (b ∷ zs) p q = rw (not_ltb q.0) refl
    where
      not_ltb : va.va_start < b.va_start → ltb b.va_start va.va_start ≡ false
      not_ltb l = ground (arith, l)
  insert_area-around [] (y ∷ ys) zs p q = elim (Bool-cases (ltb y.va_start va.va_start)) [
    | inl s ↦ rw s (ap (λ z. y ∷ z) (insert_area-around [] ys zs tt q))
    | inr s ↦ rw s refl
  ]
  insert_area-around (x ∷ xs) ys zs p q =
      rw (is_ltb p.0) (ap (λ z. x ∷ z) (insert_area-around xs ys zs p.2 q))
    where
      is_ltb : x.va_start < va.va_start → ltb x.va_start va.va_start ≡ true
      is_ltb l = ground (arith, l)

  pub starts_in-around :
      (xs ys zs : List VmapArea)
      → Ended va.va_start xs
      → Later va.va_start zs
      → starts_in va (xs ++ (ys ++ zs)) ≡ starts_in va ys
  starts_in-around [] [] [] p q = refl
  starts_in-around [] [] (b ∷ zs) p q = ground (arith, q.0, starts_in-around [] [] zs tt q.1)
  starts_in-around [] (y ∷ ys) zs p q = ground (arith, starts_in-around [] ys zs tt q)
  starts_in-around (x ∷ xs) ys zs p q = ground (arith, p.1, starts_in-around xs ys zs p.2 q)

  pub overlaps_any-around :
      (xs ys zs : List VmapArea)
      → overlaps_any va ys ≡ true
      → overlaps_any va (xs ++ (ys ++ zs)) ≡ true
  overlaps_any-around [] [] zs e = absurd (ground (arith, e))
  overlaps_any-around [] (y ∷ ys) zs e = elim (Bool-cases (overlaps_any va ys)) [
    | inl s ↦ ground (arith, overlaps_any-around [] ys zs s)
    | inr s ↦ ground (arith, e, s)
  ]
  overlaps_any-around (x ∷ xs) ys zs e = ground (arith, overlaps_any-around xs ys zs e)

  -- An area that overlaps none starts in none.
  pub starts_in-overlaps_any :
      (n : List VmapArea)
      → va.va_start < va.va_end
      → overlaps_any va n ≡ false
      → starts_in va n ≡ false
  starts_in-overlaps_any [] l e = refl
  starts_in-overlaps_any (a ∷ n) l e =
      ground (arith, l, e, starts_in-overlaps_any n l (ground (arith, e)))
