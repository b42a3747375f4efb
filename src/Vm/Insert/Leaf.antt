-- ===== src/Vm/Insert/Leaf.antt =====
-- An area that touches no free area, at the leaf it belongs to.
use libalgo.Common.{
  ℕ, zero, suc, ◌-◌, ◌<◌, ◌≤◌, ◌≡◌, refl, List, [], ◌∷◌, ◌++◌, Option, none, some, Bool, true,
  false, ltb, ◌==◌, ◌&&◌, if◌then◌else◌, Bool-cases, inl, inr, lt→ltb, length, get_or, get_elem?,
  arith, subst,
}
use libalgo.Common.Int.{ℤ, pos, negsuc}
use libalgo.Btree.Arrays.{Every}
use libalgo.Vm.{VmapArea}
use libalgo.Vm.Search.{validate_insert_req}
use libalgo.Vm.Node.{Bpn, Internal, keys_of, bpn_max_avail}
use libalgo.Vm.Node.Avail.{areas}
use libalgo.Vm.Lookup.Linear.{Every-front}
use libalgo.Vm.Delete.Shape.{IsKept}
use libalgo.Vm.Delete.Links.{one}
use libalgo.Vm.Merge.{
  ends_at, starts_at, can_merge_to_left, can_merge_to_right, can_merge_to_left_leaf,
  can_merge_to_right_leaf, get_va_merge_state, can_merge, finished, Climb, stopped, by_ppos,
}
use libalgo.Vm.Merge.Across.{Stored, last_area, first_area, before_link, behind_link}
use libalgo.Vm.Search
use libalgo.Vm.Insert.Order.{
  Spans, starts, overlaps_any, insert_area, length-insert_area, bpn_insert_to_leaf-insert_area,
}
use libalgo.Vm.Insert.Place.{starts_in, starts_in-overlaps_any}
use libalgo.Vm.Insert.{bpn_insert_to_leaf, put_in_leaf, store_in_leaf}

-- The areas do not touch.
abbrev pub IsApart : VmapArea → VmapArea → Type 0
IsApart va a = ((a.va_end == va.va_start) ≡ false) × ((a.va_start == va.va_end) ≡ false)

abbrev pub IsApartOption : VmapArea → Option VmapArea → Type 0
IsApartOption va none = Unit
IsApartOption va (some a) = IsApart va a

get_elem-IsApart :
    (va : VmapArea) (xs : List VmapArea) (i : ℕ)
    → Every (IsApart va) xs
    → IsApartOption va (get_elem? xs i)
get_elem-IsApart va [] i e = tt
get_elem-IsApart va (x ∷ xs) zero e = e.0
get_elem-IsApart va (x ∷ xs) (suc i) e = get_elem-IsApart va xs i e.1

-- The areas of a child are areas of the node.
pub child-IsApart :
    (va : VmapArea) (h i : ℕ) (p : Internal (Bpn h)) (c : Bpn h)
    → Every (IsApart va) (areas (suc h) p)
    → get_elem? p.subl i ≡ some c
    → Every (IsApart va) (areas h c)
child-IsApart va h i p c e there =
    let o = one (areas h) p.subl i c there in
    let (a, b) =
      Every-front (IsApart va) o.front (areas h c ++ o.back)
        (subst (λ z. Every (IsApart va) z) o.whole e) in
    (Every-front (IsApart va) (areas h c) o.back b).0

either : (b : Bool) → (if b then false else false) ≡ false
either true = refl
either false = refl

module _ (va : VmapArea) where
  below :
      (h i : ℕ) (p : Internal (Bpn h)) (f : Bpn h → Option VmapArea)
      → Every (IsApart va) (areas (suc h) p)
      → ((c : Bpn h) → Every (IsApart va) (areas h c) → IsApartOption va (f c))
      → (o : Option (Bpn h)) → get_elem? p.subl i ≡ o
      → IsApartOption va (elim o [ none ↦ none | some c ↦ f c ])
  below h i p f e g none q = tt
  below h i p f e g (some c) q = g c (child-IsApart va h i p c e q)

  last_area-IsApart :
      (h : ℕ) (n : Bpn h) → Every (IsApart va) (areas h n) → IsApartOption va (last_area h n)
  unfolding last_area
  last_area-IsApart zero n e = get_elem-IsApart va n (length n - 1) e
  last_area-IsApart (suc h) n e =
      below h (length n.subl - 1) n (last_area h) e (λ c q. last_area-IsApart h c q)
        (get_elem? n.subl (length n.subl - 1)) refl

  first_area-IsApart :
      (h : ℕ) (n : Bpn h) → Every (IsApart va) (areas h n) → IsApartOption va (first_area h n)
  unfolding first_area
  first_area-IsApart zero n e = get_elem-IsApart va n 0 e
  first_area-IsApart (suc h) n e =
      below h 0 n (first_area h) e (λ c q. first_area-IsApart h c q) (get_elem? n.subl 0) refl

  module _ (h : ℕ) (p : Internal (Bpn h)) (e : Every (IsApart va) (areas (suc h) p)) where
    pub before_link-IsApart :
        (i : ℕ) (o : Option VmapArea) → IsApartOption va o → IsApartOption va (before_link h p i o)
    unfolding before_link
    before_link-IsApart zero o q = q
    before_link-IsApart (suc i) o q =
        below h i p (last_area h) e (λ c r. last_area-IsApart h c r) (get_elem? p.subl i) refl

    pub behind_link-IsApart :
        (i : ℕ) (o : Option VmapArea) → IsApartOption va o → IsApartOption va (behind_link h p i o)
    unfolding behind_link
    behind_link-IsApart i o q = go (get_elem? p.subl (suc i)) refl
      where
        go :
            (r : Option (Bpn h))
            → get_elem? p.subl (suc i) ≡ r
            → IsApartOption va (elim r [ none ↦ o | some c ↦ first_area h c ])
        go none s = q
        go (some c) s = first_area-IsApart h c (child-IsApart va h (suc i) p c e s)

  ends-false : (o : Option VmapArea) → IsApartOption va o → ends_at o va.va_start ≡ false
  unfolding ends_at
  ends-false none q = refl
  ends-false (some a) q = q.0

  starts-false : (o : Option VmapArea) → IsApartOption va o → starts_at o va.va_end ≡ false
  unfolding starts_at
  starts-false none q = refl
  starts-false (some a) q = q.1

  -- No merge is possible.
  can_merge-false :
      (before behind : Option VmapArea) (n : List VmapArea) (i : ℕ)
      → IsApartOption va before
      → IsApartOption va behind
      → Every (IsApart va) n
      → can_merge (get_va_merge_state before behind n va i) ≡ false
  unfolding can_merge get_va_merge_state can_merge_to_left can_merge_to_right can_merge_to_left_leaf
      can_merge_to_right_leaf
  can_merge-false before behind n zero b c e =
      rw
        (
          starts-false (get_elem? n 0) (get_elem-IsApart va n 0 e),
          ends-false before b,
          starts-false behind c,
        )
        (either (0 == length n))
  can_merge-false before behind n (suc i) b c e =
      rw
        (
          ends-false (get_elem? n i) (get_elem-IsApart va n i e),
          starts-false (get_elem? n (suc i)) (get_elem-IsApart va n (suc i) e),
          starts-false behind c,
        )
        (either (suc i == length n))

-- The areas `ys` are `xs` with the area in its place where 0 is returned, which it is not for an area
-- that starts within another; they are `xs` where it is -1, which it is only for an area that
-- overlaps another.
abbrev pub Put : VmapArea → ℤ → List VmapArea → List VmapArea → Type 0
Put va (pos k) xs ys = (k ≡ 0) × (ys ≡ insert_area va xs) × (starts_in va xs ≡ false)
Put va (negsuc k) xs ys = (k ≡ 0) × (ys ≡ xs) × (overlaps_any va xs ≡ true)

abbrev pub climbing : Bool → Climb
climbing true = by_ppos
climbing false = stopped

-- A node with enough entries into which the area is put; where the update of the sizes has
-- stopped, its greatest free size is that of `n`.
abbrev pub VmStored : ℕ → (h : ℕ) → VmapArea → Bpn h → Option (Stored h) → Type 0
VmStored low h va n none = ⊥
VmStored low h va n (some (rv, todo, climb, n')) =
    (todo ≡ finished)
    × IsKept low h n'
    × Put va rv (areas h n) (areas h n')
    × ((b : Bool) × (climb ≡ climbing b) × (b ≡ false → bpn_max_avail h n' ≡ bpn_max_avail h n))

module _ (low lo hi : ℕ) (va : VmapArea) (n : List VmapArea) (p : IsKept low 0 n)
    (room : length n < 23) (spans : Spans lo hi n) (some_address : va.va_start < va.va_end) where
  abbrev at : ℕ
  at = (Search.bpn_bin_search (starts n) va.va_start).0

  put_in_leaf-VmStored : at ≤ length n → VmStored low 0 va n (put_in_leaf n at va)
  unfolding put_in_leaf
  put_in_leaf-VmStored within = elim (Bool-cases (overlaps_any va n)) [
    | inl s ↦ rw (put_in_leaf, placed, s) (refl, p, (refl, refl, s), (false, refl, λ t. refl))
    | inr s ↦
        rw (put_in_leaf, placed, s)
          (
            refl,
            (omega (arith, longer, p.0), omega (arith, longer, room)),
            (refl, refl, starts_in-overlaps_any va n some_address s),
            (true, refl, λ t. cc),
          )
  ]
    where
      placed :
          bpn_insert_to_leaf n at va
          ≡ (if overlaps_any va n then some (negsuc 0, n) else some (pos 0, insert_area va n))
      placed = bpn_insert_to_leaf-insert_area lo hi n va spans room some_address

      longer : length (insert_area va n) ≡ suc (length n)
      longer = length-insert_area va n

  pub store_in_leaf-VmStored :
      (before behind : Option VmapArea)
      → at ≤ length n
      → IsApartOption va before
      → IsApartOption va behind
      → Every (IsApart va) n
      → VmStored low 0 va n (store_in_leaf before behind n va at)
  unfolding store_in_leaf validate_insert_req
  store_in_leaf-VmStored before behind within b c e =
      elim (Bool-cases
        (ltb at (length (keys_of 0 n)) && get_or (keys_of 0 n) at 0 == va.va_start)) [
          | inl s ↦
              rw (store_in_leaf, validate_insert_req, lt→ltb at 23 (omega (arith, room, within)), s)
                (put_in_leaf-VmStored within)
          | inr s ↦
              rw
                (
                  store_in_leaf,
                  validate_insert_req,
                  lt→ltb at 23 (omega (arith, room, within)),
                  s,
                  can_merge-false va before behind n at b c e,
                )
                (put_in_leaf-VmStored within)
        ]
