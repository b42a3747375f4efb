-- ===== src/Vm/Insert/Order.antt =====
-- bpn_insert_to_leaf against the insertion into a list of areas in order.
use libalgo.Common.{
  ℕ, ◌⊎◌, suc, ◌<◌, ◌≤◌, ◌≡◌, refl, ap, ◌∙◌, List, [], ◌∷◌, map, some, Bool, true, false, ltb, ◌||◌,
  ◌&&◌, if◌then◌else◌, Bool-cases, inl, inr, lt→ltb, length, arith,
}
use libalgo.Common.Int.{pos, negsuc}
use libalgo.Btree.{array_insert}
use libalgo.Btree.Arrays.{length-map}
use libalgo.Btree.Index.{rank, IsRising, Greater, rank-le-length}
use libalgo.Vm.{VmapArea}
use libalgo.Vm.Search
use libalgo.Vm.Search.{bpn_bin_search-Placed}
use libalgo.Vm.Insert.{reaches_right, reaches_left, bpn_insert_to_leaf}

-- The areas are not empty, in order and disjoint, from `lo` up to `hi`.
abbrev pub Spans : ℕ → ℕ → List VmapArea → Type 0
Spans lo hi [] = Unit
Spans lo hi (a ∷ n) =
    (lo ≤ a.va_start) × (a.va_start < a.va_end) × (a.va_end ≤ hi) × Spans a.va_end hi n

abbrev pub overlaps : VmapArea → VmapArea → Bool
overlaps va a = ltb a.va_start va.va_end && ltb va.va_start a.va_end

abbrev pub overlaps_any : VmapArea → List VmapArea → Bool
overlaps_any va [] = false
overlaps_any va (a ∷ n) = overlaps va a || overlaps_any va n

-- The area before the first one that does not start below it.
unfoldable pub insert_area : VmapArea → List VmapArea → List VmapArea
insert_area va [] = va ∷ []
insert_area va (a ∷ n) = if ltb a.va_start va.va_start then a ∷ insert_area va n else va ∷ a ∷ n

pub length-insert_area :
    (va : VmapArea) (n : List VmapArea) → length (insert_area va n) ≡ suc (length n)
unfolding insert_area
length-insert_area va [] = refl
length-insert_area va (a ∷ n) = elim (Bool-cases (ltb a.va_start va.va_start)) [
  | inl s ↦ rw s (ap suc (length-insert_area va n))
  | inr s ↦ rw s refl
]

abbrev pub starts : List VmapArea → List ℕ
starts n = map (λ a. a.va_start) n

Spans-Greater : (lo hi s : ℕ) (n : List VmapArea) → s < lo → Spans lo hi n → Greater s (starts n)
Spans-Greater lo hi s [] l p = tt
Spans-Greater lo hi s (a ∷ n) l p =
    (omega (arith, l, p.0), Spans-Greater a.va_end hi s n (omega (arith, l, p.0, p.1)) p.3)

pub Spans-IsRising : (lo hi : ℕ) (n : List VmapArea) → Spans lo hi n → IsRising (starts n)
Spans-IsRising lo hi [] p = tt
Spans-IsRising lo hi (a ∷ n) p =
    (Spans-Greater a.va_end hi a.va_start n p.1 p.3, Spans-IsRising a.va_end hi n p.3)

rank-insert_area :
    (va : VmapArea) (n : List VmapArea)
    → array_insert n (rank va.va_start (starts n)) va ≡ insert_area va n
unfolding array_insert rank insert_area
rank-insert_area va [] = refl
rank-insert_area va (a ∷ n) = elim (Bool-cases (ltb a.va_start va.va_start)) [
  | inl s ↦ rw s (ap (λ z. a ∷ z) (rank-insert_area va n))
  | inr s ↦ rw s refl
]

-- Nothing overlaps where all areas start at or after the end.
overlaps-none :
    (va : VmapArea) (lo hi : ℕ) (n : List VmapArea)
    → va.va_end ≤ lo
    → Spans lo hi n
    → overlaps_any va n ≡ false
overlaps-none va lo hi [] l p = refl
overlaps-none va lo hi (a ∷ n) l p =
    let rest = overlaps-none va a.va_end hi n (omega (arith, l, p.0, p.1)) p.3 in
    ground (arith, rest, l, p.0)

-- The two checks at the rank find out whether any area overlaps.
reaches-overlaps_any :
    (va : VmapArea) (lo hi : ℕ) (n : List VmapArea)
    → va.va_start < va.va_end
    → Spans lo hi n
    → (reaches_right n (rank va.va_start (starts n)) va
        || reaches_left n (rank va.va_start (starts n)) va)
      ≡ overlaps_any va n
unfolding reaches_right reaches_left rank
reaches-overlaps_any va lo hi [] l p = refl
reaches-overlaps_any va lo hi (a ∷ n) l p = elim (Bool-cases (ltb a.va_start va.va_start)) [
  | inr s ↦ rw s (at_first s (Bool-cases (ltb a.va_start va.va_end)))
  | inl s ↦ rw s (behind s n p.3 (reaches-overlaps_any va a.va_end hi n l p.3))
]
  where
    at_first :
        ltb a.va_start va.va_start ≡ false
        → (ltb a.va_start va.va_end ≡ true) ⊎ (ltb a.va_start va.va_end ≡ false)
        → (ltb a.va_start va.va_end || false) ≡ (overlaps va a || overlaps_any va n)
    at_first s (inl e) = ground (arith, s, e, p.1)
    at_first s (inr e) =
        ground (arith, s, e, overlaps-none va a.va_end hi n (ground (arith, e, p.1)) p.3)

    behind :
        ltb a.va_start va.va_start ≡ true
        → (m : List VmapArea) → Spans a.va_end hi m
        → (reaches_right m (rank va.va_start (starts m)) va
            || reaches_left m (rank va.va_start (starts m)) va)
          ≡ overlaps_any va m
        → (reaches_right (a ∷ m) (suc (rank va.va_start (starts m))) va
            || reaches_left (a ∷ m) (suc (rank va.va_start (starts m))) va)
          ≡ (overlaps va a || overlaps_any va m)
    behind s [] q e = ground (arith, s, l)
    behind s (b ∷ m) q e = elim (Bool-cases (ltb b.va_start va.va_start)) [
      | inl t ↦ rw t (rw t at e ∙ ground (arith, t, q.0))
      | inr t ↦ rw t (sides (overlaps_any va (b ∷ m)) (rw t at e))
    ]
      where
        sides :
            (o : Bool)
            → (ltb b.va_start va.va_end || false) ≡ o
            → (ltb b.va_start va.va_end || ltb va.va_start a.va_end) ≡ (overlaps va a || o)
        sides o f = ground (arith, f, s, l)

-- The position that the search returns.
pub found-rank :
    (lo hi v : ℕ) (n : List VmapArea)
    → Spans lo hi n
    → (Search.bpn_bin_search (starts n) v).0 ≡ rank v (starts n)
found-rank lo hi v n p =
    go (Search.bpn_bin_search (starts n) v)
      (bpn_bin_search-Placed (starts n) v (Spans-IsRising lo hi n p))
  where
    go : (f : ℕ × Search.PosCc) → Search.Placed (starts n) v f → f.0 ≡ rank v (starts n)
    go (r, Search.pos_cc_eq) q = q.0
    go (r, Search.pos_cc_lt) q = q.0
    go (r, Search.pos_cc_gt) q = q.0

-- In a leaf with room whose areas are in order and disjoint, bpn_insert_to_leaf at the position that
-- the search returns refuses an area that overlaps one of them with -1 and leaves the leaf alone;
-- else it returns 0 and puts the area in the order of the starts.
pub bpn_insert_to_leaf-insert_area :
    (lo hi : ℕ) (n : List VmapArea) (va : VmapArea)
    → Spans lo hi n
    → length n < 23
    → va.va_start < va.va_end
    → bpn_insert_to_leaf n ((Search.bpn_bin_search (starts n) va.va_start).0) va
      ≡ (if overlaps_any va n then some (negsuc 0, n) else some (pos 0, insert_area va n))
unfolding bpn_insert_to_leaf
bpn_insert_to_leaf-insert_area lo hi n va p room l =
    ap (λ i. bpn_insert_to_leaf n i va) (found-rank lo hi va.va_start n p)
    ∙ rw
        (
          bpn_insert_to_leaf,
          lt→ltb (rank va.va_start (starts n)) 23 (
              omega (
                arith,
                room,
                rank-le-length va.va_start (starts n),
                length-map (λ a. a.va_start) n,
              )),
          reaches-overlaps_any va lo hi n l p,
          rank-insert_area va n,
        )
        refl
