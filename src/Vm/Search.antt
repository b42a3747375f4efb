-- ===== src/Vm/Search.antt =====
-- vm/vm.h: the search for a key in a node of the tree of areas, given the keys of its entries.
use libalgo.Common.{
  ℕ, zero, suc, ◌+◌, ◌-◌, ◌/◌, ◌<◌, ◌≤◌, ◌≡◌, refl, sym, List, Option, none, some, true, false, ltb,
  ◌==◌, ◌&&◌, if◌then◌else◌, length, get_or, arith, Bool-cases, inl, inr, subst,
}
use libalgo.Common.Int.{ℤ, pos, negsuc}
use libalgo.Btree.Index.{rank, IsRising, rank-le-length, rank-below}

abbrev pub max_entries : ℕ
max_entries = 23

pub data PosCc : Type 0 where
  pos_cc_eq pos_cc_lt pos_cc_gt : PosCc

-- The loop of `bpn_bin_search`, with `l + 1` for `l`.
unfoldable pub bin_loop : ℕ → List ℕ → ℕ → ℕ → ℕ → ℕ
bin_loop zero keys key l r = r
bin_loop (suc fuel) keys key l r =
    let m = (l + r - 1) / 2 in
    elim (ltb l r) [
      | false ↦ r
      | true ↦ elim (ltb (get_or keys m 0) key) [
        | true ↦ bin_loop fuel keys key (suc m) r
        | false ↦ bin_loop fuel keys key l m
      ]
    ]

-- The condition code for the position `r`.
unfoldable pub pos_cc : List ℕ → ℕ → ℕ → PosCc
pos_cc keys key r =
    if ltb r (length keys)
    then if get_or keys r 0 == key then pos_cc_eq else pos_cc_lt
    else pos_cc_gt

-- Less `check_bpn_geometry`.
unfoldable pub bpn_bin_search : List ℕ → ℕ → ℕ × PosCc
unfolding bin_loop pos_cc
bpn_bin_search keys key =
    let r = bin_loop (length keys) keys key 0 (length keys) in (r, pos_cc keys key r)

-- `none` is BUG().
unfoldable pub validate_insert_req : List ℕ → ℕ → ℕ → Option ℤ
validate_insert_req keys position va_start =
    if ltb position max_entries
    then if ltb position (length keys) && get_or keys position 0 == va_start
      then some (negsuc 0)
      else some (pos 0)
    else none

pub bin_loop-rank :
    (fuel : ℕ) (ks : List ℕ) (v l r : ℕ)
    → IsRising ks
    → r ≤ length ks
    → l ≤ rank v ks
    → rank v ks ≤ r
    → r ≤ l + fuel
    → bin_loop fuel ks v l r ≡ rank v ks
unfolding bin_loop
bin_loop-rank zero ks v l r i n a b f = omega arith
bin_loop-rank (suc fuel) ks v l r i n a b f = elim (Bool-cases (ltb l r)) [
  | inr o ↦ rw (bin_loop, o) (ground arith)
  | inl o ↦ elim (Bool-cases (ltb m (rank v ks))) [
    | inl q ↦
        rw (bin_loop, o, rank-below v ks m i (in_range o), q)
          (bin_loop-rank fuel ks v (suc m) r i n (ground arith) b (ground arith))
    | inr q ↦
        rw (bin_loop, o, rank-below v ks m i (in_range o), q)
          (bin_loop-rank fuel ks v l m i (ground arith) a (ground arith) (ground arith))
  ]
]
  where
    m : ℕ
    m = (l + r - 1) / 2

    in_range : ltb l r ≡ true → m < length ks
    in_range o = ground arith

-- What a position with its condition code says of the key.
abbrev pub Placed : List ℕ → ℕ → ℕ × PosCc → Type 0
Placed ks v (r, pos_cc_eq) = (r ≡ rank v ks) × (r < length ks) × (get_or ks r 0 ≡ v)
Placed ks v (r, pos_cc_lt) = (r ≡ rank v ks) × (r < length ks) × (v < get_or ks r 0)
Placed ks v (r, pos_cc_gt) = (r ≡ rank v ks) × (r ≡ length ks)

-- On rising keys bpn_bin_search returns the number of lesser keys, with the code EQ where the key
-- there is the one searched, LT where it is greater, and GT where there is none.
pub bpn_bin_search-Placed : (ks : List ℕ) (v : ℕ) → IsRising ks → Placed ks v (bpn_bin_search ks v)
unfolding bpn_bin_search pos_cc
bpn_bin_search-Placed ks v i =
    subst (λ r. Placed ks v (r, pos_cc ks v r))
      (sym (
        bin_loop-rank (length ks) ks v 0 (length ks) i (omega arith) (omega arith)
          (rank-le-length v ks) (omega arith)))
      (elim (Bool-cases (ltb (rank v ks) (length ks))) [
        | inr o ↦ rw (pos_cc, o) (refl, ground (arith, o, rank-le-length v ks))
        | inl o ↦ elim (Bool-cases (get_or ks (rank v ks) 0 == v)) [
          | inl q ↦ rw (pos_cc, o, q) (refl, ground (arith, o), ground (arith, q))
          | inr q ↦
              rw (pos_cc, o, q)
                (
                  refl,
                  ground (arith, o),
                  ground (arith, q, rank-below v ks (rank v ks) i (ground (arith, o))),
                )
        ]
      ])
