-- ===== src/Vm/Merge/Across.antt =====
-- vm/vm_ops.c: a freed area that touches an area of another leaf, from the parents of its own leaf
-- up to the one whose key stands between the two leaves.
use libalgo.Common.{
  ℕ, zero, suc, ◌-◌, Option, none, some, Bool, true, false, ltb, ◌==◌, ◌||◌, not, if◌then◌else◌,
  length, get_or, get_elem?, set,
}
use libalgo.Common.Int.{ℤ}
use libalgo.Bplus.{followed}
use libalgo.Vm.{VmapArea}
use libalgo.Vm.Node.{Bpn, Internal, bpn_bin_search, bpn_max_avail}
use libalgo.Vm.Delete.{fixup_round}
use libalgo.Vm.Merge.{
  Todo, finished, delete_out, once_more, join_left, join_right, Climb, stopped, by_ppos, by_key,
}

-- The last and the first area below a node.
unfoldable pub last_area : (h : ℕ) → Bpn h → Option VmapArea
last_area zero n = get_elem? n (length n - 1)
last_area (suc h) n = elim (get_elem? n.subl (length n.subl - 1)) [
  | none ↦ none
  | some c ↦ last_area h c
]

unfoldable pub first_area : (h : ℕ) → Bpn h → Option VmapArea
first_area zero n = get_elem? n 0
first_area (suc h) n = elim (get_elem? n.subl 0) [ none ↦ none | some c ↦ first_area h c ]

-- `leaf_prev_last_entry` and `leaf_next_first_entry` below the link `index`, given those of `p`.
unfoldable pub before_link : (h : ℕ) → Internal (Bpn h) → ℕ → Option VmapArea → Option VmapArea
unfolding last_area
before_link h p zero before = before
before_link h p (suc i) before = elim (get_elem? p.subl i) [ none ↦ none | some c ↦ last_area h c ]

unfoldable pub behind_link : (h : ℕ) → Internal (Bpn h) → ℕ → Option VmapArea → Option VmapArea
unfolding first_area
behind_link h p index behind = elim (get_elem? p.subl (suc index)) [
  | none ↦ behind
  | some c ↦ first_area h c
]

-- A round of `fixup_subavail` at the parent `p` of `n`, which is put back at `link`.
unfoldable pub subavail_round :
    (h : ℕ) → Internal (Bpn h) → ℕ → ℕ → Bool → Bpn h → Bool × Internal (Bpn h)
unfolding bpn_bin_search followed bpn_max_avail
subavail_round h p link key climbs n =
    let index = followed (bpn_bin_search (suc h) p key) in
    let avail = bpn_max_avail h n in
    let q = record p { subl = set p.subl link n } in
    if not climbs || get_or p.suba index 0 == avail
    then (false, q)
    else (true, record q { suba = set p.suba index avail })

abbrev climb_of : Bool → ℕ → Climb
climb_of true key = by_key key
climb_of false key = stopped

-- The last area below the node ends at `e` from now on: its start, and whether `fixup_subavail`
-- still climbs. Likewise the first starts at `v`.
unfoldable pub extend_last : (h : ℕ) → Bpn h → ℕ → Option (ℕ × Bool × Bpn h)
unfolding subavail_round
extend_last zero n e = elim (get_elem? n (length n - 1)) [
  | none ↦ none
  | some va ↦ some (va.va_start, true, set n (length n - 1) (record va { va_end = e }))
]
extend_last (suc h) n e = elim (get_elem? n.subl (length n.subl - 1)) [
  | none ↦ none
  | some c ↦ elim (extend_last h c e) [
    | none ↦ none
    | some (key, climbs, c') ↦
        let (climbs', n') = subavail_round h n (length n.subl - 1) key climbs c' in
        some (key, climbs', n')
  ]
]

unfoldable pub extend_first : (h : ℕ) → Bpn h → ℕ → Option (Bool × Bpn h)
unfolding subavail_round
extend_first zero n v = elim (get_elem? n 0) [
  | none ↦ none
  | some va ↦ some (true, set n 0 (record va { va_start = v }))
]
extend_first (suc h) n v = elim (get_elem? n.subl 0) [
  | none ↦ none
  | some c ↦ elim (extend_first h c v) [
    | none ↦ none
    | some (climbs, c') ↦ some (subavail_round h n 0 v climbs c')
  ]
]

-- What the loops over the parents do at `p`, whose link `index` leads to the leaf. The neighbour is
-- sought below the link beside it; `none` where there is none.
unfoldable pub join_left_at :
    (h : ℕ) → Internal (Bpn h) → ℕ → ℕ → ℕ → Option (Todo × Climb × Internal (Bpn h))
unfolding extend_last subavail_round
join_left_at h p index e start =
    if ltb start (get_or p.slot (index - 1) 0)
    then some (join_left e start, stopped, p)
    else if index == 0
    then none
    else elim (get_elem? p.subl (index - 1)) [
      | none ↦ none
      | some c ↦ elim (extend_last h c e) [
        | none ↦ none
        | some (key, climbs, c') ↦
            let q = record p { slot = set p.slot (index - 1) start } in
            let (climbs', q') = subavail_round h q (index - 1) key climbs c' in
            some (finished, climb_of climbs' key, q')
      ]
    ]

unfoldable pub join_right_at :
    (h : ℕ) → Internal (Bpn h) → ℕ → ℕ → ℕ → Option (Todo × Climb × Internal (Bpn h))
unfolding extend_first subavail_round
join_right_at h p index v start =
    let position = if index == length p.slot then index - 1 else index in
    if ltb (get_or p.slot position 0) start
    then some (join_right v start, stopped, p)
    else elim (get_elem? p.subl (suc index)) [
      | none ↦ none
      | some c ↦ elim (extend_first h c v) [
        | none ↦ none
        | some (climbs, c') ↦
            let q = record p { slot = set p.slot position v } in
            let (climbs', q') = subavail_round h q (suc index) v climbs c' in
            some (finished, climb_of climbs' v, q')
      ]
    ]

unfoldable pub join_at :
    (h : ℕ) → Todo → Climb → Internal (Bpn h) → ℕ → Option (Todo × Climb × Internal (Bpn h))
unfolding join_left_at join_right_at
join_at h (join_left e start) climb p index = join_left_at h p index e start
join_at h (join_right v start) climb p index = join_right_at h p index v start
join_at h finished climb p index = some (finished, climb, p)
join_at h (delete_out key) climb p index = some (delete_out key, climb, p)
join_at h (once_more va key) climb p index = some (once_more va key, climb, p)

-- What comes of the loop below the link `index` of `p`: what is returned, what is left to do, how
-- the sizes are updated on the way up, and the node.
abbrev pub Stored : ℕ → Type 0
Stored h = ℤ × Todo × Climb × Bpn h

unfoldable pub climb_round :
    (h : ℕ) → Internal (Bpn h) → ℕ → Climb → Bpn h → Climb × Internal (Bpn h)
unfolding fixup_round subavail_round
climb_round h p index stopped n = (stopped, record p { subl = set p.subl index n })
climb_round h p index by_ppos n =
    let (climbs, q) = fixup_round h p index true n in (if climbs then by_ppos else stopped, q)
climb_round h p index (by_key key) n =
    let (climbs, q) = subavail_round h p index key true n in (climb_of climbs key, q)

unfoldable pub rejoin : (h : ℕ) → Internal (Bpn h) → ℕ → Option (Stored h) → Option (Stored (suc h))
unfolding climb_round join_at
rejoin h p index none = none
rejoin h p index (some (rv, todo, climb, n)) =
    let (climb', q) = climb_round h p index climb n in
    elim (join_at h todo climb' q index) [
      | none ↦ none
      | some (todo', climb'', q') ↦ some (rv, todo', climb'', q')
    ]
