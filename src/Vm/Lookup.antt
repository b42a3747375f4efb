-- ===== src/Vm/Lookup.antt =====
-- vm/vm_ops.c: the search for a free area that a block fits into. The way down to a leaf is kept as
-- the list of the internal nodes above it, the nearest first, each with the number of the link that
-- was taken: what `info.parent` and `info.ppos` lead through.
pub mod Fit
pub mod Way
pub mod Arrive
pub mod Next
pub mod Rows
pub mod Descent
pub mod Rounds
pub mod Lowest
pub mod Linear
use libalgo.Common.{
  ℕ, zero, suc, ◌+◌, List, [], ◌∷◌, ◌++◌, Option, none, some, Bool, true, false, ltb, leb, ◌&&◌,
  map, if◌then◌else◌, get_elem?, drop,
}
use libalgo.Vm.{VmapArea, add_ulong, sub_ulong, va_size, is_within_this_va}
use libalgo.Vm.Node.{Bpn, Internal}
use libalgo.Vm.Node.Avail.{flat}

abbrev pub page_size : ℕ
page_size = 4096

-- The size that is looked for, with room for the alignment.
unfoldable pub wanted_length : ℕ → ℕ → ℕ
unfolding add_ulong sub_ulong
wanted_length size align = if ltb page_size align then sub_ulong (add_ulong size align) 1 else size

pub record Level : Type 0 where
  pub slot : List ℕ
  pub suba : List ℕ
  pub ppos : ℕ

-- The loop over the links of a node: the first below a greater key with enough space, else the last.
unfoldable pub lowest_link : ℕ → ℕ → List ℕ → List ℕ → ℕ
lowest_link length vstart [] suba = 0
lowest_link length vstart (s ∷ slot) [] = suc (lowest_link length vstart slot [])
lowest_link length vstart (s ∷ slot) (a ∷ suba) =
    if ltb vstart s && leb length a then 0 else suc (lowest_link length vstart slot suba)

unfoldable pub under :
    Level → Option (List Level × List VmapArea) → Option (List Level × List VmapArea)
under f none = none
under f (some (way, n)) = some (way ++ (f ∷ []), n)

-- `none` is a dereference of NULL.
unfoldable pub bpt_lookup_lowest_leaf :
    (h : ℕ) → Bpn h → ℕ → ℕ → Option (List Level × List VmapArea)
unfolding lowest_link under
bpt_lookup_lowest_leaf zero n length vstart = some ([], n)
bpt_lookup_lowest_leaf (suc h) n length vstart =
    let i = lowest_link length vstart n.slot n.suba in
    elim (get_elem? n.subl i) [
      | none ↦ none
      | some c ↦
          under (record { slot = n.slot; suba = n.suba; ppos = i })
            (bpt_lookup_lowest_leaf h c length vstart)
    ]

unfoldable pub leaf_get_va_cond : List VmapArea → ℕ → ℕ → ℕ → Option VmapArea
unfolding is_within_this_va
leaf_get_va_cond [] size align vstart = none
leaf_get_va_cond (va ∷ n) size align vstart =
    if is_within_this_va va size align vstart then some va else leaf_get_va_cond n size align vstart

-- The inner loop of `first_next_sub_avail`, over the links behind the taken one and the keys before
-- each of them: the key before the first link with enough space.
unfoldable pub next_link : ℕ → List ℕ → List ℕ → Option ℕ
next_link length [] suba = none
next_link length (s ∷ slot) [] = none
next_link length (s ∷ slot) (a ∷ suba) = if leb length a then some s else next_link length slot suba

-- The new `vstart`; `none` is `false`.
unfoldable pub first_next_sub_avail : List Level → ℕ → Option ℕ
unfolding next_link
first_next_sub_avail [] length = none
first_next_sub_avail (f ∷ way) length =
    elim (next_link length (drop f.ppos f.slot) (drop (suc f.ppos) f.suba)) [
      | some vstart ↦ some vstart
      | none ↦ first_next_sub_avail way length
    ]

-- The loop of `lookup_smallest_va`: the area with its leaf, or NULL in the inner option.
unfoldable pub lookup_rounds :
    ℕ → (h : ℕ) → Bpn h → ℕ → ℕ → ℕ → Option (Option (VmapArea × List VmapArea))
unfolding bpt_lookup_lowest_leaf leaf_get_va_cond first_next_sub_avail wanted_length
lookup_rounds zero h n size align vstart = some none
lookup_rounds (suc rounds) h n size align vstart =
    elim (bpt_lookup_lowest_leaf h n (wanted_length size align) vstart) [
      | none ↦ none
      | some (way, leaf) ↦ elim (leaf_get_va_cond leaf size align vstart) [
        | some va ↦ some (some (va, leaf))
        | none ↦ elim (first_next_sub_avail way (wanted_length size align)) [
          | none ↦ some none
          | some vstart' ↦ lookup_rounds rounds h n size align vstart'
        ]
      ]
    ]

unfoldable pub lookup_smallest_va :
    (h : ℕ) → Bpn h → ℕ → ℕ → ℕ → Option (Option (VmapArea × List VmapArea))
unfolding lookup_rounds
lookup_smallest_va h n size align vstart = lookup_rounds 2 h n size align vstart

-- The loop of `lin_lookup_smallest_va` over the areas of a leaf.
unfoldable pub lin_leaf : List VmapArea → ℕ → ℕ → ℕ → Option VmapArea
unfolding va_size wanted_length is_within_this_va
lin_leaf [] size align vstart = none
lin_leaf (va ∷ n) size align vstart =
    if ltb (va_size va) (wanted_length size align)
    then lin_leaf n size align vstart
    else if is_within_this_va va size align vstart
    then some va
    else lin_leaf n size align vstart

-- Over the list of the leaves.
unfoldable pub lin_lookup_smallest_va :
    List (List VmapArea) → ℕ → ℕ → ℕ → Option (VmapArea × List VmapArea)
unfolding lin_leaf
lin_lookup_smallest_va [] size align vstart = none
lin_lookup_smallest_va (n ∷ leaves) size align vstart = elim (lin_leaf n size align vstart) [
  | some va ↦ some (va, n)
  | none ↦ lin_lookup_smallest_va leaves size align vstart
]

-- The leaves in the order of the list `head` of the root.
unfoldable pub leaves : (h : ℕ) → Bpn h → List (List VmapArea)
leaves zero n = n ∷ []
leaves (suc h) n = flat (map (leaves h) n.subl)
