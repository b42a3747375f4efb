-- ===== src/Vm/Node.antt =====
-- vm/vm.h and vm/vm_ops.c: the nodes of the tree of free areas. A leaf is the list of its areas; an
-- internal node has its keys, the greatest free size below each link, and the links. The height of
-- the subtree is in the type. `info.parent` is not kept, since a node is reached through its parent.
pub mod Avail
use libalgo.Common.{
  ℕ, zero, suc, ◌+◌, ◌-◌, ◌/◌, ◌%◌, List, [], ◌∷◌, ◌++◌, map, Option, none, some, Bool, ltb, ◌==◌,
  if◌then◌else◌, length,
}
use libalgo.Vm.{VmapArea, va_size}
use libalgo.Vm.Search
use libalgo.Vm.Search.{PosCc, max_entries}

pub record Internal (C : Type 0) : Type 0 where
  pub slot : List ℕ
  pub suba : List ℕ
  pub subl : List C

abbrev pub Bpn : ℕ → Type 0
Bpn zero = List VmapArea
Bpn (suc h) = Internal (Bpn h)

-- MIN_ENTRIES_EXTER and MIN_ENTRIES_INTER.
abbrev pub min_entries : ℕ
min_entries = 11

unfoldable pub entries : (h : ℕ) → Bpn h → ℕ
entries zero n = length n
entries (suc h) n = length n.slot

-- bpn_get_key at each position.
unfoldable pub keys_of : (h : ℕ) → Bpn h → List ℕ
keys_of zero n = map (λ va. va.va_start) n
keys_of (suc h) n = n.slot

unfoldable pub is_bpn_full : (h : ℕ) → Bpn h → Bool
unfolding entries
is_bpn_full h n = entries h n == max_entries

unfoldable pub is_bpn_gt_min : (h : ℕ) → Bpn h → Bool
unfolding entries
is_bpn_gt_min h n = ltb min_entries (entries h n)

unfoldable pub bpn_bin_search : (h : ℕ) → Bpn h → ℕ → ℕ × PosCc
unfolding keys_of Search.bpn_bin_search
bpn_bin_search h n key = Search.bpn_bin_search (keys_of h n) key

-- The loops of `bpn_max_avail`, from the greatest size so far.
unfoldable pub avail_loop : ℕ → List ℕ → ℕ
avail_loop avail [] = avail
avail_loop avail (a ∷ suba) = avail_loop (if ltb avail a then a else avail) suba

unfoldable pub bpn_max_avail : (h : ℕ) → Bpn h → ℕ
unfolding avail_loop va_size
bpn_max_avail zero n = avail_loop 0 (map va_size n)
bpn_max_avail (suc h) n = avail_loop 0 n.suba
