-- ===== src/Vm/Split.antt =====
-- vm/vm.c: the split of a full node, with the greatest free sizes of its halves.
pub mod Kept
use libalgo.Common.{
  ℕ, zero, suc, ◌+◌, ◌-◌, List, [], ◌∷◌, Option, none, some, length, get_or, set, take, drop, ltb,
  if◌then◌else◌,
}
use libalgo.Btree.{array_insert}
use libalgo.Bplus.{split}
use libalgo.Vm.Search.{max_entries}
use libalgo.Vm.Node.{Bpn, Internal, keys_of, bpn_max_avail}

abbrev pub max_children : ℕ
max_children = 24

-- `bpn_split_external` and `bpn_split_internal`, with the key for the parent.
unfoldable pub bpn_halves : (h : ℕ) → Bpn h → Bpn h × ℕ × Bpn h
unfolding split keys_of
bpn_halves zero n =
    let r_entries = split max_entries in
    let l_entries = max_entries - r_entries in
    let right = take r_entries (drop l_entries n) in
    (take l_entries n, get_or (keys_of 0 right) 0 0, right)
bpn_halves (suc h) n =
    let r_entries = split max_entries - 1 in
    let l_entries = max_entries - (r_entries + 1) in
    (
      record {
        slot = take l_entries n.slot;
        suba = take (l_entries + 1) n.suba;
        subl = take (l_entries + 1) n.subl;
      },
      get_or n.slot l_entries 0,
      record {
        slot = take r_entries (drop (l_entries + 1) n.slot);
        suba = take (r_entries + 1) (drop (l_entries + 1) n.suba);
        subl = take (r_entries + 1) (drop (l_entries + 1) n.subl);
      },
    )

-- `bpn_split` of the child `n` at `pindex` of the parent; `none` is BUG().
unfoldable pub bpn_split : (h : ℕ) → Internal (Bpn h) → ℕ → Bpn h → Option (Internal (Bpn h))
unfolding bpn_halves array_insert bpn_max_avail
bpn_split h p pindex n =
    let (left, split_key, right) = bpn_halves h n in
    if ltb pindex max_entries
    then if ltb (suc pindex) max_children
      then some (record {
        slot = array_insert p.slot pindex split_key;
        suba =
            set (array_insert p.suba pindex (bpn_max_avail h left)) (suc pindex)
              (bpn_max_avail h right);
        subl = array_insert (set p.subl pindex left) (suc pindex) right;
      })
      else none
    else none

-- The new root has a link, whose greatest free size calloc has set to 0.
unfoldable pub bpn_split_root : (h : ℕ) → Bpn h → Option (Internal (Bpn h))
unfolding bpn_split
bpn_split_root h root = bpn_split h (record { slot = []; suba = 0 ∷ []; subl = root ∷ [] }) 0 root
