-- ===== src/Vm/Delete/Shape.antt =====
-- Nodes with enough entries whose links have their greatest free sizes.
use libalgo.Common.{ℕ, zero, suc, ◌≤◌, ◌≡◌, sym, ap, ◌∙◌, List, [], ◌∷◌, map, length}
use libalgo.Btree.Arrays.{Every}
use libalgo.Vm.{va_size}
use libalgo.Vm.Search.{max_entries}
use libalgo.Vm.Node.{Bpn, min_entries, bpn_max_avail}
use libalgo.Vm.Node.Avail.{areas, greatest, HasAvail, bpn_max_avail-greatest}

-- At least `low` and at most 23 entries, one link more than keys, the greatest free size of each
-- link, and at least 11 entries in all nodes below.
abbrev pub IsKept : ℕ → (h : ℕ) → Bpn h → Type 0
IsKept low zero n = (low ≤ length n) × (length n ≤ max_entries)
IsKept low (suc h) n =
    (low ≤ length n.slot)
    × (length n.slot ≤ max_entries)
    × (length n.subl ≡ suc (length n.slot))
    × (n.suba ≡ map (bpn_max_avail h) n.subl)
    × Every (IsKept min_entries h) n.subl

abbrev pub IsKeptChild : (h : ℕ) → Bpn h → Type 0
IsKeptChild h c = IsKept min_entries h c

pub kept-HasAvail : (low h : ℕ) (n : Bpn h) → IsKept low h n → HasAvail h n
kept-HasAvail low zero n p = tt
kept-HasAvail low (suc h) n p = (p.3, every h (λ c q. kept-HasAvail min_entries h c q) n.subl p.4)
  where
    every :
        (h : ℕ)
        → ((c : Bpn h) → IsKeptChild h c → HasAvail h c)
        → (cs : List (Bpn h)) → Every (IsKeptChild h) cs
        → Every (HasAvail h) cs
    every h f [] e = tt
    every h f (c ∷ cs) e = (f c e.0, every h f cs e.1)

-- Nodes with the same areas have the same greatest free size.
pub areas-max_avail :
    (low low' h : ℕ) (n m : Bpn h)
    → IsKept low h n
    → IsKept low' h m
    → areas h n ≡ areas h m
    → bpn_max_avail h n ≡ bpn_max_avail h m
areas-max_avail low low' h n m p q e =
    bpn_max_avail-greatest h n (kept-HasAvail low h n p)
    ∙ ap (λ xs. greatest (map va_size xs)) e
    ∙ sym (bpn_max_avail-greatest h m (kept-HasAvail low' h m q))
