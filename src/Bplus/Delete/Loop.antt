-- ===== src/Bplus/Delete/Loop.antt =====
-- The loop of bpt_po_delete from a node that can lose an entry.
use libalgo.Common.{
  ℕ, zero, suc, ◌<◌, ◌≤◌, ◌≡◌, ◌⊎◌, sym, ◌∙◌, Option, inl, inr, length, subst, arith,
}
use libalgo.Btree.Index.{IsRising}
use libalgo.Vm.Search
use libalgo.Vm.Search.{PosCc, Placed, bpn_bin_search-Placed}
use libalgo.Bplus.{BpNode, Record, bpn_bin_search, keys_of, followed, min_entries}
use libalgo.Bplus.Chain.{Items, Chain-IsRising}
use libalgo.Bplus.Focus.{upper, followed-upper}
use libalgo.Bplus.Leaf.{keys, keys-IsRising}
use libalgo.Bplus.Node.{items, IsNode, IsChild}
use libalgo.Bplus.Delete.{delete_at, delete_round, delete_from}
use libalgo.Bplus.Delete.Pair.{beside, followed-beside}
use libalgo.Bplus.Delete.Leaf.{Deleted, Spare, leaf_remove-Deleted}
use libalgo.Bplus.Delete.Rebalance.{at-Deleted}

pub delete_from-Deleted :
    (h low lo hi v : ℕ) (n : BpNode h)
    → IsNode low lo hi h n
    → Spare low h n
    → lo ≤ v
    → v < hi
    → Deleted low lo hi h v (items h n) (delete_from h n v)
unfolding delete_from delete_round bpn_bin_search keys_of
delete_from-Deleted zero low lo hi v n p q l u =
    leaf_remove-Deleted low lo hi v n (Search.bpn_bin_search (keys n) v) p q
      (bpn_bin_search-Placed (keys n) v (keys-IsRising n p.2))
delete_from-Deleted (suc h) low lo hi v (slot, subl) p q l u =
    subst
      (λ j.
        Deleted low lo hi (suc h) v all (delete_at h (beside found (length slot)) j slot subl go))
      (sym index)
      (at-Deleted low lo hi h v (beside found (length slot)) slot subl go p q l u (near.0)
        (λ a b c r w x y. delete_from-Deleted h min_entries a b v c r w x y) (aside (near.1)))
  where
    all : Items
    all = items (suc h) (slot, subl)

    go : BpNode h → Option (Option Record × BpNode h)
    go n = delete_from h n v

    found : ℕ × PosCc
    found = Search.bpn_bin_search slot v

    rising : IsRising slot
    rising = Chain-IsRising (IsChild h) lo hi slot subl p.2

    placed : Placed slot v found
    placed = bpn_bin_search-Placed slot v rising

    index : followed found ≡ upper v slot
    index = followed-upper slot v found rising placed

    near :
        (beside found (length slot) < length slot)
        × ((followed found ≡ beside found (length slot))
            ⊎ (followed found ≡ suc (beside found (length slot))))
    near = followed-beside slot v found placed (omega (arith, q))

    aside :
        (followed found ≡ beside found (length slot))
          ⊎ (followed found ≡ suc (beside found (length slot)))
        → (upper v slot ≡ beside found (length slot))
          ⊎ (upper v slot ≡ suc (beside found (length slot)))
    aside (inl e) = inl (sym index ∙ e)
    aside (inr e) = inr (sym index ∙ e)
