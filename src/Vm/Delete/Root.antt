-- ===== src/Vm/Delete/Root.antt =====
-- bpt_po_delete on the whole tree.
use libalgo.Common.{
  ℕ, zero, suc, ◌≡◌, refl, sym, List, [], ◌∷◌, append-nil, Option, none, some, arith,
}
use libalgo.Vm.{VmapArea}
use libalgo.Vm.Node.{Bpn}
use libalgo.Vm.Node.Avail.{areas}
use libalgo.Vm.Delete.{Cleared, BptRoot, shrunk, delete_from, bpt_po_delete}
use libalgo.Vm.Delete.Shape.{IsKept, IsKeptChild}
use libalgo.Vm.Delete.Pruned.{Removed, Removed-same, Pruned}
use libalgo.Vm.Delete.Rebalance.{Spare}
use libalgo.Vm.Delete.Loop.{delete_from-Pruned}

-- The fewest entries of a root.
abbrev pub least : ℕ → ℕ
least zero = 0
least (suc h) = 1

-- A tree with enough entries in its nodes, in which each link has its greatest free size.
abbrev pub IsValid : BptRoot → Type 0
IsValid t = IsKept (least t.height) t.height t.node

abbrev pub bpt_areas : BptRoot → List VmapArea
bpt_areas t = areas t.height t.node

abbrev pub VmDeleted : ℕ → List VmapArea → Option (Option VmapArea × BptRoot) → Type 0
VmDeleted key xs none = ⊥
VmDeleted key xs (some (out, t)) = IsValid t × Removed key out xs (bpt_areas t)

fewest : (h : ℕ) (n : Bpn h) → IsKeptChild h n → IsKept (least h) h n
fewest zero n p = (omega arith, p.1)
fewest (suc h) n p = (omega (arith, p.0), p.1, p.2, p.3, p.4)

abbrev Shrunk : List VmapArea → Option BptRoot → Type 0
Shrunk xs none = ⊥
Shrunk xs (some t) = IsValid t × (bpt_areas t ≡ xs)

shrunk-Shrunk : (h : ℕ) (n : Bpn h) → IsKept 0 h n → Shrunk (areas h n) (shrunk h n)
unfolding shrunk
shrunk-Shrunk zero n p = ((p.0, p.1), refl)
shrunk-Shrunk (suc h) n p = go n.slot n.subl n.suba p
  where
    go :
        (slot : List ℕ) (subl : List (Bpn h)) (suba : List ℕ)
        → IsKept 0 (suc h) (record { slot = slot; suba = suba; subl = subl })
        → Shrunk
            (areas (suc h) (record { slot = slot; suba = suba; subl = subl }))
            (shrunk (suc h) (record { slot = slot; suba = suba; subl = subl }))
    go (k ∷ slot) subl suba q = ((omega arith, q.1, q.2, q.3, q.4), refl)
    go [] [] suba q = absurd (omega (arith, q.2))
    go [] (c ∷ d ∷ subl) suba q = absurd (omega (arith, q.2))
    go [] (c ∷ []) suba q = (fewest h c q.4.0, sym (append-nil (areas h c)))

loosen : (h : ℕ) (n : Bpn h) → IsKept (least h) h n → IsKept 0 h n × Spare 0 h n
loosen zero n p = (p, omega arith)
loosen (suc h) n p = ((omega arith, p.1, p.2, p.3, p.4), omega (arith, p.0))

-- On a tree whose nodes have enough entries and keep the greatest free sizes of their links,
-- bpt_po_delete does not crash and leaves such a tree: without one area that starts at the key,
-- which it returns, or with all areas when it returns NULL.
pub bpt_po_delete-VmDeleted :
    (t : BptRoot) (key : ℕ) → IsValid t → VmDeleted key (bpt_areas t) (bpt_po_delete t key)
unfolding bpt_po_delete
bpt_po_delete-VmDeleted t key p =
    let (q, s) = loosen t.height t.node p in
    go (delete_from t.height t.node key) refl (delete_from-Pruned 0 t.height key t.node q q s)
  where
    whole :
        (out : Option VmapArea) (ys : List VmapArea) (o : Option BptRoot)
        → Removed key out (bpt_areas t) ys
        → Shrunk ys o
        → VmDeleted key (bpt_areas t) (elim o [ none ↦ none | some t' ↦ some (out, t') ])
    whole out ys none r s = s
    whole out ys (some t') r s =
        (s.0, Removed-same key out (bpt_areas t) (bpt_areas t) ys (bpt_areas t') refl (sym s.1) r)

    go :
        (o : Option (Cleared t.height))
        → delete_from t.height t.node key ≡ o
        → Pruned 0 t.height key t.node o
        → VmDeleted key (bpt_areas t) (bpt_po_delete t key)
    go none e r = absurd r
    go (some (out, climbs, n)) e (kept, r, same) =
        rw (bpt_po_delete, e)
          (whole out (areas t.height n) (shrunk t.height n) r (shrunk-Shrunk t.height n kept))
