-- ===== src/Bplus/Root/Removal.antt =====
-- Deletion from a valid B+ tree.
use libalgo.Common.{
  ℕ, zero, suc, ◌<◌, ◌≡◌, sym, ◌∙◌, [], ◌∷◌, append-nil, Option, none, some, arith,
}
use libalgo.Tree.Sorted.{find, erase}
use libalgo.Bplus.{BpNode, Record}
use libalgo.Bplus.Chain.{Items}
use libalgo.Bplus.Node.{items, IsNode}
use libalgo.Bplus.Delete.{delete_from}
use libalgo.Bplus.Delete.Leaf.{record_of, Deleted, Spare}
use libalgo.Bplus.Delete.Loop.{delete_from-Deleted}
use libalgo.Bplus.Root.{Bpt, bpt_po_delete, shrunk}
use libalgo.Bplus.Root.Validity.{least, key_bound, IsValid, bpt_items}

abbrev pub BptDeleted : ℕ → Items → Option (Option Record × Bpt) → Type 0
BptDeleted v xs none = ⊥
BptDeleted v xs (some (out, t)) =
    IsValid t × (bpt_items t ≡ erase v xs) × (out ≡ record_of v (find v xs))

fewest : (h : ℕ) (n : BpNode h) → IsNode 1 0 key_bound h n → IsNode (least h) 0 key_bound h n
fewest zero n p = (omega arith, p.1, p.2, p.3)
fewest (suc h) n p = p

shrunk-Deleted :
    (h v : ℕ) (xs : Items) (o : Option (Option Record × BpNode h))
    → Deleted 0 0 key_bound h v xs o
    → BptDeleted v xs (shrunk h o)
unfolding shrunk
shrunk-Deleted h v xs none p = p
shrunk-Deleted zero v xs (some (r, n)) p = p
shrunk-Deleted (suc h) v xs (some (r, ([], []))) p = absurd (p.0.2)
shrunk-Deleted (suc h) v xs (some (r, ([], n ∷ m ∷ subl))) p = absurd (p.0.2)
shrunk-Deleted (suc h) v xs (some (r, ([], n ∷ []))) p =
    (fewest h n p.0.2, sym (append-nil (items h n)) ∙ p.1, p.2)
shrunk-Deleted (suc h) v xs (some (r, (k ∷ slot, subl))) p = ((omega arith, p.0.1, p.0.2), p.1, p.2)

loosen :
    (h : ℕ) (n : BpNode h)
    → IsNode (least h) 0 key_bound h n
    → IsNode 0 0 key_bound h n × Spare 0 h n
loosen zero n p = (p, omega arith)
loosen (suc h) n p = ((omega arith, p.1, p.2), omega (arith, p.0))

-- On a valid tree and a key that fits a machine word, bpt_po_delete does not crash, leaves a valid
-- tree with the records but the one with that key, and returns it, NULL when there is none.
pub bpt_po_delete-BptDeleted :
    (t : Bpt) (v : ℕ) → IsValid t → v < key_bound → BptDeleted v (bpt_items t) (bpt_po_delete t v)
unfolding bpt_po_delete
bpt_po_delete-BptDeleted t v p l =
    let (q, s) = loosen t.height t.root p in
    shrunk-Deleted t.height v (bpt_items t) (delete_from t.height t.root v)
      (delete_from-Deleted t.height 0 0 key_bound v t.root q s (omega arith) l)
