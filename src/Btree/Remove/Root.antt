-- ===== src/Btree/Remove/Root.antt =====
-- The whole of bt_remove.
use libalgo.Common.{ℕ, zero, suc, ◌≡◌, refl, sym, [], ◌∷◌, Option, none, some, subst, arith}
use libalgo.Common.Int.{ℤ}
use libalgo.Tree.Sorted.{IsSorted, find, erase}
use libalgo.Tree.Spec.{erase-IsSorted}
use libalgo.Btree.{BtNode, Bt}
use libalgo.Btree.Weave.{Items}
use libalgo.Btree.Items.{Shape}
use libalgo.Btree.Root.{least, bt_items, IsValid}
use libalgo.Btree.Remove.{to_value, remove_from, lowered, bt_remove}
use libalgo.Btree.Remove.Removed.{answer, Removed, Spare}
use libalgo.Btree.Remove.Loop.{remove_from-Removed}

abbrev pub BtRemoved : ℕ → Items → Option (ℤ × Bt) → Type 0
BtRemoved v xs none = ⊥
BtRemoved v xs (some (r, t)) = IsValid t × (bt_items t ≡ erase v xs) × (r ≡ answer (find v xs))

fewest : (h : ℕ) (n : BtNode h) → Shape 15 h n → Shape (least h) h n
fewest zero n p = (omega arith, p.1)
fewest (suc h) n p = (omega (arith, p.0), p.1, p.2, p.3)

lowered-Removed :
    (h v : ℕ) (xs : Items) (o : Option (ℤ × BtNode h))
    → IsSorted xs
    → Removed 0 h v xs o
    → BtRemoved v xs (lowered h o)
unfolding lowered
lowered-Removed h v xs none w p = p
lowered-Removed zero v xs (some (r, n)) w p =
    ((p.0, subst (λ z. IsSorted z) (sym (p.1)) (erase-IsSorted v xs w)), p.1, p.2)
lowered-Removed (suc h) v xs (some (r, ([], []))) w p = absurd (omega (arith, p.0.2))
lowered-Removed (suc h) v xs (some (r, ([], n ∷ m ∷ links))) w p = absurd (omega (arith, p.0.2))
lowered-Removed (suc h) v xs (some (r, ([], n ∷ []))) w p =
    ((fewest h n p.0.3.0, subst (λ z. IsSorted z) (sym (p.1)) (erase-IsSorted v xs w)), p.1, p.2)
lowered-Removed (suc h) v xs (some (r, (s ∷ slot, links))) w p = (
  ((omega arith, p.0.1, p.0.2, p.0.3), subst (λ z. IsSorted z) (sym (p.1)) (erase-IsSorted v xs w)),
  p.1,
  p.2,
)

loosen : (h : ℕ) (n : BtNode h) → Shape (least h) h n → Shape 0 h n × Spare 0 h n
loosen zero n p = (p, omega arith)
loosen (suc h) n p = ((omega arith, p.1, p.2, p.3), omega (arith, p.0))

-- On a valid B-tree bt_remove does not crash and leaves a valid B-tree: it returns -1 and keeps the
-- keys where the given one is not there, else it returns 0 and the tree has the other keys.
pub bt_remove-BtRemoved : (t : Bt) (v : ℕ) → IsValid t → BtRemoved v (bt_items t) (bt_remove t v)
unfolding bt_remove
bt_remove-BtRemoved t v (p, w) =
    let (q, s) = loosen t.height t.root p in
    lowered-Removed t.height v (bt_items t) (remove_from t.height (to_value v) t.root) w
      (remove_from-Removed t.height 0 (to_value v) v t.root q s w refl)
