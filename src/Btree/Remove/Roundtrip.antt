-- ===== src/Btree/Remove/Roundtrip.antt =====
-- bt_remove after bt_insert.
use libalgo.Common.{ℕ, ◌≡◌, ap, ◌∙◌, [], ◌∷◌, Option, none, some, arith}
use libalgo.Common.Int.{ℤ, pos}
use libalgo.Tree.Sorted.{find, insert, erase}
use libalgo.Btree.{Bt, bt_insert}
use libalgo.Btree.Weave.{Items}
use libalgo.Btree.Split.{code}
use libalgo.Btree.Root.{bt_items, IsValid, BtInserted, bt_insert-Inserted}
use libalgo.Btree.Remove.{bt_remove}
use libalgo.Btree.Remove.Removed.{answer}
use libalgo.Btree.Remove.Root.{BtRemoved, bt_remove-BtRemoved}

erase-insert : (v : ℕ) (xs : Items) → find v xs ≡ none → erase v (insert v tt xs) ≡ xs
unfolding find erase insert
erase-insert v [] e = ground arith
erase-insert v (x ∷ xs) e = ground (arith, e, erase-insert v xs)

find_new : (v : ℕ) (xs : Items) → find v xs ≡ none → find v (insert v tt xs) ≡ some tt
unfolding find insert
find_new v [] e = ground arith
find_new v (x ∷ xs) e = ground (arith, e, find_new v xs)

abbrev pub Restores : Items → Option (ℤ × Bt) → Type 0
Restores xs none = ⊥
Restores xs (some (r, t)) = IsValid t × (r ≡ pos 0) × (bt_items t ≡ xs)

abbrev pub InsertThenRemove : ℕ → Items → Option (ℤ × Bt) → Type 0
InsertThenRemove v xs none = ⊥
InsertThenRemove v xs (some (r, t)) = (r ≡ pos 0) × Restores xs (bt_remove t v)

-- On a valid B-tree without the key, bt_insert returns 0, and bt_remove of the key then returns 0
-- and leaves a valid B-tree with the keys from before.
pub bt_remove-bt_insert :
    (t : Bt) (v : ℕ)
    → IsValid t
    → find v (bt_items t) ≡ none
    → InsertThenRemove v (bt_items t) (bt_insert t v)
bt_remove-bt_insert t v p e = go (bt_insert t v) (bt_insert-Inserted t v p)
  where
    back :
        (xs : Items) (o : Option (ℤ × Bt))
        → xs ≡ insert v tt (bt_items t)
        → BtRemoved v xs o
        → Restores (bt_items t) o
    back xs none i q = q
    back xs (some (r, u)) i q = (
      q.0,
      q.2 ∙ ap answer (ap (find v) i ∙ find_new v (bt_items t) e),
      q.1 ∙ ap (erase v) i ∙ erase-insert v (bt_items t) e,
    )

    go : (o : Option (ℤ × Bt)) → BtInserted v (bt_items t) o → InsertThenRemove v (bt_items t) o
    go none q = q
    go (some (r, u)) q =
        (q.2 ∙ ap code e, back (bt_items u) (bt_remove u v) q.1 (bt_remove-BtRemoved u v q.0))
