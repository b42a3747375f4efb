-- ===== src/Bplus/Root/Roundtrip.antt =====
-- Operations on a B+ tree one after the other.
use libalgo.Common.{
  ℕ, ◌<◌, ◌≡◌, refl, ap, ◌∙◌, [], ◌∷◌, Option, none, some, true, ◌==◌, if◌then◌else◌, arith,
  Bool-cases, inl, inr,
}
use libalgo.Common.Int.{ℤ, pos}
use libalgo.Tree.Sorted.{find, insert, erase}
use libalgo.Tree.Spec.{find-insert}
use libalgo.Bplus.{Record}
use libalgo.Bplus.Chain.{Items}
use libalgo.Bplus.Delete.Leaf.{record_of}
use libalgo.Bplus.Insert.{code}
use libalgo.Bplus.Root.{Bpt, bpt_po_insert, bpt_lookup, bpt_po_delete}
use libalgo.Bplus.Root.Validity.{
  key_bound, IsValid, bpt_items, BptInserted, bpt_po_insert-BptInserted,
}
use libalgo.Bplus.Root.Lookup.{LookedUp, bpt_lookup-LookedUp}
use libalgo.Bplus.Root.Removal.{BptDeleted, bpt_po_delete-BptDeleted}

erase-insert : (v a : ℕ) (xs : Items) → find v xs ≡ none → erase v (insert v a xs) ≡ xs
unfolding find erase insert
erase-insert v a [] e = ground arith
erase-insert v a (x ∷ xs) e = ground (arith, e, erase-insert v a xs)

find_new : (v a : ℕ) (xs : Items) → find v xs ≡ none → find v (insert v a xs) ≡ some a
find_new v a xs e = find-insert v v a xs e ∙ rw same refl
  where
    same : (v == v) ≡ true
    same = ground arith

-- What `bpt_po_delete` gives of the record `r`, the only one beside `xs`.
abbrev pub GivesBack : Record → Items → Option (Option Record × Bpt) → Type 0
GivesBack r xs none = ⊥
GivesBack r xs (some (out, t)) = IsValid t × (out ≡ some r) × (bpt_items t ≡ xs)

abbrev pub InsertThenDelete : Record → Items → Option (ℤ × Bpt) → Type 0
InsertThenDelete r xs none = ⊥
InsertThenDelete r xs (some (out, t)) = (out ≡ pos 0) × GivesBack r xs (bpt_po_delete t (r.0))

-- On a valid tree without a record of the same key, bpt_po_insert returns 0, and bpt_po_delete of
-- the key then returns the record and leaves a valid tree with the records from before.
pub bpt_po_delete-bpt_po_insert :
    (t : Bpt) (r : Record)
    → IsValid t
    → r.0 < key_bound
    → find r.0 (bpt_items t) ≡ none
    → InsertThenDelete r (bpt_items t) (bpt_po_insert t r)
bpt_po_delete-bpt_po_insert t r p l e = go (bpt_po_insert t r) (bpt_po_insert-BptInserted t r p l)
  where
    back :
        (xs : Items) (o : Option (Option Record × Bpt))
        → xs ≡ insert r.0 r.1 (bpt_items t)
        → BptDeleted r.0 xs o
        → GivesBack r (bpt_items t) o
    back xs none i q = q
    back xs (some (out, t')) i q = (
      q.0,
      q.2 ∙ ap (record_of r.0) (ap (find r.0) i ∙ find_new r.0 r.1 (bpt_items t) e),
      q.1 ∙ ap (erase r.0) i ∙ erase-insert r.0 r.1 (bpt_items t) e,
    )

    go : (o : Option (ℤ × Bpt)) → BptInserted r (bpt_items t) o → InsertThenDelete r (bpt_items t) o
    go none q = q
    go (some (out, t')) q = (
      q.2 ∙ ap code e,
      back (bpt_items t') (bpt_po_delete t' r.0) q.1 (bpt_po_delete-BptDeleted t' r.0 q.0 l),
    )

-- What `bpt_lookup` returns.
abbrev pub Sees : Option {0} Record → Option (ℕ × Option Record) → Type 0
Sees r none = ⊥
Sees r (some (out_pos, out)) = out ≡ r

abbrev pub InsertThenLookup : ℕ → Option {0} Record → Option (ℤ × Bpt) → Type 0
InsertThenLookup w r none = ⊥
InsertThenLookup w r (some (out, t)) = Sees r (bpt_lookup t w)

-- After bpt_po_insert of a record whose key a valid tree does not have, bpt_lookup of the key
-- returns the record, and bpt_lookup of another key the record that the tree had for it, or NULL.
pub bpt_lookup-bpt_po_insert :
    (t : Bpt) (r : Record) (w : ℕ)
    → IsValid t
    → r.0 < key_bound
    → w < key_bound
    → find r.0 (bpt_items t) ≡ none
    → InsertThenLookup w
        (if w == r.0 then some r else record_of w (find w (bpt_items t)))
        (bpt_po_insert t r)
bpt_lookup-bpt_po_insert t r w p l m e = go (bpt_po_insert t r) (bpt_po_insert-BptInserted t r p l)
  where
    seen : Option Record
    seen = if w == r.0 then some r else record_of w (find w (bpt_items t))

    same : record_of w (if w == r.0 then some r.1 else find w (bpt_items t)) ≡ seen
    same = elim (Bool-cases (w == r.0)) [
      | inl h ↦ let k : w ≡ r.0 = ground (arith, h) in rw h (ap (λ z. some (z, r.1)) k)
      | inr h ↦ rw h refl
    ]

    look :
        (xs : Items) (o : Option (ℕ × Option Record))
        → xs ≡ insert r.0 r.1 (bpt_items t)
        → LookedUp w xs o
        → Sees seen o
    look xs none i q = q
    look xs (some (out_pos, out)) i q =
        q ∙ ap (record_of w) (ap (find w) i ∙ find-insert w r.0 r.1 (bpt_items t) e) ∙ same

    go : (o : Option (ℤ × Bpt)) → BptInserted r (bpt_items t) o → InsertThenLookup w seen o
    go none q = q
    go (some (out, t')) q =
        look (bpt_items t') (bpt_lookup t' w) q.1 (bpt_lookup-LookedUp t' w q.0 m)
