-- ===== src/Bplus/Root/Validity.antt =====
-- Valid B+ trees, and the insertion into them.
use libalgo.Common.{
  ℕ, zero, suc, ◌^◌, ◌<◌, ◌≡◌, refl, sym, ap, ◌∙◌, [], ◌∷◌, ◌++◌, append-nil, Option, none, some,
  true, Bool-cases, inl, inr, arith, subst,
}
use libalgo.Common.Int.{ℤ}
use libalgo.Tree.Sorted.{find, insert}
use libalgo.Btree.{array_insert}
use libalgo.Bplus.{BpNode, Record, entries, is_bpn_full, bpn_halves, insert_from}
use libalgo.Bplus.Chain.{Items}
use libalgo.Bplus.Node.{items, IsNode, bpn_halves-Halved}
use libalgo.Bplus.Insert.{code, Inserted}
use libalgo.Bplus.Insert.Split.{bpn_split_lem}
use libalgo.Bplus.Insert.Round.{full_entries, room_entries, entries-most, insert_from-Inserted}
use libalgo.Bplus.Root.{Bpt, bpn_split_root, planted, bpt_po_insert}

-- The fewest entries of a root.
abbrev pub least : ℕ → ℕ
least zero = 0
least (suc h) = 1

-- The bound of the type of the keys.
abbrev pub key_bound : ℕ
key_bound = 2 ^ 64

abbrev pub IsValid : Bpt → Type 0
IsValid t = IsNode (least t.height) 0 key_bound t.height t.root

abbrev pub bpt_items : Bpt → Items
bpt_items t = items t.height t.root

abbrev pub BptInserted : Record → Items → Option (ℤ × Bpt) → Type 0
BptInserted r xs none = ⊥
BptInserted r xs (some (out, t)) =
    IsValid t × (bpt_items t ≡ insert r.0 r.1 xs) × (out ≡ code (find r.0 xs))

planted-Inserted :
    (h : ℕ) (r : Record) (xs : Items) (o : Option (ℤ × BpNode h))
    → Inserted (least h) 0 key_bound h r xs o
    → BptInserted r xs (planted h o)
unfolding planted
planted-Inserted h r xs none p = p
planted-Inserted h r xs (some (out, n)) p = p

bpn_split_root-halves :
    (h : ℕ) (n : BpNode h)
    → bpn_split_root h n ≡ (let (a, k, b) = bpn_halves h n in some (k ∷ [], a ∷ b ∷ []))
unfolding bpn_split_root array_insert
bpn_split_root-halves h n = bpn_split_lem h 0 [] (n ∷ []) n (omega arith)

insert_grown :
    (t : Bpt) (r : Record) (n : BpNode (suc t.height))
    → is_bpn_full t.height t.root ≡ true
    → bpn_split_root t.height t.root ≡ some n
    → bpt_po_insert t r ≡ planted (suc t.height) (insert_from (suc t.height) n r)
unfolding bpt_po_insert
insert_grown t r n f e = rw (bpt_po_insert, f, e) refl

-- On a valid tree and a record whose key fits a machine word, bpt_po_insert does not crash, and
-- leaves a valid tree: with the record in its place in the order of the keys and 0 returned when
-- no record had its key, else with the records that it had and -1 returned.
pub bpt_po_insert-BptInserted :
    (t : Bpt) (r : Record)
    → IsValid t
    → r.0 < key_bound
    → BptInserted r (bpt_items t) (bpt_po_insert t r)
unfolding bpt_po_insert entries
bpt_po_insert-BptInserted t r p l = elim (Bool-cases (is_bpn_full h t.root)) [
  | inr f ↦
      rw (bpt_po_insert, f)
        (planted-Inserted h r (bpt_items t) (insert_from h t.root r) (
          insert_from-Inserted h (least h) 0 key_bound t.root r p
            (room_entries h t.root f (entries-most h (least h) 0 key_bound t.root p)) (omega arith)
            l))
  | inl f ↦
      let hv = bpn_halves-Halved h (least h) 0 key_bound t.root p (full_entries h t.root f) in
      subst (λ o. BptInserted r (bpt_items t) o)
        (sym (insert_grown t r (k ∷ [], a ∷ b ∷ []) f (bpn_split_root-halves h t.root)))
        (planted-Inserted (suc h) r (bpt_items t) (insert_from (suc h) (k ∷ [], a ∷ b ∷ []) r) (
          subst
            (λ xs. Inserted 1 0 key_bound (suc h) r xs (insert_from (suc h) (k ∷ [], a ∷ b ∷ []) r))
            (ap (λ z. items h a ++ z) (append-nil (items h b)) ∙ sym hv.4)
            (insert_from-Inserted (suc h) 1 0 key_bound (k ∷ [], a ∷ b ∷ []) r
              (omega arith, omega arith, (hv.0, hv.1, hv.2, hv.3)) (omega arith) (omega arith) l)))
]
  where
    h : ℕ
    h = t.height

    a : BpNode h
    a = (bpn_halves h t.root).0

    k : ℕ
    k = (bpn_halves h t.root).1

    b : BpNode h
    b = (bpn_halves h t.root).2
