-- ===== src/Vm/Insert/Root.antt =====
-- bpt_po_insert on the whole tree, with an area that touches no free area.
use libalgo.Common.{
  ℕ, zero, suc, ◌<◌, ◌≡◌, refl, sym, ◌∙◌, List, [], ◌∷◌, append-nil, Option, none, some, Bool-cases,
  inl, inr, arith, subst,
}
use libalgo.Common.Int.{ℤ}
use libalgo.Btree.{array_insert}
use libalgo.Btree.Arrays.{Every}
use libalgo.Vm.{VmapArea}
use libalgo.Vm.Node.{Bpn, Internal, entries, is_bpn_full}
use libalgo.Vm.Node.Avail.{areas}
use libalgo.Vm.Delete.{BptRoot}
use libalgo.Vm.Delete.Shape.{IsKept, IsKeptChild}
use libalgo.Vm.Delete.Root.{least, IsValid, bpt_areas}
use libalgo.Vm.Merge.Across.{Stored}
use libalgo.Vm.Split.{bpn_split_root}
use libalgo.Vm.Split.Kept.{parted, bpn_split-parted, parted-IsKept}
use libalgo.Vm.Insert.{insert_from, settled, bpt_po_insert}
use libalgo.Vm.Insert.Leaf.{IsApart, Put, VmStored}
use libalgo.Vm.Insert.Round.{full_entries, room_entries}
use libalgo.Vm.Insert.Halves.{bpn_halves-IsRanged}
use libalgo.Vm.Insert.Place.{IsRanged}
use libalgo.Vm.Insert.Loop.{insert_from-VmStored}

abbrev pub VmInserted : VmapArea → List VmapArea → Option (ℤ × BptRoot) → Type 0
VmInserted va xs none = ⊥
VmInserted va xs (some (rv, t)) = IsValid t × Put va rv xs (bpt_areas t)

settled-VmInserted :
    (h : ℕ) (va : VmapArea) (n : Bpn h) (o : Option (Stored h))
    → VmStored (least h) h va n o
    → VmInserted va (areas h n) (settled h o)
unfolding settled
settled-VmInserted h va n none r = r
settled-VmInserted h va n (some (rv, todo, climb, n')) (f, k, r, s) =
    subst (λ t. VmInserted va (areas h n) (settled h (some (rv, t, climb, n')))) (sym f) (k, r)

-- A new root above the full one.
module _ (h : ℕ) (va : VmapArea) (n : Bpn h) (kept : IsKept (least h) h n)
    (full : entries h n ≡ 23) where
  abbrev new_root : Internal (Bpn h)
  new_root = record { slot = []; suba = 0 ∷ []; subl = n ∷ [] }

  child : IsKeptChild h n
  unfolding entries
  child = go h n kept full
    where
      go : (h : ℕ) (n : Bpn h) → IsKept (least h) h n → entries h n ≡ 23 → IsKeptChild h n
      go zero n p e = (omega (arith, e), p.1)
      go (suc h) n p e = (omega (arith, e), p.1, p.2, p.3, p.4)

  split_root : bpn_split_root h n ≡ some (parted h 0 new_root n)
  unfolding bpn_split_root
  split_root =
      bpn_split-parted h 0 1 (least h) new_root n (omega arith) (omega arith) refl (λ a. refl)
        (child, tt) refl (omega arith) kept full

  grown :
      IsKept 1 (suc h) (parted h 0 new_root n) × (areas (suc h) (parted h 0 new_root n) ≡ areas h n)
  grown =
      let (k, e) =
        parted-IsKept h 0 1 (least h) new_root n (omega arith) (omega arith) refl (λ a. refl)
          (child, tt) refl (omega arith) kept full in
      (k, e ∙ append-nil (areas h n))

  grown_room : entries (suc h) (parted h 0 new_root n) < 23
  unfolding entries array_insert
  grown_room = omega arith

  grown_IsRanged : (hi : ℕ) → IsRanged 0 hi h n → IsRanged 0 hi (suc h) (parted h 0 new_root n)
  unfolding array_insert
  grown_IsRanged hi p =
      let hv = bpn_halves-IsRanged h (least h) 0 hi n kept p full in (hv.0, hv.1, hv.2, hv.3)

-- On a tree whose nodes have enough entries and keep the greatest free sizes of their links, whose
-- areas are not empty, disjoint, in order and between the keys, and with an area that is not empty
-- and touches none of the tree's, bpt_po_insert does not crash and leaves nodes with enough entries
-- and the greatest free sizes of their links. Where it returns 0, the area stands among the others in
-- the order of the starts and starts in none of them; else it returns -1, the areas are as they were,
-- and the area overlaps one of them.
pub bpt_po_insert-VmInserted :
    (t : BptRoot) (hi : ℕ) (va : VmapArea)
    → IsValid t
    → IsRanged 0 hi t.height t.node
    → Every (IsApart va) (bpt_areas t)
    → va.va_start < va.va_end
    → va.va_start < hi
    → VmInserted va (bpt_areas t) (bpt_po_insert t va)
unfolding bpt_po_insert
bpt_po_insert-VmInserted t hi va p ranged e some_address vh =
    elim (Bool-cases (is_bpn_full h t.node)) [
      | inr f ↦
          rw (bpt_po_insert, f)
            (settled-VmInserted h va t.node (insert_from h va none none t.node) (
              insert_from-VmStored h (least h) 0 hi va none none t.node some_address p
                (room_entries h (least h) t.node p f) e tt tt ranged (omega arith) vh))
      | inl f ↦
          let full = full_entries h t.node f in
          let (k, same) = grown h va t.node p full in
          let n = parted h 0 (new_root h va t.node p full) t.node in
          rw (bpt_po_insert, f, split_root h va t.node p full)
            (subst (λ xs. VmInserted va xs (settled (suc h) (insert_from (suc h) va none none n)))
              same
              (settled-VmInserted (suc h) va n (insert_from (suc h) va none none n) (
                insert_from-VmStored (suc h) 1 0 hi va none none n some_address k
                  (grown_room h va t.node p full) (subst (λ xs. Every (IsApart va) xs) (sym same) e)
                  tt tt (grown_IsRanged h va t.node p full hi ranged) (omega arith) vh)))
    ]
  where
    h : ℕ
    h = t.height
