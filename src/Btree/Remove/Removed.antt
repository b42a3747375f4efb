-- ===== src/Btree/Remove/Removed.antt =====
-- What a removal makes of a node, and its return from a child.
use libalgo.Common.{
  ℕ, zero, suc, ◌-◌, ◌<◌, ◌≤◌, ◌≡◌, refl, sym, ap, ◌∙◌, List, [], ◌∷◌, ◌++◌, some, none, Option,
  length, set, arith,
}
use libalgo.Common.Int.{ℤ, pos, negsuc}
use libalgo.Tree.Sorted.{find, erase, erase_gap}
use libalgo.Btree.{BtNode, array_remove, relink}
use libalgo.Btree.Weave.{Items}
use libalgo.Btree.Items.{items, Shape}
use libalgo.Btree.Spot.{Spot, Spot-find}
use libalgo.Btree.Remove.{min_node_slots}

-- What the call returns, after what the key led to.
abbrev pub answer : Option {0} Unit → ℤ
answer none = negsuc 0
answer (some u) = pos 0

abbrev pub Removed : ℕ → (h : ℕ) → ℕ → Items → Option (ℤ × BtNode h) → Type 0
Removed low h v xs none = ⊥
Removed low h v xs (some (r, n)) =
    Shape low h n × (items h n ≡ erase v xs) × (r ≡ answer (find v xs))

-- A slot can go.
abbrev pub Spare : ℕ → (h : ℕ) → BtNode h → Type 0
Spare low zero n = low ≤ length n - 1
Spare low (suc h) n = low < length n.0

pub Spot-erase :
    {v : ℕ} {all front xs back : Items} (s : Spot v all front xs back) (ys : Items)
    → ys ≡ erase v xs
    → front ++ (ys ++ back) ≡ erase v all
Spot-erase {v} {all} {front} {xs} {back} s ys e =
    ap (λ z. front ++ (z ++ back)) e
    ∙ sym (erase_gap v front xs back s.front_Below s.back_Above)
    ∙ ap (λ z. erase v z) (sym s.whole)

pub length-array_remove :
    {A : Type 0} (xs : List A) (i : ℕ)
    → i < length xs
    → suc (length (array_remove xs i)) ≡ length xs
unfolding array_remove
length-array_remove [] i l = absurd (omega (arith, l))
length-array_remove (x ∷ xs) zero l = refl
length-array_remove (x ∷ xs) (suc i) l = ap suc (length-array_remove xs i (omega (arith, l)))

module _ (low h v : ℕ) (all : Items) where
  pub relink-Removed :
      (slot : List ℕ) (links : List (BtNode h)) (j : ℕ) (c : BtNode h) (front back : Items)
      (out : Option (ℤ × BtNode h))
      → (s : Spot v all front (items h c) back)
      → ((m : BtNode h) → items (suc h) (slot, set links j m) ≡ front ++ (items h m ++ back))
      → ((m : BtNode h) → Shape min_node_slots h m → Shape low (suc h) (slot, set links j m))
      → Removed min_node_slots h v (items h c) out
      → Removed low (suc h) v all (relink h slot links j out)
  unfolding relink
  relink-Removed slot links j c front back none s fm sm o = o
  relink-Removed slot links j c front back (some (r, m)) s fm sm o =
      (sm m (o.0), fm m ∙ Spot-erase s (items h m) (o.1), o.2 ∙ ap answer (sym (Spot-find s)))
