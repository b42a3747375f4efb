-- ===== src/Btree/Spot.antt =====
-- A child of a node among the items of the node, and what becomes of them when the child is
-- replaced by a node, or by two with a slot between them.
use libalgo.Common.{ℕ, suc, ◌≤◌, ◌≡◌, sym, ap, ◌∙◌, List, ◌∷◌, ◌++◌, map, false, length, set, subst}
use libalgo.Tree.Sorted.{Below, Above, IsSorted, find, insert, find_gap, insert_gap}
use libalgo.Tree.Spec.{IsSorted-parts}
use libalgo.Btree.{BtNode, array_insert, is_at}
use libalgo.Btree.Index.{rank}
use libalgo.Btree.Arrays.{pair_at, length-map, map-set, map-array_insert}
use libalgo.Btree.Weave.{Items, weave, before, after, weave-set, weave-insert}
use libalgo.Btree.Gap.{before-Below, after-Above}
use libalgo.Btree.Items.{items}

-- The items `xs` stand in the items `all` between lesser and greater keys than `v`.
pub record Spot (v : ℕ) (all front xs back : Items) : Type 0 where
  pub whole : all ≡ front ++ (xs ++ back)
  pub front_Below : Below v front
  pub back_Above : Above v back

module _ {v : ℕ} {all front xs back : Items} (s : Spot v all front xs back) where
  pub Spot-IsSorted : IsSorted all → IsSorted xs
  Spot-IsSorted w =
      (IsSorted-parts xs back
        (IsSorted-parts front (xs ++ back) (subst (λ z. IsSorted z) s.whole w)).1).0

  pub Spot-insert : (ys : Items) → ys ≡ insert v tt xs → front ++ (ys ++ back) ≡ insert v tt all
  Spot-insert ys e =
      ap (λ z. front ++ (z ++ back)) e
      ∙ sym (insert_gap v tt front xs back s.front_Below s.back_Above)
      ∙ ap (λ z. insert v tt z) (sym s.whole)

  pub Spot-find : find v all ≡ find v xs
  Spot-find = ap (λ z. find v z) s.whole ∙ find_gap v front xs back s.front_Below s.back_Above

module _ (h : ℕ) (slot : List ℕ) (links : List (BtNode h))
    (l : length links ≡ suc (length slot)) where
  pub items-set :
      (i : ℕ) (n : BtNode h)
      → i ≤ length slot
      → items (suc h) (slot, set links i n)
        ≡ before i slot (map (items h) links) ++ (items h n ++ after i slot (map (items h) links))
  items-set i n b =
      ap (λ z. weave slot z) (map-set (items h) links i n)
      ∙ weave-set i slot (map (items h) links) (items h n) (length-map (items h) links ∙ l) b

  pub items-pair :
      (i k : ℕ) (a b : BtNode h)
      → i ≤ length slot
      → items (suc h) (array_insert slot i k, pair_at links i a b)
        ≡ before i slot (map (items h) links)
          ++ ((items h a ++ ((k, tt) ∷ items h b)) ++ after i slot (map (items h) links))
  items-pair i k a b le =
      ap (λ z. weave (array_insert slot i k) z)
        (map-array_insert (items h) (set links i a) (suc i) b
          ∙ ap (λ z. array_insert z (suc i) (items h b)) (map-set (items h) links i a))
      ∙ weave-insert i slot (map (items h) links) (items h a) (items h b) k
          (length-map (items h) links ∙ l) le

  -- The child that the search leads to.
  pub child-Spot :
      (v : ℕ) (child : BtNode h)
      → IsSorted (items (suc h) (slot, links))
      → is_at slot (rank v slot) v ≡ false
      → rank v slot ≤ length slot
      → set links (rank v slot) child ≡ links
      → Spot v
          (items (suc h) (slot, links))
          (before (rank v slot) slot (map (items h) links))
          (items h child)
          (after (rank v slot) slot (map (items h) links))
  child-Spot v child w n b e = record {
    whole = ap (λ z. items (suc h) (slot, z)) (sym e) ∙ items-set (rank v slot) child b;
    front_Below = before-Below v slot (map (items h) links) (length-map (items h) links ∙ l) w;
    back_Above = after-Above v slot (map (items h) links) (length-map (items h) links ∙ l) w n;
  }
