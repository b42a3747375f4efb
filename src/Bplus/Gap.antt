-- ===== src/Bplus/Gap.antt =====
-- Operations on the records of a node as operations on those of the child that the key belongs to.
use libalgo.Common.{ℕ, ◌<◌, ◌≤◌, ◌≡◌, sym, ap, ◌∙◌, List, [], ◌++◌, append-nil, map}
use libalgo.Tree.Sorted.{find, insert, erase, find_gap, insert_gap, erase_gap}
use libalgo.Bplus.Chain.{Items, flat, Range, Range-Below, Range-Above}
use libalgo.Bplus.Focus.{Focus}

module _ {C : Type 0} {P : ℕ → ℕ → C → Type 0} {f : C → Items} {v lo hi i : ℕ} {ks : List ℕ}
    {cs : List C} (s : Focus P f v lo hi i ks cs) where
  pub Focus-insert :
      (a : ℕ) (ys : Items)
      → ys ≡ insert v a (f s.child)
      → s.front ++ (ys ++ s.back) ≡ insert v a (flat (map f cs))
  Focus-insert a ys e =
      ap (λ z. s.front ++ (z ++ s.back)) e
      ∙ sym (insert_gap v a s.front (f s.child) s.back s.front_Below s.back_Above)
      ∙ ap (λ z. insert v a z) (sym s.whole)

  pub Focus-erase :
      (ys : Items)
      → ys ≡ erase v (f s.child)
      → s.front ++ (ys ++ s.back) ≡ erase v (flat (map f cs))
  Focus-erase ys e =
      ap (λ z. s.front ++ (z ++ s.back)) e
      ∙ sym (erase_gap v s.front (f s.child) s.back s.front_Below s.back_Above)
      ∙ ap (λ z. erase v z) (sym s.whole)

  pub Focus-find : find v (flat (map f cs)) ≡ find v (f s.child)
  Focus-find =
      ap (λ z. find v z) s.whole ∙ find_gap v s.front (f s.child) s.back s.front_Below s.back_Above

-- Two lists with a key between them.
module _ (lo k hi v a : ℕ) (xs ys : Items) (rx : Range lo k xs) (ry : Range k hi ys) where
  pub insert_low : v < k → insert v a xs ++ ys ≡ insert v a (xs ++ ys)
  insert_low l = sym (insert_gap v a [] xs ys tt (Range-Above k hi v ys l ry))

  pub insert_high : k ≤ v → xs ++ insert v a ys ≡ insert v a (xs ++ ys)
  insert_high l =
      ap (λ z. xs ++ z) (sym (append-nil (insert v a ys)))
      ∙ sym (insert_gap v a xs ys [] (Range-Below lo k v xs l rx) tt)
      ∙ ap (λ z. insert v a (xs ++ z)) (append-nil ys)

  pub find_low : v < k → find v (xs ++ ys) ≡ find v xs
  find_low l = find_gap v [] xs ys tt (Range-Above k hi v ys l ry)

  pub find_high : k ≤ v → find v (xs ++ ys) ≡ find v ys
  find_high l =
      ap (λ z. find v (xs ++ z)) (sym (append-nil ys))
      ∙ find_gap v xs ys [] (Range-Below lo k v xs l rx) tt
