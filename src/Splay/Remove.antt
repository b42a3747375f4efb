-- ===== src/Splay/Remove.antt =====
-- `splay_remove_init` against removal from a sorted list.
use libalgo.Common.{
  ℕ, ◌≡◌, refl, List, [], ◌∷◌, ◌++◌, Option, some, sym, ap, ◌∙◌, append_assoc, append-nil, arith,
  subst, ◌==◌, Bool-cases, inl, inr, ==_iff,
}
use libalgo.Tree.{leaf, node}
use libalgo.Tree.Sorted
use libalgo.Tree.Sorted.{Below, Above, IsSorted, erase}
use libalgo.Splay.{Sizes, SplayNode, refit, set_right, join_subtrees, remove_at, splay_remove_init}
use libalgo.Splay.Loop.{items}
use libalgo.Splay.Keys.{top_down_splay-Parts}
use libalgo.Splay.Insert.{items-refit}

-- A run that does not crash, and its tree.
pub record Holds (ks : List (ℕ × ℕ)) (out : Option SplayNode) : Type 0 where
  pub tree : SplayNode
  pub runs : out ≡ some tree
  pub list : items tree ≡ ks

-- Above all its keys, a splay leaves nothing right of the root.
no_right : (v : ℕ) (xs ys : List (ℕ × ℕ)) → Below v (xs ++ ys) → Above v ys → ys ≡ []
no_right v xs [] b a = refl
no_right v xs (y ∷ ys) b a = absurd (omega (arith, (Sorted.Below-parts v xs (y ∷ ys) b).1.0, a.0))

join_subtrees-Holds :
    (val : ℕ) (l r : SplayNode)
    → IsSorted (items l)
    → Below val (items l)
    → Holds (items l ++ items r) (join_subtrees val l r)
unfolding join_subtrees set_right
join_subtrees-Holds val leaf r s low = record { tree = r; runs = refl; list = refl }
join_subtrees-Holds val (node ll lk la lr) r s low =
    let p = top_down_splay-Parts val (node ll lk la lr) tt s in
    let whole = items p.left ++ (p.key, p.sizes.size) ∷ [] in
    let spread : whole ++ items p.right ≡ items (node ll lk la lr) =
      append_assoc (items p.left) _ _ ∙ p.list in
    let none_right =
      no_right val whole (items p.right) (subst (Below val) (sym spread) low) p.high in
    let all : whole ≡ items (node ll lk la lr) =
      sym (ap (λ ys. whole ++ ys) none_right ∙ append-nil whole) ∙ spread in
    rw (p.runs, join_subtrees)
      (record {
        tree = node p.left p.key p.sizes r;
        runs = refl;
        list = sym (append_assoc (items p.left) _ _) ∙ ap (λ xs. xs ++ items r) all;
      })

remove_at-Holds :
    (val : ℕ) (l : SplayNode) (k : ℕ) (a : Sizes) (r : SplayNode)
    → IsSorted (items (node l k a r))
    → Below val (items l)
    → Above val (items r)
    → Holds (erase val (items (node l k a r))) (remove_at val (node l k a r))
unfolding remove_at
remove_at-Holds val l k a r s low high = elim (Bool-cases (val == k)) [
  | inl hit ↦
      let t = Sorted.split (items l) (k, a.size) (items r) s in
      let e = (==_iff val k).0 hit in
      let j = join_subtrees-Holds val l r t.left low in
      rw (hit, j.runs, remove_at)
        (record {
          tree = refit j.tree;
          runs = refl;
          list =
              items-refit j.tree
              ∙ j.list
              ∙ sym (Sorted.erase_here val (k, a.size) (items r) (items l) e t.below);
        })
  | inr miss ↦ rw miss (record {
    tree = node l k a r;
    runs = refl;
    list = sym (
        Sorted.erase_gap val (items l) ((k, a.size) ∷ []) (items r) low high
        ∙ (unfold erase in rw miss));
  })
]

-- `splay_remove_init` does not crash. The tree that it returns holds the old keys and sizes in
-- order, less the given key where it was there.
pub splay_remove_init-Holds :
    (val : ℕ) (root : SplayNode)
    → IsSorted (items root)
    → Holds (erase val (items root)) (splay_remove_init val root)
unfolding splay_remove_init
splay_remove_init-Holds val leaf s = record {
  tree = leaf;
  runs = refl;
  list = unfold erase in refl;
}
splay_remove_init-Holds val (node l k a r) s =
    let p = top_down_splay-Parts val (node l k a r) tt s in
    rw (p.runs, splay_remove_init)
      (subst (λ ks. Holds (erase val ks) (remove_at val (node p.left p.key p.sizes p.right))) p.list
        (remove_at-Holds val p.left p.key p.sizes p.right (subst IsSorted (sym p.list) s) p.low
          p.high))
