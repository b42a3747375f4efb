-- ===== src/Splay/Keys.antt =====
-- `top_down_splay` and the order of the keys with their sizes.
use libalgo.Common.{
  ℕ, ◌≡◌, refl, List, [], ◌∷◌, ◌++◌, Option, none, some, ◌∙◌, append_assoc, append-nil, order, lt,
  eq, gt, lt→ltb, le→not_ltb, arith,
}
use libalgo.Tree.{leaf, node, left_of, right_of, plug}
use libalgo.Tree.Sorted.{Below, Above, IsSorted, Below-append, Above-append}
use libalgo.Tree.Keys.{before, after}
use libalgo.Splay.{
  Sizes, SplayNode, SplayPath, Splayed, recompute, splay_loop, assemble, climbed, assembled,
  top_down_splay,
}
use libalgo.Splay.Loop.{
  items, size_of, IsNode, Loop, Ends, ends, stop_here, stop_left, stop_right, step_left-Ends,
  step_right-Ends,
}

module _ (v : ℕ) (ks : List (ℕ × ℕ)) where
  -- From a node the loop reaches a break, and never a NULL root.
  splay_loop-Ends :
      (t : SplayNode) (ls rs : SplayPath)
      → IsNode t
      → Loop v ks ls t rs
      → Ends v ks (splay_loop v t ls rs)
  unfolding splay_loop
  splay_loop-Ends leaf ls rs n i = absurd n
  splay_loop-Ends (node leaf k a leaf) ls rs n i = elim (order v k) [
    | lt h ↦ stop_left v ks ls rs k a leaf h i
    | eq e ↦ stop_here v ks ls rs leaf k a leaf e i
    | gt h ↦ stop_right v ks ls rs leaf k a h i
  ]
  splay_loop-Ends (node (node ll lk la lr) k a leaf) ls rs n i = elim (order v k) [
    | lt h ↦ rw (lt→ltb v k h) (
        step_left-Ends v ks ls rs ll lk la lr k a leaf _ _ h i
          (splay_loop-Ends (node ll lk la lr) ls _ tt) (splay_loop-Ends ll ls _))
    | eq e ↦
        rw (le→not_ltb v k (omega arith)) (stop_here v ks ls rs (node ll lk la lr) k a leaf e i)
    | gt h ↦ rw (le→not_ltb v k (omega arith)) (stop_right v ks ls rs (node ll lk la lr) k a h i)
  ]
  splay_loop-Ends (node leaf k a (node rl rk ra rr)) ls rs n i = elim (order v k) [
    | gt h ↦ rw (lt→ltb k v h) (
        step_right-Ends v ks ls rs leaf k a rl rk ra rr _ _ h i
          (splay_loop-Ends (node rl rk ra rr) _ rs tt) (splay_loop-Ends rr _ rs))
    | eq e ↦
        rw (le→not_ltb k v (omega arith)) (stop_here v ks ls rs leaf k a (node rl rk ra rr) e i)
    | lt h ↦ rw (le→not_ltb k v (omega arith)) (stop_left v ks ls rs k a (node rl rk ra rr) h i)
  ]
  splay_loop-Ends (node (node ll lk la lr) k a (node rl rk ra rr)) ls rs n i =
      let l = node ll lk la lr in
      let r = node rl rk ra rr in
      elim (order v k) [
        | lt h ↦ rw (lt→ltb v k h) (
            step_left-Ends v ks ls rs ll lk la lr k a r _ _ h i
              (splay_loop-Ends (node ll lk la lr) ls _ tt) (splay_loop-Ends ll ls _))
        | gt h ↦
            rw (le→not_ltb v k (omega arith), lt→ltb k v h)
              (step_right-Ends v ks ls rs l k a rl rk ra rr _ _ h i
                (splay_loop-Ends (node rl rk ra rr) _ rs tt) (splay_loop-Ends rr _ rs))
        | eq e ↦
            rw (le→not_ltb v k (omega arith), le→not_ltb k v (omega arith))
              (stop_here v ks ls rs l k a r e i)
      ]

items-assemble :
    (p : SplayPath) (t : SplayNode)
    → items (assemble p t) ≡ before size_of p ++ (items t ++ after size_of p)
unfolding assemble before after
items-assemble [] t = simp append-nil
items-assemble (left_of k a r ∷ p) t =
    items-assemble p (node t k (recompute t a r) r) ∙ simp append_assoc
items-assemble (right_of l k a ∷ p) t =
    items-assemble p (node l k (recompute l a t) t) ∙ simp append_assoc

climbed-size :
    (p : SplayPath) (l : SplayNode) (a : Sizes) (r : SplayNode) → (climbed p l a r).size ≡ a.size
unfolding climbed
climbed-size [] l a r = refl
climbed-size (f ∷ p) l a r = refl

-- The tree `out` holds `ks` in order, and its root parts them at `v`.
pub record Parts (v : ℕ) (ks : List (ℕ × ℕ)) (out : Option SplayNode) : Type 0 where
  pub left : SplayNode
  pub key : ℕ
  pub sizes : Sizes
  pub right : SplayNode
  pub runs : out ≡ some (node left key sizes right)
  pub list : items (node left key sizes right) ≡ ks
  pub low : Below v (items left)
  pub high : Above v (items right)

assembled-Parts :
    (v : ℕ) (ks : List (ℕ × ℕ)) (out : Option Splayed)
    → Ends v ks out
    → Parts v ks (elim out [ none ↦ none | some s ↦ assembled s ])
unfolding assembled
assembled-Parts v ks _ (ends l k a r ls rs i low high) =
    let left : items (assemble ls l) ≡ before size_of ls ++ items l =
      rw (items-assemble ls l, i.open_right) (simp append-nil) in
    let right : items (assemble rs r) ≡ items r ++ after size_of rs =
      rw (items-assemble rs r, i.open_left) in
    let same =
      climbed-size rs (assemble ls l) (climbed ls (assemble ls l) a (plug rs r)) (assemble rs r)
      ∙ climbed-size ls (assemble ls l) a (plug rs r) in
    record {
      left = assemble ls l;
      key = k;
      sizes = _;
      right = assemble rs r;
      runs = refl;
      list = rw (left, right, same) (simp append_assoc (simp append_assoc at i.keys));
      low = rw left (Below-append v (before size_of ls) (items l) i.low low);
      high = rw right (Above-append v (items r) (after size_of rs) high i.high);
    }

-- On a tree that is not empty, and in order, `top_down_splay` does not crash. It keeps the keys and
-- their sizes in order, and leaves all lesser keys left of the root and all greater ones right.
pub top_down_splay-Parts :
    (v : ℕ) (t : SplayNode) → IsNode t → IsSorted (items t) → Parts v (items t) (top_down_splay v t)
unfolding top_down_splay
top_down_splay-Parts v t n s =
    assembled-Parts v (items t) (splay_loop v t [] []) (splay_loop-Ends v (items t) t [] [] n start)
  where
    start : Loop v (items t) [] t []
    start =
        unfold before after in
        record {
          low = tt;
          high = tt;
          open_right = refl;
          open_left = refl;
          keys = simp append-nil;
          sorted = s;
        }
