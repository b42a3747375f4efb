-- ===== src/Splay/Loop.antt =====
-- The invariant of the loop of `top_down_splay`, and one step of the loop.
use libalgo.Common.{
  ℕ, ◌<◌, ◌≡◌, List, [], ◌∷◌, ◌++◌, Option, ltb, Bool-cases, ltb→lt, inl, inr, sym, ap, ◌∙◌,
  append_assoc,
}
use libalgo.Tree.{leaf, node, left_of, right_of}
use libalgo.Tree.Sorted
use libalgo.Tree.Sorted.{Below, Above, IsSorted}
use libalgo.Tree.Keys.{before, after}
use libalgo.Tree.{entries}
use libalgo.Splay.{
  Sizes, SplayNode, SplayPath, Splayed, stop, or_break, recompute, left_pivot, right_pivot,
  step_left, step_right,
}

abbrev pub size_of : Sizes → ℕ
size_of a = a.size

-- The keys with their sizes, from left to right.
abbrev pub items : SplayNode → List (ℕ × ℕ)
items = entries size_of

abbrev pub left_keys : SplayPath → List (ℕ × ℕ)
left_keys = before size_of

abbrev pub right_keys : SplayPath → List (ℕ × ℕ)
right_keys = after size_of

-- Not NULL.
abbrev pub IsNode : SplayNode → Type 0
IsNode leaf = ⊥
IsNode (node l k a r) = Unit

module _ (v : ℕ) (ks : List (ℕ × ℕ)) where
  -- The loop invariant: the left tree lies below `v`, the right tree above it, and the three
  -- trees hold `ks` in order.
  pub record Loop (ls : SplayPath) (t : SplayNode) (rs : SplayPath) : Type 0 where
    pub low : Below v (left_keys ls)
    pub high : Above v (right_keys rs)
    pub open_right : right_keys ls ≡ []
    pub open_left : left_keys rs ≡ []
    pub keys : left_keys ls ++ (items t ++ right_keys rs) ≡ ks
    pub sorted : IsSorted (items t)

  -- How the loop ends.
  pub data Ends : Option Splayed → Type 0 where
    ends :
        (l : SplayNode) (k : ℕ) (a : Sizes) (r : SplayNode) (ls rs : SplayPath)
        → Loop ls (node l k a r) rs
        → Below v (items l)
        → Above v (items r)
        → Ends (stop ls (node l k a r) rs)

  same_items :
      {ls rs : SplayPath} (t u : SplayNode) → items u ≡ items t → Loop ls t rs → Loop ls u rs
  same_items {ls} {rs} t u e i = record {
    low = i.low;
    high = i.high;
    open_right = i.open_right;
    open_left = i.open_left;
    keys = rw e i.keys;
    sorted = rw e i.sorted;
  }

  module _ (ls rs : SplayPath) (l : SplayNode) (k : ℕ) (a : Sizes) (r : SplayNode) where
    go_left : v < k → Loop ls (node l k a r) rs → Loop ls l (left_of k a r ∷ rs)
    unfolding before after
    go_left h i =
        let t = Sorted.split (items l) (k, a.size) (items r) i.sorted in
        record {
          low = i.low;
          high = (
            h,
            Sorted.Above-append v (items r) (right_keys rs)
                (Sorted.Above-lt v k (items r) h t.above) i.high,
          );
          open_right = i.open_right;
          open_left = i.open_left;
          keys = sym (ap (λ xs. left_keys ls ++ xs) (append_assoc (items l) _ _)) ∙ i.keys;
          sorted = t.left;
        }

    go_right : k < v → Loop ls (node l k a r) rs → Loop (right_of l k a ∷ ls) r rs
    unfolding before after
    go_right h i =
        let t = Sorted.split (items l) (k, a.size) (items r) i.sorted in
        record {
          low = Sorted.Below-append v (left_keys ls) (items l ++ (k, a.size) ∷ []) i.low (
              Sorted.Below-append v (items l) ((k, a.size) ∷ [])
                (Sorted.Below-lt k v (items l) h t.below) (h, tt));
          high = i.high;
          open_right = i.open_right;
          open_left = i.open_left;
          keys = simp append_assoc (simp append_assoc at i.keys);
          sorted = t.right;
        }

    pub stop_here : v ≡ k → Loop ls (node l k a r) rs → Ends (stop ls (node l k a r) rs)
    stop_here e i =
        let t = Sorted.split (items l) (k, a.size) (items r) i.sorted in
        ends l k a r ls rs i (rw e t.below) (rw e t.above)

  pub stop_left :
      (ls rs : SplayPath) (k : ℕ) (a : Sizes) (r : SplayNode)
      → v < k
      → Loop ls (node leaf k a r) rs
      → Ends (stop ls (node leaf k a r) rs)
  stop_left ls rs k a r h i =
      ends leaf k a r ls rs i tt (Sorted.Above-lt v k (items r) h i.sorted.0)

  pub stop_right :
      (ls rs : SplayPath) (l : SplayNode) (k : ℕ) (a : Sizes)
      → k < v
      → Loop ls (node l k a leaf) rs
      → Ends (stop ls (node l k a leaf) rs)
  stop_right ls rs l k a h i =
      let t = Sorted.split (items l) (k, a.size) [] i.sorted in
      ends l k a leaf ls rs i (Sorted.Below-lt k v (items l) h t.below) tt

  -- After a rotation the loop breaks at a NULL link, or goes on below it.
  or_break_left :
      (ls rs : SplayPath) (l : SplayNode) (k : ℕ) (a : Sizes) (r : SplayNode) (far : Option Splayed)
      → v < k
      → Loop ls (node l k a r) rs
      → (IsNode l → Loop ls l (left_of k a r ∷ rs) → Ends far)
      → Ends (or_break l (stop ls (node l k a r) rs) far)
  unfolding or_break
  or_break_left ls rs leaf k a r far h i on_far = stop_left ls rs k a r h i
  or_break_left ls rs (node ll lk la lr) k a r far h i on_far =
      on_far tt (go_left ls rs (node ll lk la lr) k a r h i)

  or_break_right :
      (ls rs : SplayPath) (l : SplayNode) (k : ℕ) (a : Sizes) (r : SplayNode) (far : Option Splayed)
      → k < v
      → Loop ls (node l k a r) rs
      → (IsNode r → Loop (right_of l k a ∷ ls) r rs → Ends far)
      → Ends (or_break r (stop ls (node l k a r) rs) far)
  unfolding or_break
  or_break_right ls rs l k a leaf far h i on_far = stop_right ls rs l k a h i
  or_break_right ls rs l k a (node rl rk ra rr) far h i on_far =
      on_far tt (go_right ls rs l k a (node rl rk ra rr) h i)

  -- A step of the loop, given how the rest of the loop ends.
  module _ (ls rs : SplayPath) (l : SplayNode) (k : ℕ) (a : Sizes) (m : SplayNode) (j : ℕ)
      (b : Sizes) (r : SplayNode) (next far : Option Splayed) where
    pub step_left-Ends :
        v < j
        → Loop ls (node (node l k a m) j b r) rs
        → (Loop ls (node l k a m) (left_of j b r ∷ rs) → Ends next)
        → (IsNode l
            → Loop ls l
                (left_of k (record a { max_size = b.max_size }) (node m j (recompute m b r) r) ∷ rs)
            → Ends far)
        → Ends (step_left v l k next (right_pivot l k a m j b r) ls rs far)
    unfolding step_left right_pivot
    step_left-Ends h i on_next on_far =
        let b' = recompute m b r in
        let a' = record a { max_size = b.max_size } in
        let rotated =
          same_items (node (node l k a m) j b r) (node l k a' (node m j b' r))
            (sym (append_assoc (items l) _ _)) i in
        elim (Bool-cases (ltb v k)) [
          | inr e ↦ rw e (on_next (go_left ls rs (node l k a m) j b r h i))
          | inl e ↦
              rw e (or_break_left ls rs l k a' (node m j b' r) far (ltb→lt v k e) rotated on_far)
        ]

    pub step_right-Ends :
        k < v
        → Loop ls (node l k a (node m j b r)) rs
        → (Loop (right_of l k a ∷ ls) (node m j b r) rs → Ends next)
        → (IsNode r
            → Loop
                (right_of (node l k (recompute l a m) m) j (record b { max_size = a.max_size })
                  ∷ ls)
                r
                rs
            → Ends far)
        → Ends (step_right v r j next (left_pivot l k a m j b r) ls rs far)
    unfolding step_right left_pivot
    step_right-Ends h i on_next on_far =
        let a' = recompute l a m in
        let b' = record b { max_size = a.max_size } in
        let rotated =
          same_items (node l k a (node m j b r)) (node (node l k a' m) j b' r)
            (append_assoc (items l) _ _) i in
        elim (Bool-cases (ltb j v)) [
          | inr e ↦ rw e (on_next (go_right ls rs l k a (node m j b r) h i))
          | inl e ↦
              rw e (or_break_right ls rs (node l k a' m) j b' r far (ltb→lt j v e) rotated on_far)
        ]
