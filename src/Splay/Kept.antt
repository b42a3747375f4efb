-- ===== src/Splay/Kept.antt =====
-- `top_down_splay` and the greatest sizes.
use libalgo.Common.{ℕ, [], ◌∷◌, Option, none, some, ltb, if◌then◌else◌, Bool, true, false}
use libalgo.Tree.{leaf, node, plug}
use libalgo.Splay.{
  Sizes, SplayNode, SplayPath, Splayed, stop, or_break, step_left, step_right, left_pivot,
  right_pivot, splay_loop, assemble, climbed, assembled, top_down_splay,
}
use libalgo.Splay.Augment.{
  IsAugmented, Trimmed, assemble-IsAugmented, recomputed, right_pivot-IsAugmented,
  left_pivot-IsAugmented,
}

-- At the break of the loop everything but the open links is augmented.
abbrev Kept : Option Splayed → Type 0
Kept none = Unit
Kept (some s) = Trimmed s.ltree × IsAugmented s.root × Trimmed s.rtree

if-Kept : (b : Bool) (x y : Option Splayed) → Kept x → Kept y → Kept (if b then x else y)
if-Kept true x y p q = p
if-Kept false x y p q = q

or_break-Kept : (t : SplayNode) (x y : Option Splayed) → Kept x → Kept y → Kept (or_break t x y)
unfolding or_break
or_break-Kept leaf x y p q = p
or_break-Kept (node l k a r) x y p q = q

module _ (v : ℕ) (ls rs : SplayPath) (t : SplayNode) (k : ℕ) (next far : Option Splayed)
    (rotated : SplayNode) where
  step_left-Kept :
      Trimmed ls
      → Trimmed rs
      → IsAugmented rotated
      → Kept next
      → Kept far
      → Kept (step_left v t k next rotated ls rs far)
  unfolding step_left
  step_left-Kept x y a p q =
      if-Kept (ltb v k) _ next (or_break-Kept t (stop ls rotated rs) far (x, a, y) q) p

  step_right-Kept :
      Trimmed ls
      → Trimmed rs
      → IsAugmented rotated
      → Kept next
      → Kept far
      → Kept (step_right v t k next rotated ls rs far)
  unfolding step_right
  step_right-Kept x y a p q =
      if-Kept (ltb k v) _ next (or_break-Kept t (stop ls rotated rs) far (x, a, y) q) p

splay_loop-Kept :
    (v : ℕ) (t : SplayNode) (ls rs : SplayPath)
    → IsAugmented t
    → Trimmed ls
    → Trimmed rs
    → Kept (splay_loop v t ls rs)
unfolding splay_loop right_pivot left_pivot
splay_loop-Kept v leaf ls rs a x y = tt
splay_loop-Kept v (node leaf k a leaf) ls rs h x y = (x, h, y)
splay_loop-Kept v (node (node ll lk la lr) k a leaf) ls rs h x y =
    let turned = right_pivot-IsAugmented ll lk la lr k a leaf h in
    if-Kept (ltb v k) _ _
      (step_left-Kept v ls rs ll lk _ _ _ x y turned
        (splay_loop-Kept v (node ll lk la lr) ls _ h.0 x (tt, y))
        (splay_loop-Kept v ll ls _ turned.0 x (turned.2, y)))
      (x, h, y)
splay_loop-Kept v (node leaf k a (node rl rk ra rr)) ls rs h x y =
    let turned = left_pivot-IsAugmented leaf k a rl rk ra rr h in
    if-Kept (ltb k v) _ _
      (step_right-Kept v ls rs rr rk _ _ _ x y turned
        (splay_loop-Kept v (node rl rk ra rr) _ rs h.2 (tt, x) y)
        (splay_loop-Kept v rr _ rs turned.2 (turned.0, x) y))
      (x, h, y)
splay_loop-Kept v (node (node ll lk la lr) k a (node rl rk ra rr)) ls rs h x y =
    let right_turned = right_pivot-IsAugmented ll lk la lr k a (node rl rk ra rr) h in
    let left_turned = left_pivot-IsAugmented (node ll lk la lr) k a rl rk ra rr h in
    if-Kept (ltb v k) _ _
      (step_left-Kept v ls rs ll lk _ _ _ x y right_turned
        (splay_loop-Kept v (node ll lk la lr) ls _ h.0 x (h.2, y))
        (splay_loop-Kept v ll ls _ right_turned.0 x (right_turned.2, y)))
      (if-Kept (ltb k v) _ _
        (step_right-Kept v ls rs rr rk _ _ _ x y left_turned
          (splay_loop-Kept v (node rl rk ra rr) _ rs h.2 (h.0, x) y)
          (splay_loop-Kept v rr _ rs left_turned.2 (left_turned.0, x) y))
        (x, h, y))

-- The root has the greatest size after the two walks: the last walk that comes to it reads what the
-- other one has left of both subtrees.
assembled-IsAugmented :
    (ls rs : SplayPath) (l : SplayNode) (k : ℕ) (a : Sizes) (r : SplayNode)
    → Trimmed ls
    → IsAugmented (node l k a r)
    → Trimmed rs
    → IsAugmented (
        node
          (assemble ls l)
          k
          (climbed rs (assemble ls l) (climbed ls (assemble ls l) a (plug rs r)) (assemble rs r))
          (assemble rs r))
unfolding assemble climbed plug
assembled-IsAugmented [] [] l k a r x h y = h
assembled-IsAugmented (f ∷ ls) [] l k a r x h y =
    let left = assemble (f ∷ ls) l in
    (assemble-IsAugmented (f ∷ ls) l x h.0, recomputed left a r, h.2)
assembled-IsAugmented ls (f ∷ rs) l k a r x h y =
    let left = assemble ls l in
    let right = assemble (f ∷ rs) r in
    (
      assemble-IsAugmented ls l x h.0,
      recomputed left (climbed ls left a (plug (f ∷ rs) r)) right,
      assemble-IsAugmented (f ∷ rs) r y h.2,
    )

-- Where the tree is not NULL, it is augmented.
abbrev pub EachIsAugmented : Option SplayNode → Type 0
EachIsAugmented none = Unit
EachIsAugmented (some t) = IsAugmented t

-- `top_down_splay` of an augmented tree leaves one.
pub top_down_splay-EachIsAugmented :
    (v : ℕ) (t : SplayNode) → IsAugmented t → EachIsAugmented (top_down_splay v t)
unfolding top_down_splay assembled
top_down_splay-EachIsAugmented v t a =
    whole (splay_loop v t [] []) (splay_loop-Kept v t [] [] a tt tt)
  where
    at_break :
        (ls rs : SplayPath) (t : SplayNode)
        → Trimmed ls
        → IsAugmented t
        → Trimmed rs
        → EachIsAugmented (assembled (record { ltree = ls; root = t; rtree = rs }))
    at_break ls rs leaf x h y = tt
    at_break ls rs (node l k b r) x h y = assembled-IsAugmented ls rs l k b r x h y

    whole :
        (out : Option Splayed)
        → Kept out
        → EachIsAugmented (elim out [ none ↦ none | some s ↦ assembled s ])
    whole none h = tt
    whole (some s) h = at_break s.ltree s.rtree s.root h.0 h.1 h.2
