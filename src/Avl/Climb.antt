-- ===== src/Avl/Climb.antt =====
-- The climb of `do_fix_balance` after an insertion, and the rotation at its end.
use libalgo.Common.{
  ℕ, suc, ◌≡◌, refl, List, [], ◌∷◌, ◌++◌, max, arith, Option, some, sym, ◌∙◌, ap, subst, inl, inr,
  ◌⊎◌, order, lt, eq, gt,
}
use libalgo.Common.Int.{ℤ, pos, negsuc, ◌+ℤ◌, ◌-ℤ◌}
use libalgo.Tree.{node, left_of, right_of, plug}
use libalgo.Tree.Keys.{before, after, entries-plug}
use libalgo.Avl.{
  AvlNode, AvlPath, verdict, unbalanced, balanced, climb, fixed, pivot, do_fix_balance, do_pivot,
  finish,
}
use libalgo.Avl.Balance.{height, IsBf, IsAvl, Holds, plug-IsAvl}
use libalgo.Avl.Pivot.{keys, Tilted, Lopsided, right_heavy, left_heavy, rotate-Rebalances}

-- What one step of the climb meets: `b'` is the new balance factor of a node whose right subtree
-- has grown to the height `hr`.
data RightStep (b' : ℤ) (hl hr : ℕ) : Type 0 where
  over : verdict b' ≡ unbalanced → b' ≡ pos 2 → hr ≡ suc (suc hl) → RightStep b' hl hr
  even : verdict b' ≡ balanced → b' ≡ pos 0 → hr ≡ hl → RightStep b' hl hr
  grown : verdict b' ≡ climb → b' ≡ pos 1 → hr ≡ suc hl → RightStep b' hl hr

right_step : (b : ℤ) (hl h : ℕ) → IsBf b hl h → RightStep (b +ℤ pos 1) hl (suc h)
right_step b hl h v = elim (order hl h) [
  | lt p ↦ over (unfold verdict ◌+ℤ◌ in ground arith) (unfold ◌+ℤ◌ in ground arith) (omega arith)
  | eq p ↦ grown (unfold verdict ◌+ℤ◌ in ground arith) (unfold ◌+ℤ◌ in ground arith) (omega arith)
  | gt p ↦ even (unfold verdict ◌+ℤ◌ in ground arith) (unfold ◌+ℤ◌ in ground arith) (omega arith)
]

-- The same from the left: `b'` is the new balance factor where the left subtree has grown to `hl`.
data LeftStep (b' : ℤ) (hl hr : ℕ) : Type 0 where
  over : verdict b' ≡ unbalanced → b' ≡ negsuc 1 → hl ≡ suc (suc hr) → LeftStep b' hl hr
  even : verdict b' ≡ balanced → b' ≡ pos 0 → hl ≡ hr → LeftStep b' hl hr
  grown : verdict b' ≡ climb → b' ≡ negsuc 0 → hl ≡ suc hr → LeftStep b' hl hr

left_step : (b : ℤ) (h hr : ℕ) → IsBf b h hr → LeftStep (b -ℤ pos 1) (suc h) hr
left_step b h hr v = elim (order hr h) [
  | lt p ↦ over (unfold verdict ◌-ℤ◌ in ground arith) (unfold ◌-ℤ◌ in ground arith) (omega arith)
  | eq p ↦ grown (unfold verdict ◌-ℤ◌ in ground arith) (unfold ◌-ℤ◌ in ground arith) (omega arith)
  | gt p ↦ even (unfold verdict ◌-ℤ◌ in ground arith) (unfold ◌-ℤ◌ in ground arith) (omega arith)
]

keys-plug : (p : AvlPath) (t u : AvlNode) → keys t ≡ keys u → keys (plug p t) ≡ keys (plug p u)
keys-plug p t u e =
    entries-plug (λ (b : ℤ). tt) p t
    ∙ ap (λ xs. before (λ (b : ℤ). tt) p ++ (xs ++ after (λ (b : ℤ). tt) p)) e
    ∙ sym (entries-plug (λ (b : ℤ). tt) p u)

-- The insertion ends with 1 and an AVL tree that has the given keys.
pub record Finished (ks : List (ℕ × Unit {0})) (out : Option (ℕ × AvlNode)) : Type 0 where
  pub tree : AvlNode
  pub runs : out ≡ some (1, tree)
  pub avl : IsAvl tree
  pub order : keys tree ≡ ks

pivot-Finished :
    (u : AvlNode) (p : AvlPath) {h h' : ℕ}
    → Lopsided u h
    → h ≡ h'
    → Holds p h'
    → Finished (keys (plug p u)) (finish (pivot u p))
unfolding finish do_pivot
pivot-Finished u p {h} s e holds =
    let t = rotate-Rebalances s in
    record {
      tree = plug p t.tree;
      runs = rw (t.runs, finish);
      avl = plug-IsAvl p t.tree t.avl (subst (Holds p) (sym (t.high ∙ e)) holds);
      order = keys-plug p t.tree u t.order;
    }

fixed-Finished :
    (t : AvlNode) (p : AvlPath) {h : ℕ}
    → IsAvl t
    → height t ≡ h
    → Holds p h
    → Finished (keys (plug p t)) (finish (fixed (plug p t)))
unfolding finish
fixed-Finished t p a e holds = record {
  tree = plug p t;
  runs = refl;
  avl = plug-IsAvl p t a (subst (Holds p) (sym e) holds);
  order = refl;
}

-- The balance factor of the frame does not show in the keys.
same_keys :
    {out : Option (ℕ × AvlNode)} (p : AvlPath) (t u : AvlNode)
    → keys t ≡ keys u
    → Finished (keys (plug p t)) out
    → Finished (keys (plug p u)) out
same_keys {out} p t u e x = subst (λ ks. Finished ks out) (keys-plug p t u e) x

tilted : (f : AvlNode) (h hl : ℕ) → Tilted f ⊎ (h ≡ 0) → h ≡ suc hl → Tilted f
tilted f h hl (inl t) e = t
tilted f h hl (inr z) e = absurd (omega arith)

-- The climb from a subtree that has grown from the height `h` by one.
pub climb-Finished :
    (p : AvlPath) (f : AvlNode) (h : ℕ)
    → IsAvl f
    → height f ≡ suc h
    → Tilted f ⊎ (h ≡ 0)
    → Holds p h
    → Finished (keys (plug p f)) (finish (do_fix_balance f p))
unfolding do_fix_balance plug
climb-Finished [] f h a e t holds = fixed-Finished f [] a refl tt
climb-Finished (right_of l k b ∷ p) f h a e t (v, al, holds) =
    let u = node l k (b +ℤ pos 1) f in
    same_keys p u (node l k b f) refl (elim (right_step b (height l) h v) [
      | over ev eb eh ↦
          rw (ev, do_fix_balance)
            (pivot-Finished u p {h = suc (suc (height l))}
              (rw eb (right_heavy l k f al a (tilted f h (height l) t (omega arith)) (e ∙ eh)))
              (omega arith) holds)
      | even ev eb eh ↦
          rw (ev, do_fix_balance)
            (fixed-Finished u p (al, rw eb (omega arith), a) (omega arith) holds)
      | grown ev eb eh ↦
          rw (ev, do_fix_balance)
            (climb-Finished p u (suc (max (height l) h)) (al, rw eb (omega arith), a) (omega arith)
              (inl (omega arith)) holds)
    ])
climb-Finished (left_of k b r ∷ p) f h a e t (v, ar, holds) =
    let u = node f k (b -ℤ pos 1) r in
    same_keys p u (node f k b r) refl (elim (left_step b h (height r) v) [
      | over ev eb eh ↦
          rw (ev, do_fix_balance)
            (pivot-Finished u p {h = suc (suc (height r))}
              (rw eb (left_heavy f k r a ar (tilted f h (height r) t (omega arith)) (e ∙ eh)))
              (omega arith) holds)
      | even ev eb eh ↦
          rw (ev, do_fix_balance)
            (fixed-Finished u p (a, rw eb (omega arith), ar) (omega arith) holds)
      | grown ev eb eh ↦
          rw (ev, do_fix_balance)
            (climb-Finished p u (suc (max h (height r))) (a, rw eb (omega arith), ar) (omega arith)
              (inl (omega arith)) holds)
    ])
