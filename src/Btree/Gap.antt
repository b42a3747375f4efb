-- ===== src/Btree/Gap.antt =====
-- The gap that a key falls into, among the slots of a node with children.
use libalgo.Common.{
  ℕ, suc, ◌<◌, ◌≡◌, ap, ◌∙◌, List, [], ◌∷◌, ◌++◌, some, true, false, ltb, length, arith, Bool-cases,
  inl, inr,
}
use libalgo.Tree.Sorted.{
  Below, Above, IsSorted, find, insert, split, Above-parts, Above-lt, Below-lt, Below-append,
  insert_here, insert_right, find_here, find_right,
}
use libalgo.Btree.{is_at}
use libalgo.Btree.Index.{rank, Greater, IsRising}
use libalgo.Btree.Weave.{Items, weave, before, after}

Greater-Above :
    (s : ℕ) (ss : List ℕ) (cs : List Items)
    → length cs ≡ suc (length ss)
    → Above s (weave ss cs)
    → Greater s ss
Greater-Above s [] cs l a = tt
Greater-Above s (x ∷ ss) [] l a = absurd (omega (arith, l))
Greater-Above s (x ∷ ss) (c ∷ cs) l a =
    let p : Above s c × ((s < x) × Above s (weave ss cs)) =
      Above-parts s c ((x, tt) ∷ weave ss cs) a in
    (p.1.0, Greater-Above s ss cs (omega (arith, l)) p.1.1)

-- The slots of a node with sorted items rise.
pub weave-IsRising :
    (ss : List ℕ) (cs : List Items)
    → length cs ≡ suc (length ss)
    → IsSorted (weave ss cs)
    → IsRising ss
weave-IsRising [] cs l w = tt
weave-IsRising (s ∷ ss) [] l w = absurd (omega (arith, l))
weave-IsRising (s ∷ ss) (c ∷ cs) l w =
    let t = split c (s, tt) (weave ss cs) w in
    (
      Greater-Above s ss cs (omega (arith, l)) t.above,
      weave-IsRising ss cs (omega (arith, l)) t.right,
    )

pub before-Below :
    (v : ℕ) (ss : List ℕ) (cs : List Items)
    → length cs ≡ suc (length ss)
    → IsSorted (weave ss cs)
    → Below v (before (rank v ss) ss cs)
unfolding rank
before-Below v [] cs l w = tt
before-Below v (s ∷ ss) [] l w = absurd (omega (arith, l))
before-Below v (s ∷ ss) (c ∷ cs) l w = elim (Bool-cases (ltb s v)) [
  | inl h ↦
      let t = split c (s, tt) (weave ss cs) w in
      rw h (
        Below-append v c ((s, tt) ∷ before (rank v ss) ss cs)
          (Below-lt s v c (ground arith) t.below)
          (ground arith, before-Below v ss cs (omega (arith, l)) t.right))
  | inr h ↦ rw h tt
]

pub after-Above :
    (v : ℕ) (ss : List ℕ) (cs : List Items)
    → length cs ≡ suc (length ss)
    → IsSorted (weave ss cs)
    → is_at ss (rank v ss) v ≡ false
    → Above v (after (rank v ss) ss cs)
unfolding rank is_at
after-Above v [] cs l w n = tt
after-Above v (s ∷ ss) [] l w n = absurd (omega (arith, l))
after-Above v (s ∷ ss) (c ∷ cs) l w n =
    let t = split c (s, tt) (weave ss cs) w in
    elim (Bool-cases (ltb s v)) [
      | inl h ↦ rw h (after-Above v ss cs (omega (arith, l)) t.right (ground (arith, n, h)))
      | inr h ↦
          let lt_s : v < s = ground (arith, n, h) in
          rw h (lt_s, Above-lt v s (weave ss cs) lt_s t.above)
    ]

-- A key in a slot: insertion changes nothing, and lookup finds it.
pub weave-present :
    (v : ℕ) (ss : List ℕ) (cs : List Items)
    → length cs ≡ suc (length ss)
    → IsSorted (weave ss cs)
    → is_at ss (rank v ss) v ≡ true
    → (insert v tt (weave ss cs) ≡ weave ss cs) × (find v (weave ss cs) ≡ some tt)
unfolding rank is_at
weave-present v [] cs l w n = absurd (ground (arith, n))
weave-present v (s ∷ ss) [] l w n = absurd (omega (arith, l))
weave-present v (s ∷ ss) (c ∷ cs) l w n =
    let t = split c (s, tt) (weave ss cs) w in
    elim (Bool-cases (ltb s v)) [
      | inl h ↦
          let u = weave-present v ss cs (omega (arith, l)) t.right (ground (arith, n, h)) in
          (
            insert_right v (s, tt) (weave ss cs) tt c (ground arith) t.below
                ∙ ap (λ z. c ++ ((s, tt) ∷ z)) (u.0),
            find_right v (s, tt) (weave ss cs) c (ground arith) t.below ∙ u.1,
          )
      | inr h ↦
          let e : v ≡ s = ground (arith, n, h) in
          (
            insert_here v (s, tt) (weave ss cs) tt c e t.below,
            find_here v (s, tt) (weave ss cs) c e t.below,
          )
    ]
