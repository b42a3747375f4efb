-- ===== src/Btree/Index.antt =====
-- The search within a node, compared with the number of lesser slots.
use libalgo.Common.{
  ℕ, zero, suc, ◌+◌, ◌-◌, ◌/◌, ◌<◌, ◌≤◌, ◌≡◌, List, [], ◌∷◌, true, ltb, ◌==◌, if◌then◌else◌, length,
  get_or, arith, Bool-cases, inl, inr,
}
use libalgo.Btree.{index_loop, bt_search_node_index}

-- The number of slots before the first that is not less than the key.
unfoldable pub rank : ℕ → List ℕ → ℕ
rank v [] = 0
rank v (s ∷ ss) = if ltb s v then suc (rank v ss) else 0

abbrev pub Greater : ℕ → List ℕ → Type 0
Greater s [] = Unit
Greater s (x ∷ xs) = (s < x) × Greater s xs

abbrev pub IsRising : List ℕ → Type 0
IsRising [] = Unit
IsRising (x ∷ xs) = Greater x xs × IsRising xs

pub rank-le-length : (v : ℕ) (ss : List ℕ) → rank v ss ≤ length ss
unfolding rank
rank-le-length v [] = omega arith
rank-le-length v (s ∷ ss) = ground (arith, rank-le-length v ss)

Greater-get : (s : ℕ) (ss : List ℕ) (m : ℕ) → Greater s ss → m < length ss → s < get_or ss m 0
Greater-get s [] m g h = absurd (omega (arith, h))
Greater-get s (x ∷ ss) zero g h = g.0
Greater-get s (x ∷ ss) (suc m) g h = Greater-get s ss m g.1 (omega (arith, h))

-- A slot is less than the key where its number is less than the rank.
pub rank-below :
    (v : ℕ) (ss : List ℕ) (m : ℕ)
    → IsRising ss
    → m < length ss
    → ltb (get_or ss m 0) v ≡ ltb m (rank v ss)
unfolding rank
rank-below v [] m r h = absurd (omega (arith, h))
rank-below v (s ∷ ss) zero r h = ground arith
rank-below v (s ∷ ss) (suc m) r h =
    ground
      (arith, rank-below v ss m r.1 (omega (arith, h)), Greater-get s ss m r.0 (omega (arith, h)))

-- A slot that has the key has the rank for its number.
pub rank-at :
    (v : ℕ) (ss : List ℕ) (m : ℕ)
    → IsRising ss
    → m < length ss
    → (get_or ss m 0 == v) ≡ true
    → m ≡ rank v ss
unfolding rank
rank-at v [] m r h e = absurd (omega (arith, h))
rank-at v (s ∷ ss) zero r h e = ground arith
rank-at v (s ∷ ss) (suc m) r h e =
    ground
      (arith, rank-at v ss m r.1 (omega (arith, h)) e, Greater-get s ss m r.0 (omega (arith, h)))

pub index_loop-rank :
    (fuel : ℕ) (ss : List ℕ) (v lo hi : ℕ)
    → IsRising ss
    → hi ≤ length ss
    → lo ≤ rank v ss
    → rank v ss ≤ hi
    → hi ≤ lo + fuel
    → index_loop fuel ss v lo hi ≡ rank v ss
unfolding index_loop
index_loop-rank zero ss v lo hi r l a b f = omega arith
index_loop-rank (suc fuel) ss v lo hi r l a b f = elim (Bool-cases (ltb lo hi)) [
  | inr o ↦ rw (o, index_loop) (ground arith)
  | inl o ↦ elim (Bool-cases (get_or ss mid 0 == v)) [
    | inl e ↦ rw (index_loop, o, e) (rank-at v ss mid r (in_range o) e)
    | inr e ↦ elim (Bool-cases (ltb mid (rank v ss))) [
      | inl q ↦
          rw (index_loop, o, e, rank-below v ss mid r (in_range o), q)
            (index_loop-rank fuel ss v (suc mid) hi r l (ground arith) b (ground arith))
      | inr q ↦
          rw (index_loop, o, e, rank-below v ss mid r (in_range o), q)
            (index_loop-rank fuel ss v lo mid r (ground arith) a (ground arith) (ground arith))
    ]
  ]
]
  where
    mid : ℕ
    mid = (lo + hi - 1) / 2

    in_range : ltb lo hi ≡ true → mid < length ss
    in_range o = ground arith

-- On rising slots bt_search_node_index returns the number of slots that are less than the key.
pub bt_search_node_index-rank :
    (ss : List ℕ) (v : ℕ) → IsRising ss → bt_search_node_index ss v ≡ rank v ss
unfolding bt_search_node_index
bt_search_node_index-rank ss v r =
    index_loop-rank (length ss) ss v 0 (length ss) r (omega arith) (omega arith)
      (rank-le-length v ss) (omega arith)
