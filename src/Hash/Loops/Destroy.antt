-- ===== src/Hash/Loops/Destroy.antt =====
-- Emptying the table.
use libalgo.Common.{
  ℕ, zero, suc, ◌+◌, ◌≡◌, ◌<◌, refl, ap, ◌∙◌, List, [], ◌∷◌, some, arith, Bool-cases, inl, inr,
  subst, length, get_or-set, set-set, set_same, get_or-out, length-set, ◌==◌, ==_iff, if◌then◌else◌,
  order, lt, eq, gt,
}
use libalgo.Hash.{
  HashEntry, HashTable, hash_function, hash_del, hash_del_entry, unlink, scan, chain_at, set_chain,
}
use libalgo.Hash.Key.{str_eq_refl}
use libalgo.Hash.Table.{AtHome, IsChain, IsValid, home, set_chain-IsValid}
use libalgo.Hash.Chain.{All}
use libalgo.Hash.Loops.{kept, clear_chain, clear_from, hash_destroy}

module _ {ℓ} {A : Type ℓ} where
  -- Deleting the first key of a chain takes its entry away.
  pub hash_del-head :
      (h : HashTable A) (i : ℕ) (e : HashEntry A) (es : List (HashEntry A))
      → IsValid h
      → chain_at h i ≡ e ∷ es
      → hash_del (some h) (some e.key) ≡ (1, some (set_chain h i es))
  unfolding hash_del hash_del_entry unlink scan
  hash_del-head h i e es valid c =
      ap (λ o. hash_del_entry (some h) (hash_function e.key h.hash_size) o) found
      ∙ ap (λ j. (1, some (set_chain h j es))) home_e.0
    where
      home_e : (e.index ≡ i) × (hash_function e.key h.hash_size ≡ i)
      home_e = (subst (λ cs. All (AtHome h.hash_size i) cs) c (valid.2 i).0).0

      found : scan e.key [] (home h e.key) ≡ some (record { before = []; entry = e; next = es })
      found = rw (home_e.1, c, str_eq_refl e.key) refl

  pub clear_chain-empty :
      (es : List (HashEntry A)) (fuel i : ℕ) (h : HashTable A)
      → IsValid h
      → i < h.hash_size
      → chain_at h i ≡ es
      → length es < fuel
      → clear_chain fuel i h ≡ some (set_chain h i [])
  unfolding clear_chain kept
  clear_chain-empty es zero i h valid l c f = absurd (omega arith)
  clear_chain-empty [] (suc fuel) i h valid l c f =
      rw (c, clear_chain, set_same h.table i [] c) refl
  clear_chain-empty (e ∷ es) (suc fuel) i h valid l c f =
      rw (c, clear_chain, hash_del-head h i e es valid c)
        (clear_chain-empty es fuel i (set_chain h i es)
            (set_chain-IsValid h i es valid l (chain.0.1, chain.1.1)) l
            (get_or-set h.table i i es [] (omega (arith, l, valid.1))
              ∙ rw ((==_iff i i).1 refl) refl)
            (omega (arith, f))
          ∙ ap (λ t. some (record h { table = t })) (set-set h.table i es []))
    where
      chain : IsChain h.hash_size i (e ∷ es)
      chain = subst (λ cs. IsChain h.hash_size i cs) c (valid.2 i)

  -- Clearing the chains from `i` on, those before it being empty.
  pub clear_from-empty :
      (n fuel i : ℕ) (h : HashTable A)
      → IsValid h
      → i + n ≡ length h.table
      → ((j : ℕ) → length (chain_at h j) < fuel)
      → ((j : ℕ) → j < i → chain_at h j ≡ [])
      → (h' : HashTable A) × (clear_from n fuel i h ≡ some h') × ((j : ℕ) → chain_at h' j ≡ [])
  unfolding clear_from
  clear_from-empty zero fuel i h valid l f b = (h, refl, all)
    where
      all : (j : ℕ) → chain_at h j ≡ []
      all j = elim (order j i) [
        | lt p ↦ b j p
        | eq p ↦ get_or-out h.table j [] (omega (arith, l, p))
        | gt p ↦ get_or-out h.table j [] (omega (arith, l, p))
      ]
  clear_from-empty (suc n) fuel i h valid l f b =
      let (h', e, all) =
        clear_from-empty n fuel (suc i) cleared
          (set_chain-IsValid h i [] valid (omega (arith, l, valid.1)) (tt, tt))
          (omega (arith, l, length-set h.table i [])) (λ j. rw (at j) (shorter j))
          (λ j p. rw (at j) (empty j p)) in
      (h', step ∙ e, all)
    where
      cleared : HashTable A
      cleared = set_chain h i []

      at : (j : ℕ) → chain_at cleared j ≡ (if i == j then [] else chain_at h j)
      at j = get_or-set h.table i j [] [] (omega (arith, l))

      shorter : (j : ℕ) → length (if i == j then [] else chain_at h j) < fuel
      shorter j = elim (Bool-cases (i == j)) [
        | inl e ↦ rw e (omega (arith, f j))
        | inr e ↦ rw e (f j)
      ]

      empty : (j : ℕ) → j < suc i → (if i == j then [] else chain_at h j) ≡ []
      empty j p = elim (Bool-cases (i == j)) [
        | inl e ↦ rw e refl
        | inr e ↦ rw e (b j (ground (arith, e, p)))
      ]

      step : clear_from (suc n) fuel i h ≡ clear_from n fuel (suc i) cleared
      step =
          rw
            (
              clear_from,
              clear_chain-empty (chain_at h i) fuel i h valid (omega (arith, l, valid.1)) refl
                  (f i),
              set-set h.table i [] [],
            )
            refl

  -- hash_destroy on a valid table ends with every chain empty, where the fuel exceeds the length of
  -- every chain.
  pub hash_destroy-empty :
      (fuel : ℕ) (h : HashTable A)
      → IsValid h
      → ((j : ℕ) → length (chain_at h j) < fuel)
      → (h' : HashTable A) × (hash_destroy fuel h ≡ some h') × ((j : ℕ) → chain_at h' j ≡ [])
  unfolding hash_destroy
  hash_destroy-empty fuel h valid f =
      clear_from-empty (length h.table) fuel 0 h valid (omega arith) f
        (λ j p. absurd (omega (arith, p)))
