-- ===== src/Hash/Loops/Rehash.antt =====
-- When `hash_rehash` comes back.
use libalgo.Common.{
  ℕ, zero, suc, ◌+◌, ◌≡◌, refl, sym, ap, ◌∙◌, List, [], ◌∷◌, Bool, true, false, arith, subst,
  length, get_or, ◌==◌, ==_iff, if◌then◌else◌,
}
use libalgo.Hash.{HashEntry, HashTable, hash_function, chain_at}
use libalgo.Hash.Chain.{All}
use libalgo.Hash.Table.{AtHome, IsValid}
use libalgo.Hash.Loops.{returned, running, rehash_chain, rehash_from, hash_rehash}

module _ {ℓ} {A : Type ℓ} where
  -- Every chain before the first empty one has one entry.
  abbrev pub single : List (List (HashEntry A)) → Bool
  single [] = true
  single ([] ∷ cs) = true
  single ((e ∷ []) ∷ cs) = single cs
  single ((e ∷ f ∷ es) ∷ cs) = false

  -- On the chain of an entry at home the loop writes nothing, and ends if the chain has one entry.
  pub rehash_chain-one :
      (fuel : ℕ) (room : Bool) (now : ℕ) (e : HashEntry A) (h : HashTable A)
      → (e.index == hash_function e.key h.hash_size) ≡ true
      → rehash_chain (suc fuel) room now e [] h ≡ returned h
  unfolding rehash_chain
  rehash_chain-one fuel room now e h q = rw (rehash_chain, q) refl

  pub rehash_chain-more :
      (fuel : ℕ) (room : Bool) (now : ℕ) (e f : HashEntry A) (es : List (HashEntry A))
      (h : HashTable A)
      → (e.index == hash_function e.key h.hash_size) ≡ true
      → rehash_chain fuel room now e (f ∷ es) h ≡ running
  unfolding rehash_chain
  rehash_chain-more zero room now e f es h q = refl
  rehash_chain-more (suc fuel) room now e f es h q =
      rw (rehash_chain, q) (rehash_chain-more fuel room now e f es h q)

  first :
      (h : HashTable A) (i : ℕ) (es : List (HashEntry A)) (cs : List (List (HashEntry A)))
      → ((k : ℕ) → chain_at h (i + k) ≡ get_or (es ∷ cs) k [])
      → chain_at h i ≡ es
  first h i es cs c = ap (λ j. chain_at h j) (omega arith) ∙ c 0

  home_index :
      (h : HashTable A) (i : ℕ) (e : HashEntry A) (es : List (HashEntry A))
      → IsValid h
      → chain_at h i ≡ e ∷ es
      → (e.index == hash_function e.key h.hash_size) ≡ true
  home_index h i e es valid c =
      let at : (e.index ≡ i) × (hash_function e.key h.hash_size ≡ i) =
        (subst (λ cs. All (AtHome h.hash_size i) cs) c (valid.2 i).0).0 in
      (==_iff e.index (hash_function e.key h.hash_size)).1 (at.0 ∙ sym at.1)

  pub rehash_from-single :
      (cs : List (List (HashEntry A))) (fuel : ℕ) (room : Bool) (now i : ℕ) (h : HashTable A)
      → IsValid h
      → ((k : ℕ) → chain_at h (i + k) ≡ get_or cs k [])
      → rehash_from (length cs) (suc fuel) room now i h
        ≡ (if single cs then returned h else running)
  unfolding rehash_from
  rehash_from-single [] fuel room now i h valid c = refl
  rehash_from-single ([] ∷ cs) fuel room now i h valid c = rw (rehash_from, first h i [] cs c) refl
  rehash_from-single ((e ∷ []) ∷ cs) fuel room now i h valid c =
      rw
        (
          rehash_from,
          first h i (e ∷ []) cs c,
          rehash_chain-one fuel room now e h (home_index h i e [] valid (first h i (e ∷ []) cs c)),
        )
        (rehash_from-single cs fuel room now (suc i) h valid
          (λ k. ap (λ j. chain_at h j) (omega arith) ∙ c (suc k)))
  rehash_from-single ((e ∷ f ∷ es) ∷ cs) fuel room now i h valid c =
      rw
        (
          rehash_from,
          first h i (e ∷ f ∷ es) cs c,
          rehash_chain-more (suc fuel) room now e f es h
              (home_index h i e (f ∷ es) valid (first h i (e ∷ f ∷ es) cs c)),
        )
        refl

  -- hash_rehash of a valid table, with any fuel but 0, leaves the table alone and returns where every
  -- chain before the first empty one has a single entry; else it runs on.
  pub hash_rehash-single :
      (fuel : ℕ) (room : Bool) (now : ℕ) (h : HashTable A)
      → IsValid h
      → hash_rehash (suc fuel) room now h ≡ (if single h.table then returned h else running)
  unfolding hash_rehash
  hash_rehash-single fuel room now h valid =
      rehash_from-single h.table fuel room now 0 h valid (λ k. ap (λ j. chain_at h j) (omega arith))
