-- ===== src/Hash/Loops.antt =====
-- libhash/src/hash.c: the operations over the whole table, which is not NULL. Each loop has fuel.
pub mod Destroy
pub mod Rehash
use libalgo.Common.{
  ℕ, zero, suc, List, [], ◌∷◌, Option, none, some, Bool, true, false, ◌==◌, length,
}
use libalgo.Common.Int.{ℤ}
use libalgo.Hash.{HashEntry, HashTable, hash_function, hash_add, hash_del, chain_at, set_chain}

module _ {ℓ} {A : Type ℓ} where
  -- The table after a call whose code is dropped.
  unfoldable pub kept : HashTable A → ℕ × Option (HashTable A) → HashTable A
  kept h (r, none) = h
  kept h (r, some h') = h'

  -- Deletes the first entry of a chain as long as there is one; `none` says the fuel ran out.
  unfoldable pub clear_chain : ℕ → ℕ → HashTable A → Option (HashTable A)
  unfolding kept hash_del
  clear_chain zero i h = none
  clear_chain (suc fuel) i h = elim (chain_at h i) [
    | [] ↦ some h
    | e ∷ es ↦ clear_chain fuel i (kept h (hash_del (some h) (some e.key)))
  ]

  -- The loop of `hash_destroy` over the `n` chains from `i` on.
  unfoldable pub clear_from : ℕ → ℕ → ℕ → HashTable A → Option (HashTable A)
  unfolding clear_chain
  clear_from zero fuel i h = some h
  clear_from (suc n) fuel i h = elim (clear_chain fuel i h) [
    | none ↦ none
    | some h' ↦ clear_from n fuel (suc i) (set_chain h' i [])
  ]

  -- The table as it is when `hash_destroy` frees it.
  unfoldable pub hash_destroy : ℕ → HashTable A → Option (HashTable A)
  unfolding clear_from
  hash_destroy fuel h = clear_from (length h.table) fuel 0 h

  unfoldable pub hash_resize : Option (HashTable A) → ℤ → ℕ × Option (HashTable A)
  hash_resize h size = (0, h)

-- How a call of `hash_rehash` goes: it returns 0 with a table, reads an entry that it has freed, or
-- is still running when the fuel is spent.
pub data Rehashed {ℓ} (A : Type ℓ) : Type ℓ where
  returned : HashTable A → Rehashed A
  used_after_free : Rehashed A
  running : Rehashed A

module _ {ℓ} {A : Type ℓ} where
  -- The loop over the chain of `e`, whose `next` links lead to `es`. The loop never moves on from
  -- `e`; once `e` is deleted, its test of `e`'s link reads freed memory.
  unfoldable pub rehash_chain :
      ℕ → Bool → ℕ → HashEntry A → List (HashEntry A) → HashTable A → Rehashed A
  unfolding hash_function hash_add
  rehash_chain zero room now e es h = running
  rehash_chain (suc fuel) room now e es h = elim (e.index == hash_function e.key h.hash_size) [
    | true ↦ elim es [ [] ↦ returned h | f ∷ fs ↦ rehash_chain fuel room now e (f ∷ fs) h ]
    | false ↦
        let (r, h') = hash_add room now (some h) (some e.key) e.value in
        elim r [
          | zero ↦ elim es [
            | [] ↦ returned (kept h (zero, h'))
            | f ∷ fs ↦ rehash_chain fuel room now e (f ∷ fs) (kept h (zero, h'))
          ]
          | suc k ↦ used_after_free
        ]
  ]

  -- The loop of `hash_rehash` over the chains from `i` on, up to the end or to an empty chain.
  unfoldable pub rehash_from : ℕ → ℕ → Bool → ℕ → ℕ → HashTable A → Rehashed A
  unfolding rehash_chain
  rehash_from zero fuel room now i h = returned h
  rehash_from (suc n) fuel room now i h = elim (chain_at h i) [
    | [] ↦ returned h
    | e ∷ es ↦ elim (rehash_chain fuel room now e es h) [
      | returned h' ↦ rehash_from n fuel room now (suc i) h'
      | used_after_free ↦ used_after_free
      | running ↦ running
    ]
  ]

  unfoldable pub hash_rehash : ℕ → Bool → ℕ → HashTable A → Rehashed A
  unfolding rehash_from
  hash_rehash fuel room now h = rehash_from (length h.table) fuel room now 0 h
