-- ===== src/Hash/Create.antt =====
-- Creation of the table.
use libalgo.Common.{
  ℕ, zero, suc, ◌≡◌, refl, List, [], Option, none, some, true, arith, replicate, get_or-replicate,
  length-replicate,
}
use libalgo.Common.Int.{ℤ, pos, negsuc}
use libalgo.Hash.{Str, HashEntry, HashTable, hash_create, hash_lookup, hash_function, chain_at}
use libalgo.Hash.Chain.{find}
use libalgo.Hash.Table.{IsChain, IsValid, hash_lookup-find}

module _ {ℓ} (A : Type ℓ) where
  -- What `hash_create` answers for a size, when there is memory.
  abbrev pub Created : ℤ → Option (HashTable A) → Type ℓ
  Created (negsuc n) out = out ≡ none
  Created (pos zero) out = out ≡ none
  Created (pos (suc n)) out =
      (h : HashTable A) × (out ≡ some h)
      × (h.hash_size ≡ suc n)
      × IsValid h
      × ((q : Str) → hash_lookup (some h) (some q) ≡ none)

  -- hash_create with memory refuses a size that is not positive with NULL; else it returns a valid
  -- table of that size in which every lookup finds nothing.
  pub hash_create-Created : (size : ℤ) → Created size (hash_create true size)
  unfolding hash_create find
  hash_create-Created (negsuc n) = refl
  hash_create-Created (pos zero) = refl
  hash_create-Created (pos (suc n)) =
      (h, refl, refl, (omega arith, length-replicate (suc n) [], chains), look)
    where
      h : HashTable A
      h = record { hash_size = suc n; table = replicate (suc n) [] }

      chains : (i : ℕ) → IsChain (suc n) i (chain_at h i)
      chains i = rw (get_or-replicate {A = List (HashEntry A)} (suc n) i []) (tt, tt)

      look : (q : Str) → hash_lookup (some h) (some q) ≡ none
      look q =
          rw
            (
              hash_lookup-find h q,
              get_or-replicate {A = List (HashEntry A)} (suc n) (hash_function q (suc n)) [],
            )
            refl
