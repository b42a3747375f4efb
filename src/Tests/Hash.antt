-- ===== src/Tests/Hash.antt =====
-- libhash/src/hash.c on small tables.
use libalgo.Common.{ℕ, zero, suc, ◌≡◌, refl, [], ◌∷◌, none, some, true, arith, length, ◌<◌}
use libalgo.Common.Int.{pos}
use libalgo.Hash.{
  Str, HashEntry, HashTable, hash_function, hash_add, hash_del, hash_lookup, hash_create, chain_at,
  new_entry, str_eq, widen,
}
use libalgo.Hash.Table.{IsChain, IsValid, Added, hash_add-Added}
use libalgo.Hash.Delete.{Deleted, hash_del-Deleted}
use libalgo.Hash.Create.{Created, hash_create-Created}
use libalgo.Hash.Loops.{running, hash_destroy, hash_rehash}
use libalgo.Hash.Loops.Destroy.{hash_destroy-empty}
use libalgo.Hash.Loops.Rehash.{hash_rehash-single}

abbrev entry : ℕ → Str → ℕ → HashEntry ℕ
entry i key v = record { born_time = 7; index = i; key = key; value = v }

-- "a" and "c" collide in a table of two chains.
abbrev sample : HashTable ℕ
sample = record {
  hash_size = 2;
  table = [] ∷ (entry 1 (97 ∷ []) 10 ∷ entry 1 (99 ∷ []) 30 ∷ []) ∷ [];
}

hash_ab : hash_function (97 ∷ 98 ∷ []) 1000 ≡ 650
unfolding hash_function widen
hash_ab = refl

-- A character over 127 is negative.
hash_high : hash_function (200 ∷ []) 1000000 ≡ 435256
unfolding hash_function widen
hash_high = refl

sample-IsChain : (i : ℕ) → IsChain 2 i (chain_at sample i)
unfolding hash_function widen str_eq
sample-IsChain zero = (tt, tt)
sample-IsChain (suc zero) = (((refl, refl), ((refl, refl), tt)), ((refl, tt), (tt, tt)))
sample-IsChain (suc (suc i)) = (tt, tt)

sample-IsValid : IsValid sample
sample-IsValid = (omega arith, refl, sample-IsChain)

hash_add-Added_example :
    Added sample
      (new_entry 9 0 (98 ∷ []) 20)
      (98 ∷ [])
      none
      (hash_add true 9 (some sample) (some (98 ∷ [])) 20)
unfolding hash_function widen str_eq hash_lookup
hash_add-Added_example = hash_add-Added 9 sample (98 ∷ []) 20 sample-IsValid (omega arith)

hash_del-Deleted_example :
    Deleted sample (99 ∷ []) (some (entry 1 (99 ∷ []) 30)) (hash_del (some sample) (some (99 ∷ [])))
unfolding hash_function widen str_eq hash_lookup
hash_del-Deleted_example = hash_del-Deleted sample (99 ∷ []) sample-IsValid

hash_create-Created_example : Created ℕ (pos 2) (hash_create true (pos 2))
hash_create-Created_example = hash_create-Created ℕ (pos 2)

few : (j : ℕ) → length (chain_at sample j) < 3
few zero = omega arith
few (suc zero) = omega arith
few (suc (suc j)) = omega arith

hash_destroy-empty_example :
    (h' : HashTable ℕ) × (hash_destroy 3 sample ≡ some h') × ((j : ℕ) → chain_at h' j ≡ [])
hash_destroy-empty_example = hash_destroy-empty 3 sample sample-IsValid few

abbrev stuck : HashTable ℕ
stuck = record { hash_size = 1; table = (entry 0 (97 ∷ []) 10 ∷ entry 0 (99 ∷ []) 30 ∷ []) ∷ [] }

stuck-IsValid : IsValid stuck
unfolding hash_function widen str_eq
stuck-IsValid = (omega arith, refl, chains)
  where
    chains : (i : ℕ) → IsChain 1 i (chain_at stuck i)
    chains zero = (((refl, refl), ((refl, refl), tt)), ((refl, tt), (tt, tt)))
    chains (suc i) = (tt, tt)

-- Two keys in the first chain: the loop runs on.
hash_rehash-single_example : hash_rehash 100 true 9 stuck ≡ running
hash_rehash-single_example = hash_rehash-single 99 true 9 stuck stuck-IsValid
