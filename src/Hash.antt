-- ===== src/Hash.antt =====
-- libhash/src/hash.c: the chained hash table. A chain is the list of its entries, in the order of
-- the `next` links; a pointer to an entry is a `Cursor`, with the entries before it from the
-- nearest on, as the `prev` links lead to them. The table's end mark POISONED is the end of the
-- list of chains. A key is the list of its bytes before the terminating zero.
pub mod Key
pub mod Chain
pub mod Home
pub mod Table
pub mod Create
pub mod Delete
pub mod Loops
use libalgo.Common.{
  ℕ, zero, suc, ◌+◌, ◌-◌, ◌*◌, ◌/◌, ◌%◌, ◌^◌, List, [], ◌∷◌, ◌++◌, Option, none, some, Bool, true,
  false, ltb, ◌==◌, ◌&&◌, if◌then◌else◌, get_or, set, length, take, replicate,
}
use libalgo.Common.Int.{ℤ, pos, negsuc}
use Prim.Native.Nat.{bit_and, bit_xor}

abbrev pub Str : Type 0
Str = List ℕ

-- `strcmp(a, b) == 0`.
unfoldable pub str_eq : Str → Str → Bool
str_eq [] [] = true
str_eq [] (y ∷ ys) = false
str_eq (x ∷ xs) [] = false
str_eq (x ∷ xs) (y ∷ ys) = x == y && str_eq xs ys

abbrev pub key_size : ℕ
key_size = 4096

-- A char is signed and widened to an unsigned int.
unfoldable pub widen : ℕ → ℕ
widen c = if ltb c 128 then c else c + (2 ^ 32 - 256)

-- One round of the loop of `hash_function`; `h & ~g` is taken over 32 bits.
unfoldable pub hash_round : ℕ → ℕ → ℕ
unfolding widen
hash_round h c =
    let h₁ = (h * 2 ^ 4 % 2 ^ 32 + widen c) % 2 ^ 32 in
    let g = bit_and h₁ 0xf0000000 in
    let h₂ = if g == 0 then h₁ else bit_xor h₁ (g / 2 ^ 24) in bit_and h₂ (0xffffffff - g)

unfoldable pub hash_loop : ℕ → Str → ℕ
unfolding hash_round
hash_loop h [] = h
hash_loop h (c ∷ key) = hash_loop (hash_round h c) key

unfoldable pub hash_function : Str → ℕ → ℕ
unfolding hash_loop
hash_function key table_size = hash_loop 0 key % table_size

-- `hash_entry`, less its links.
pub record HashEntry {ℓ} (A : Type ℓ) : Type ℓ where
  pub born_time : ℕ
  pub index : ℕ
  pub key : Str
  pub value : A

pub record HashTable {ℓ} (A : Type ℓ) : Type ℓ where
  pub hash_size : ℕ
  pub table : List (List (HashEntry A))

pub record Cursor {ℓ} (A : Type ℓ) : Type ℓ where
  pub before : List (HashEntry A)
  pub entry : HashEntry A
  pub next : List (HashEntry A)

module _ {ℓ} {A : Type ℓ} where
  -- The walk along the `next` links to the first entry with the key.
  unfoldable pub scan : Str → List (HashEntry A) → List (HashEntry A) → Option (Cursor A)
  scan key before [] = none
  scan key before (e ∷ es) =
      let rest = scan key (e ∷ before) es in
      if str_eq e.key key then some (record { before = before; entry = e; next = es }) else rest

  -- The chain with the entries `before` in front of `es`.
  unfoldable pub rewind : List (HashEntry A) → List (HashEntry A) → List (HashEntry A)
  rewind [] es = es
  rewind (b ∷ before) es = rewind before (b ∷ es)

  abbrev pub chain_at : HashTable A → ℕ → List (HashEntry A)
  chain_at h i = get_or h.table i []

  abbrev pub set_chain : HashTable A → ℕ → List (HashEntry A) → HashTable A
  set_chain h i c = record h { table = set h.table i c }

  -- Unlinks the entry, which stands in the chain `slot`. An entry with no `prev` link is the head
  -- of the chain that its own `index` names.
  unfoldable pub unlink : HashTable A → ℕ → Cursor A → HashTable A
  unfolding rewind
  unlink h slot c = elim c.before [
    | [] ↦ set_chain h c.entry.index c.next
    | b ∷ bs ↦ set_chain h slot (rewind (b ∷ bs) c.next)
  ]

  -- A NULL table or a NULL entry is refused with 0.
  unfoldable pub hash_del_entry :
      Option (HashTable A) → ℕ → Option (Cursor A) → ℕ × Option (HashTable A)
  unfolding unlink
  hash_del_entry none slot c = (0, none)
  hash_del_entry (some h) slot none = (0, some h)
  hash_del_entry (some h) slot (some c) = (1, some (unlink h slot c))

  unfoldable pub hash_del : Option (HashTable A) → Option Str → ℕ × Option (HashTable A)
  unfolding hash_del_entry hash_function scan
  hash_del none key = (0, none)
  hash_del (some h) none = (0, some h)
  hash_del (some h) (some key) =
      let index = hash_function key h.hash_size in
      hash_del_entry (some h) index (scan key [] (chain_at h index))

  unfoldable pub hash_lookup : Option (HashTable A) → Option Str → Option (HashEntry A)
  unfolding hash_function scan
  hash_lookup none key = none
  hash_lookup (some h) none = none
  hash_lookup (some h) (some key) =
      elim (scan key [] (chain_at h (hash_function key h.hash_size))) [
        | none ↦ none
        | some c ↦ some c.entry
      ]

  -- The entry that `hash_add` fills; `strncpy` copies at most KEY_SIZE bytes.
  unfoldable pub new_entry : ℕ → ℕ → Str → A → HashEntry A
  new_entry now index key value = record {
    born_time = now;
    index = index;
    key = take key_size key;
    value = value;
  }

  -- `room` says whether `calloc` finds memory, `now` is the time.
  unfoldable pub hash_add :
      Bool → ℕ → Option (HashTable A) → Option Str → A → ℕ × Option (HashTable A)
  unfolding hash_function scan new_entry
  hash_add room now none key value = (0, none)
  hash_add room now (some h) none value = (0, some h)
  hash_add false now (some h) (some key) value = (0, some h)
  hash_add true now (some h) (some key) value =
      let index = hash_function key h.hash_size in
      let chain = chain_at h index in
      elim (scan key [] chain) [
        | some c ↦ (0, some h)
        | none ↦ (1, some (set_chain h index (chain ++ new_entry now index key value ∷ [])))
      ]

  -- `room` says whether `calloc` finds memory. A size that is not positive is refused.
  unfoldable pub hash_create : Bool → ℤ → Option (HashTable A)
  hash_create room (negsuc n) = none
  hash_create room (pos zero) = none
  hash_create false (pos (suc n)) = none
  hash_create true (pos (suc n)) = some (record { hash_size = suc n; table = replicate (suc n) [] })
