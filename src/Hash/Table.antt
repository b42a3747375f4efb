-- ===== src/Hash/Table.antt =====
-- The table's invariant, and insertion, lookup and removal by key against the view of the table
-- as a function from keys to entries.
use libalgo.Common.{
  ℕ, ◌≡◌, ◌<◌, refl, sym, ap, ◌∙◌, List, [], ◌∷◌, ◌++◌, Option, none, some, true, false, arith,
  if◌then◌else◌, Bool-cases, inl, inr, subst, length, set, get_or, get_or-set, length-set, take_all,
  ◌==◌, ==_iff,
}
use libalgo.Hash.{
  Str, str_eq, HashEntry, HashTable, Cursor, hash_function, hash_lookup, hash_add, new_entry, scan,
  chain_at, set_chain, key_size,
}
use libalgo.Hash.Key.{eq_of_str_eq, hash_function-lt}
use libalgo.Hash.Chain.{find, Lacks, Distinct, All, Lacks-find, Scanned, scan-Scanned}
use libalgo.Hash.Home.{All-append, Distinct-append, find-append}

module _ {ℓ} {A : Type ℓ} where
  -- The entry stands in the chain that its key and its index name.
  abbrev pub AtHome : ℕ → ℕ → HashEntry A → Type 0
  AtHome size i e = (e.index ≡ i) × (hash_function e.key size ≡ i)

  abbrev pub IsChain : ℕ → ℕ → List (HashEntry A) → Type 0
  IsChain size i es = All (AtHome size i) es × Distinct es

  abbrev pub IsValid : HashTable A → Type 0
  IsValid h =
      (0 < h.hash_size)
      × (length h.table ≡ h.hash_size)
      × ((i : ℕ) → IsChain h.hash_size i (chain_at h i))

  -- The chain of a key.
  abbrev pub home : HashTable A → Str → List (HashEntry A)
  home h q = chain_at h (hash_function q h.hash_size)

  pub hash_lookup-find :
      (h : HashTable A) (q : Str) → hash_lookup (some h) (some q) ≡ find q (home h q)
  unfolding hash_lookup
  hash_lookup-find h q = answer (scan q [] (home h q)) (scan-Scanned q [] (home h q))
    where
      answer :
          (out : Option (Cursor A))
          → Scanned q [] (home h q) out
          → elim out [ none ↦ none | some c ↦ some c.entry ] ≡ find q (home h q)
      answer none s = sym s
      answer (some c) s = sym (s.0)

  -- A write of a chain keeps the table valid.
  pub set_chain-IsValid :
      (h : HashTable A) (i : ℕ) (c : List (HashEntry A))
      → IsValid h
      → i < h.hash_size
      → IsChain h.hash_size i c
      → IsValid (set_chain h i c)
  set_chain-IsValid h i c (p, l, v) lt_size w = (p, length-set h.table i c ∙ l, at)
    where
      at : (j : ℕ) → IsChain h.hash_size j (get_or (set h.table i c) j [])
      at j = elim (Bool-cases (i == j)) [
        | inl e ↦
            rw (get_or-set h.table i j c [] (omega (arith, l)), e)
              (subst (λ k. IsChain h.hash_size k c) ((==_iff i j).0 e) w)
        | inr e ↦ rw (get_or-set h.table i j c [] (omega (arith, l)), e) (v j)
      ]

  -- A key's chain is rewritten: what the write means for every key.
  pub hash_lookup-set_chain :
      (h : HashTable A) (k q : Str) (c : List (HashEntry A)) (out : Option (HashEntry A))
      → IsValid h
      → find q c ≡ (if str_eq k q then out else find q (home h k))
      → hash_lookup (some (set_chain h (hash_function k h.hash_size) c)) (some q)
        ≡ (if str_eq k q then out else hash_lookup (some h) (some q))
  hash_lookup-set_chain h k q c out (p, l, v) f =
      rw
        (
          hash_lookup-find (set_chain h i c) q,
          hash_lookup-find h q,
          get_or-set h.table i j c [] (omega (arith, l, hash_function-lt k h.hash_size p)),
        )
        (elim (Bool-cases (i == j)) [
          | inl e ↦ rw (e, f, (==_iff i j).0 e) refl
          | inr e ↦ rw (e, apart e) refl
        ])
    where
      i : ℕ
      i = hash_function k h.hash_size

      j : ℕ
      j = hash_function q h.hash_size

      apart : (i == j) ≡ false → str_eq k q ≡ false
      apart e = elim (Bool-cases (str_eq k q)) [
        | inl r ↦
            absurd (ground (arith, e, ap (λ s. hash_function s h.hash_size) (eq_of_str_eq k q r)))
        | inr r ↦ r
      ]

  -- What `hash_add` answers, after the entry that the key had.
  abbrev pub Added :
      HashTable A → HashEntry A → Str → Option (HashEntry A) → ℕ × Option (HashTable A) → Type ℓ
  Added h new key (some e) out = out ≡ (0, some h)
  Added h new key none out =
      (h' : HashTable A) × (out ≡ (1, some h'))
      × IsValid h'
      × ((q : Str)
          → hash_lookup (some h') (some q)
            ≡ (if str_eq key q then some new else hash_lookup (some h) (some q)))

  -- hash_add on a valid table, with memory and a key that fits, refuses a present key with 0 and
  -- leaves the table alone; else it returns 1, and in the valid table that results the key leads
  -- to the new entry and every other key to what it led to.
  pub hash_add-Added :
      (now : ℕ) (h : HashTable A) (key : Str) (value : A)
      → IsValid h
      → length key < key_size
      → Added h
          (new_entry now (hash_function key h.hash_size) key value)
          key
          (hash_lookup (some h) (some key))
          (hash_add true now (some h) (some key) value)
  unfolding hash_add
  hash_add-Added now h key value valid fits =
      rw (hash_lookup-find h key)
        (answer (scan key [] (home h key)) (scan-Scanned key [] (home h key)))
    where
      i : ℕ
      i = hash_function key h.hash_size

      new : HashEntry A
      new = new_entry now i key value

      longer : List (HashEntry A)
      longer = home h key ++ new ∷ []

      key_eq : new.key ≡ key
      key_eq = take_all key_size key (omega (arith, fits))

      answer :
          (out : Option (Cursor A))
          → Scanned key [] (home h key) out
          → Added h new key (find key (home h key)) (elim out [
            | some c ↦ (0, some h)
            | none ↦ (1, some (set_chain h i (home h key ++ new ∷ [])))
          ])
      answer (some c) s = rw (s.0) refl
      answer none s =
          let lacks : Lacks new.key (home h key) =
            subst (λ s. Lacks s (home h key)) (sym key_eq) (Lacks-find key (home h key) s) in
          rw s (
            set_chain h i longer,
            refl,
            set_chain-IsValid h i longer valid (hash_function-lt key h.hash_size valid.0) (
              All-append (AtHome h.hash_size i) (home h key) new (valid.2 i).0
                  (refl, ap (λ s. hash_function s h.hash_size) key_eq),
              Distinct-append (home h key) new (valid.2 i).1 lacks,
            ),
            λ q. hash_lookup-set_chain h key q longer (some new) valid (
                find-append q (home h key) new lacks
                ∙ ap (λ s. if str_eq s q then some new else find q (home h key)) key_eq),
          )
