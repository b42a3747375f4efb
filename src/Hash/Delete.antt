-- ===== src/Hash/Delete.antt =====
-- Removal by key.
use libalgo.Common.{ℕ, ◌≡◌, refl, ap, ◌∙◌, List, [], ◌∷◌, Option, none, some, if◌then◌else◌}
use libalgo.Hash.{
  Str, str_eq, HashEntry, HashTable, Cursor, hash_function, hash_lookup, hash_del, unlink,
  hash_del_entry, scan, rewind, set_chain,
}
use libalgo.Hash.Key.{hash_function-lt}
use libalgo.Hash.Chain.{find, erase, Scanned, scan-Scanned}
use libalgo.Hash.Home.{All-erase, Distinct-erase, find-erase, find-All}
use libalgo.Hash.Table.{
  AtHome, IsValid, home, hash_lookup-find, set_chain-IsValid, hash_lookup-set_chain,
}

module _ {ℓ} {A : Type ℓ} where
  -- What `hash_del` answers, after the entry that the key had.
  abbrev pub Deleted : HashTable A → Str → Option (HashEntry A) → ℕ × Option (HashTable A) → Type ℓ
  Deleted h key none out = out ≡ (0, some h)
  Deleted h key (some e) out =
      (h' : HashTable A) × (out ≡ (1, some h'))
      × IsValid h'
      × ((q : Str)
          → hash_lookup (some h') (some q)
            ≡ (if str_eq key q then none else hash_lookup (some h) (some q)))

  -- The chain of a key that leads to an entry, unlinked by the pointer that the walk found.
  pub unlink-erase :
      (h : HashTable A) (key : Str) (c : Cursor A)
      → IsValid h
      → Scanned key [] (home h key) (some c)
      → unlink h (hash_function key h.hash_size) c
        ≡ set_chain h (hash_function key h.hash_size) (erase key (home h key))
  unfolding unlink rewind
  unlink-erase h key c valid (f, r) = go c.before c.next r
    where
      i : ℕ
      i = hash_function key h.hash_size

      at : c.entry.index ≡ i
      at = (find-All (AtHome h.hash_size i) key (home h key) c.entry (valid.2 i).0 f).0

      go :
          (bs next : List (HashEntry A))
          → rewind bs next ≡ erase key (home h key)
          → unlink h i (record { before = bs; entry = c.entry; next = next })
            ≡ set_chain h i (erase key (home h key))
      go [] next e =
          ap (set_chain h c.entry.index) e ∙ ap (λ k. set_chain h k (erase key (home h key))) at
      go (b ∷ bs) next e = ap (set_chain h i) e

  -- hash_del on a valid table returns 0 for a missing key and leaves the table alone; else it
  -- returns 1, and in the valid table that results the key leads to nothing and every other key to
  -- what it led to.
  pub hash_del-Deleted :
      (h : HashTable A) (key : Str)
      → IsValid h
      → Deleted h key (hash_lookup (some h) (some key)) (hash_del (some h) (some key))
  unfolding hash_del hash_del_entry
  hash_del-Deleted h key valid =
      rw (hash_lookup-find h key)
        (answer (scan key [] (home h key)) (scan-Scanned key [] (home h key)))
    where
      i : ℕ
      i = hash_function key h.hash_size

      shorter : List (HashEntry A)
      shorter = erase key (home h key)

      answer :
          (out : Option (Cursor A))
          → Scanned key [] (home h key) out
          → Deleted h key (find key (home h key)) (hash_del_entry (some h) i out)
      answer none s = rw s refl
      answer (some c) s = rw (s.0) (
        set_chain h i shorter,
        ap (λ t. (1, some t)) (unlink-erase h key c valid s),
        set_chain-IsValid h i shorter valid (hash_function-lt key h.hash_size valid.0) (
          All-erase (AtHome h.hash_size i) key (home h key) (valid.2 i).0,
          Distinct-erase key (home h key) (valid.2 i).1,
        ),
        λ q.
            hash_lookup-set_chain h key q shorter none valid
              (find-erase q key (home h key) (valid.2 i).1),
      )
