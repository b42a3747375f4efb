-- ===== src/Hash/Chain.antt =====
-- One chain: the walk that finds an entry, and what unlinking and appending do to lookups.
use libalgo.Common.{
  ◌≡◌, refl, List, [], ◌∷◌, Option, none, some, false, arith, if◌then◌else◌, Bool-cases, inl, inr,
}
use libalgo.Hash.{Str, str_eq, HashEntry, Cursor, scan, rewind}

module _ {ℓ} {A : Type ℓ} where
  -- The first entry with a key.
  unfoldable pub find : Str → List (HashEntry A) → Option (HashEntry A)
  find q [] = none
  find q (e ∷ es) = if str_eq e.key q then some e else find q es

  -- The chain without that entry.
  unfoldable pub erase : Str → List (HashEntry A) → List (HashEntry A)
  erase q [] = []
  erase q (e ∷ es) = if str_eq e.key q then es else e ∷ erase q es

  abbrev pub Lacks : Str → List (HashEntry A) → Type 0
  Lacks q [] = Unit
  Lacks q (e ∷ es) = (str_eq e.key q ≡ false) × Lacks q es

  abbrev pub Distinct : List (HashEntry A) → Type 0
  Distinct [] = Unit
  Distinct (e ∷ es) = Lacks e.key es × Distinct es

  abbrev pub All {κ} : (HashEntry A → Type κ) → List (HashEntry A) → Type κ
  All P [] = Unit
  All P (e ∷ es) = P e × All P es

  pub find-Lacks : (q : Str) (es : List (HashEntry A)) → Lacks q es → find q es ≡ none
  unfolding find
  find-Lacks q [] h = refl
  find-Lacks q (e ∷ es) h = rw (h.0) (find-Lacks q es h.1)

  pub Lacks-find : (q : Str) (es : List (HashEntry A)) → find q es ≡ none → Lacks q es
  unfolding find
  Lacks-find q [] h = tt
  Lacks-find q (e ∷ es) h = ground (arith, Lacks-find q es)

  -- What the walk answers, from the entry `es` on with `before` behind it.
  abbrev pub Scanned : Str → List (HashEntry A) → List (HashEntry A) → Option (Cursor A) → Type ℓ
  Scanned q before es none = find q es ≡ none
  Scanned q before es (some c) =
      (find q es ≡ some c.entry) × (rewind c.before c.next ≡ rewind before (erase q es))

  pub scan-Scanned :
      (q : Str) (before es : List (HashEntry A)) → Scanned q before es (scan q before es)
  unfolding scan find erase
  scan-Scanned q before [] = refl
  scan-Scanned q before (e ∷ es) = elim (Bool-cases (str_eq e.key q)) [
    | inl h ↦ rw (h, scan) (rw h, rw h)
    | inr h ↦ rw (h, scan) (shift (scan q (e ∷ before) es) h (scan-Scanned q (e ∷ before) es))
  ]
    where
      shift :
          (out : Option (Cursor A))
          → str_eq e.key q ≡ false
          → Scanned q (e ∷ before) es out
          → Scanned q before (e ∷ es) out
      shift none h s = unfold find in rw h s
      shift (some c) h s = unfold find erase rewind in (rw h (s.0), rw h (s.1))
