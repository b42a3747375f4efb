-- ===== src/Hash/Home.antt =====
-- Chains whose keys differ and whose entries are at home, under appending and unlinking.
use libalgo.Common.{
  ◌≡◌, refl, sym, ap, ◌∙◌, List, [], ◌∷◌, ◌++◌, none, some, false, arith, if◌then◌else◌, Bool-cases,
  inl, inr, subst,
}
use libalgo.Hash.{Str, str_eq, HashEntry}
use libalgo.Hash.Key.{eq_of_str_eq, str_eq_symm, str_eq_congr}
use libalgo.Hash.Chain.{find, erase, Lacks, Distinct, All, find-Lacks}

module _ {ℓ} {A : Type ℓ} where
  pub All-append {κ} :
      (P : HashEntry A → Type κ) (es : List (HashEntry A)) (e : HashEntry A)
      → All P es
      → P e
      → All P (es ++ e ∷ [])
  All-append P [] e h p = (p, tt)
  All-append P (x ∷ es) e h p = (h.0, All-append P es e h.1 p)

  pub Lacks-append :
      (q : Str) (es : List (HashEntry A)) (e : HashEntry A)
      → Lacks q es
      → str_eq e.key q ≡ false
      → Lacks q (es ++ e ∷ [])
  Lacks-append q [] e h p = (p, tt)
  Lacks-append q (x ∷ es) e h p = (h.0, Lacks-append q es e h.1 p)

  pub Distinct-append :
      (es : List (HashEntry A)) (e : HashEntry A)
      → Distinct es
      → Lacks e.key es
      → Distinct (es ++ e ∷ [])
  Distinct-append [] e d h = (tt, tt)
  Distinct-append (x ∷ es) e d h =
      (Lacks-append x.key es e d.0 (str_eq_symm e.key x.key ∙ h.0), Distinct-append es e d.1 h.1)

  pub find-append :
      (q : Str) (es : List (HashEntry A)) (e : HashEntry A)
      → Lacks e.key es
      → find q (es ++ e ∷ []) ≡ (if str_eq e.key q then some e else find q es)
  unfolding find
  find-append q [] e h = refl
  find-append q (x ∷ es) e h = elim (Bool-cases (str_eq e.key q)) [
    | inl p ↦
        rw (p, sym (ap (λ k. str_eq x.key k) (eq_of_str_eq e.key q p)) ∙ h.0)
          (find-append q es e h.1 ∙ rw p)
    | inr p ↦ rw (find-append q es e h.1, p)
  ]

  pub All-erase {κ} :
      (P : HashEntry A → Type κ) (q : Str) (es : List (HashEntry A)) → All P es → All P (erase q es)
  unfolding erase
  All-erase P q [] h = tt
  All-erase P q (e ∷ es) h = elim (Bool-cases (str_eq e.key q)) [
    | inl p ↦ rw p (h.1)
    | inr p ↦ rw p (h.0, All-erase P q es h.1)
  ]

  pub Lacks-erase : (k q : Str) (es : List (HashEntry A)) → Lacks k es → Lacks k (erase q es)
  unfolding erase
  Lacks-erase k q [] h = tt
  Lacks-erase k q (e ∷ es) h = elim (Bool-cases (str_eq e.key q)) [
    | inl p ↦ rw p (h.1)
    | inr p ↦ rw p (h.0, Lacks-erase k q es h.1)
  ]

  pub Distinct-erase : (q : Str) (es : List (HashEntry A)) → Distinct es → Distinct (erase q es)
  unfolding erase
  Distinct-erase q [] h = tt
  Distinct-erase q (e ∷ es) h = elim (Bool-cases (str_eq e.key q)) [
    | inl p ↦ rw p (h.1)
    | inr p ↦ rw p (Lacks-erase e.key q es h.0, Distinct-erase q es h.1)
  ]

  pub find-erase :
      (q k : Str) (es : List (HashEntry A))
      → Distinct es
      → find q (erase k es) ≡ (if str_eq k q then none else find q es)
  unfolding find erase
  find-erase q k [] d = ground arith
  find-erase q k (e ∷ es) d = elim (Bool-cases (str_eq e.key k)) [
    | inl p ↦ elim (Bool-cases (str_eq k q)) [
      | inl r ↦
          rw (p, r)
            (find-Lacks q es
              (subst (λ s. Lacks s es) (eq_of_str_eq e.key k p ∙ eq_of_str_eq k q r) d.0))
      | inr r ↦ rw (p, str_eq_congr e.key k q p, r)
    ]
    | inr p ↦ elim (Bool-cases (str_eq k q)) [
      | inl r ↦
          rw (p, r, sym (ap (λ s. str_eq e.key s) (eq_of_str_eq k q r)) ∙ p)
            (find-erase q k es d.1 ∙ rw r)
      | inr r ↦ rw (p, find-erase q k es d.1, r)
    ]
  ]

  pub find-All {κ} :
      (P : HashEntry A → Type κ) (q : Str) (es : List (HashEntry A)) (e : HashEntry A)
      → All P es
      → find q es ≡ some e
      → P e
  unfolding find
  find-All P q [] e h f = absurd (cc)
  find-All P q (x ∷ es) e h f = elim (Bool-cases (str_eq x.key q)) [
    | inl p ↦ subst P (ground (arith, p, f)) (h.0)
    | inr p ↦ find-All P q es e h.1 (ground (arith, p, f))
  ]
