-- ===== src/Scripts/Any.antt =====
-- Tables of caches with a row that a predicate says, through the writes of main/models.py.
use mathlib.Core.Path.{subst}
use rankedftw.Prelude.{◌==◌, Bool, List, [], ◌∷◌, ◌++◌, ◌≡◌, ◌⊎◌, inl, inr, Bool-cases}
use rankedftw.Prelude.Objects.{filter}
use rankedftw.Store.{Cache}
use rankedftw.Store.Rows.{save_row}

module _ (P : Cache → Type 0) where
  -- Some row is one that `P` says.
  abbrev pub AnyRow : List Cache → Type 0
  AnyRow [] = ⊥
  AnyRow (c ∷ cs) = P c ⊎ AnyRow cs

  pub AnyRow-append : (cs : List Cache) (d : Cache) → AnyRow cs → AnyRow (cs ++ (d ∷ []))
  AnyRow-append [] d h = absurd h
  AnyRow-append (c ∷ cs) d (inl p) = inl p
  AnyRow-append (c ∷ cs) d (inr h) = inr (AnyRow-append cs d h)

  pub AnyRow-last : (cs : List Cache) (d : Cache) → P d → AnyRow (cs ++ (d ∷ []))
  AnyRow-last [] d p = inl p
  AnyRow-last (c ∷ cs) d p = inr (AnyRow-last cs d p)

  pub AnyRow-filter :
      (p : Cache → Bool) (x : Cache) (cs : List Cache) → filter p cs ≡ x ∷ [] → P x → AnyRow cs
  AnyRow-filter p x [] one h = absurd cc
  AnyRow-filter p x (c ∷ cs) one h = elim (Bool-cases (p c)) [
    | inl e ↦
        let first : c ∷ filter p cs ≡ x ∷ [] = rw e at one in
        let same : x ≡ c = cc in inl (subst P same h)
    | inr e ↦ inr (AnyRow-filter p x cs (rw e at one) h)
  ]

  pub AnyRow-saved :
      (d : Cache) (cs : List Cache) → P d → AnyRow (save_row (λ (c : Cache). c.id) d cs)
  unfolding save_row
  AnyRow-saved d [] p = inl p
  AnyRow-saved d (c ∷ cs) p = elim (Bool-cases (c.id == d.id)) [
    | inl e ↦ rw e (inl p)
    | inr e ↦ rw e (inr (AnyRow-saved d cs p))
  ]

  -- A save of the one row of an id keeps the others.
  pub AnyRow-save_row :
      (d x : Cache) (cs : List Cache)
      → filter (λ (c : Cache). c.id == d.id) cs ≡ x ∷ []
      → (P x → ⊥)
      → AnyRow cs
      → AnyRow (save_row (λ (c : Cache). c.id) d cs)
  unfolding save_row
  AnyRow-save_row d x [] one other h = absurd h
  AnyRow-save_row d x (c ∷ cs) one other h = elim (Bool-cases (c.id == d.id)) [
    | inl e ↦
        let first : c ∷ filter (λ (c : Cache). c.id == d.id) cs ≡ x ∷ [] = rw e at one in
        let same : c ≡ x = cc in
        rw e (elim h [ inl p ↦ absurd (other (subst P same p)) | inr r ↦ inr r ])
    | inr e ↦
        rw e (elim h [ inl p ↦ inl p | inr r ↦ inr (AnyRow-save_row d x cs (rw e at one) other r) ])
  ]
