-- ===== src/Store/Keys.antt =====
-- Tables whose rows have ids of their own, and the rows that a query finds after a save.
use rankedftw.Prelude.Objects.{filter}
use rankedftw.Prelude.{
  ==_iff, false, sym, ◌∙◌, refl, inr, ap, ◌==◌, inl, true, if◌then◌else◌, Bool-cases, some, none,
  arith, [], ◌≢◌, ◌≡◌, ◌∷◌, Option, List, Bool, ℕ,
}
use rankedftw.Store.Rows.{save_row, save_row_hit, save_row_miss}

module _ {ℓ} {A : Type ℓ} (key : A → ℕ) where
  abbrev pub Apart : ℕ → List A → Type 0
  Apart k [] = Unit
  Apart k (x ∷ xs) = (key x ≢ k) × Apart k xs

  abbrev pub IsKeyed : List A → Type 0
  IsKeyed [] = Unit
  IsKeyed (x ∷ xs) = Apart (key x) xs × IsKeyed xs

  -- The row of an id, which a save of the id replaces.
  abbrev pub find : ℕ → List A → Option A
  find k [] = none
  find k (x ∷ xs) = if key x == k then some x else find k xs

  pub find-save_row : (m : A) (xs : List A) → find (key m) (save_row key m xs) ≡ some m
  unfolding save_row
  find-save_row m [] = ground arith
  find-save_row m (x ∷ xs) = elim (Bool-cases (key x == key m)) [
    | inl e ↦ rw e (ground arith)
    | inr e ↦ rw (e, e) (find-save_row m xs)
  ]

  pub find-saved : (k : ℕ) (m : A) (xs : List A) → key m ≡ k → find k (save_row key m xs) ≡ some m
  find-saved k m xs e = rw (← e) (find-save_row m xs)

  pub find-save_row_ne :
      (k : ℕ) (m : A) (xs : List A) → key m ≢ k → find k (save_row key m xs) ≡ find k xs
  unfolding save_row
  find-save_row_ne k m [] h = ground arith
  find-save_row_ne k m (x ∷ xs) h = elim (Bool-cases (key x == key m)) [
    | inl e ↦ ground arith
    | inr e ↦ rw (e, find-save_row_ne k m xs h) refl
  ]

  filter-Apart :
      (p : A → Bool) (c : A) (k : ℕ) (xs : List A) → Apart k xs → filter p xs ≡ c ∷ [] → key c ≢ k
  filter-Apart p c k [] h e = cc
  filter-Apart p c k (x ∷ xs) h e = elim (Bool-cases (p x)) [
    | inl here ↦
        let same : x ∷ filter p xs ≡ c ∷ [] = rw here at e in
        let first : x ≡ c = cc in λ taken. h.0 (ap key first ∙ taken)
    | inr out ↦ filter-Apart p c k xs h.1 (rw out at e)
  ]

  -- A save of the one row that a query finds, as a row that the query takes, is what it finds then.
  pub filter-save_row :
      (p : A → Bool) (c m : A) (xs : List A)
      → IsKeyed xs
      → filter p xs ≡ c ∷ []
      → key c ≡ key m
      → p m ≡ true
      → filter p (save_row key m xs) ≡ m ∷ []
  unfolding save_row
  filter-save_row p c m [] h e k t = cc
  filter-save_row p c m (x ∷ xs) h e k t = elim (Bool-cases (p x)) [
    | inl here ↦
        let same : x ∷ filter p xs ≡ c ∷ [] = rw here at e in
        let first : x ≡ c = cc in
        let none_left : filter p xs ≡ [] = cc in
        rw (save_row_hit key m x xs (ap key first ∙ k), t, none_left) refl
    | inr out ↦
        let found : filter p xs ≡ c ∷ [] = rw out at e in
        let other = filter-Apart p c (key x) xs h.0 found in
        rw (save_row_miss key m x xs (λ s. other (k ∙ sym s)), out)
          (filter-save_row p c m xs h.1 found k t)
  ]

  pub Apart-filter : (p : A → Bool) (k : ℕ) (xs : List A) → Apart k xs → Apart k (filter p xs)
  Apart-filter p k [] h = tt
  Apart-filter p k (x ∷ xs) h = elim (Bool-cases (p x)) [
    | inl e ↦ rw e (h.0, Apart-filter p k xs h.1)
    | inr e ↦ rw e (Apart-filter p k xs h.1)
  ]

  -- A query that does not take the row of an id finds no row of the id.
  pub find-Apart :
      (p : A → Bool) (k : ℕ) (y : A) (xs : List A)
      → IsKeyed xs
      → find k xs ≡ some y
      → p y ≡ false
      → Apart k (filter p xs)
  find-Apart p k y [] h found out = tt
  find-Apart p k y (x ∷ xs) h found out = elim (Bool-cases (key x == k)) [
    | inl e ↦
        let same : some x ≡ some y = rw e at found in
        let first : x ≡ y = cc in
        let left_out : p x ≡ false = ap p first ∙ out in
        let hit : key x ≡ k = (==_iff (key x) k).0 e in
        rw left_out (rw hit at (Apart-filter p (key x) xs h.0))
    | inr e ↦
        let later = find-Apart p k y xs h.1 (rw e at found) out in
        elim (Bool-cases (p x)) [
          | inl taken ↦ rw taken (ground (arith, e), later)
          | inr left ↦ rw left later
        ]
  ]
