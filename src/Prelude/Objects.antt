-- ===== src/Prelude/Objects.antt =====
-- Django's managers over a table, which is the list of its rows: `filter`, `get` and `first`.
use rankedftw.Prelude.{
  ◌++◌, refl, ◌⊎◌, inr, arith, inl, Bool-cases, true, ◌≡◌, Bool, Option, none, some, List, [], ◌∷◌,
  if◌then◌else◌,
}
use rankedftw.Prelude.Result.{Result, ok, err, does_not_exist, multiple_objects}

module _ {ℓ} {A : Type ℓ} where
  -- `objects.filter(...)`.
  abbrev pub filter : (A → Bool) → List A → List A
  filter p [] = []
  filter p (x ∷ xs) = if p x then x ∷ filter p xs else filter p xs

  -- `objects.get(...)`: exactly one row, or an exception.
  abbrev pub only : List A → Result A
  only [] = err does_not_exist
  only (x ∷ []) = ok x
  only (x ∷ y ∷ xs) = err multiple_objects

  abbrev pub get : (A → Bool) → List A → Result A
  get p xs = only (filter p xs)

  -- `.first()`.
  abbrev pub first : List A → Option A
  first [] = none
  first (x ∷ xs) = some x

  -- A row that `get` returns is the only one.
  pub only-eq-ok : (xs : List A) {x : A} → only xs ≡ ok x → xs ≡ x ∷ []
  only-eq-ok [] h = cc
  only-eq-ok (y ∷ []) h = cc
  only-eq-ok (y ∷ z ∷ xs) h = cc

  pub filter-eq-cons : (p : A → Bool) (xs ys : List A) {x : A} → filter p xs ≡ x ∷ ys → p x ≡ true
  filter-eq-cons p [] ys h = cc
  filter-eq-cons p (z ∷ xs) ys h = elim (Bool-cases (p z)) [
    | inl e ↦ ground (arith, e)
    | inr e ↦ filter-eq-cons p xs ys (ground (arith, e))
  ]

  -- A row that `get` returns meets the condition.
  pub get-eq-ok : (p : A → Bool) (xs : List A) {x : A} → get p xs ≡ ok x → p x ≡ true
  get-eq-ok p xs h = filter-eq-cons p xs [] (only-eq-ok (filter p xs) h)

  pub List-cases : (xs : List A) → (xs ≡ []) ⊎ ((x : A) × (ys : List A) × (xs ≡ x ∷ ys))
  List-cases [] = inl refl
  List-cases (x ∷ xs) = inr (x, xs, refl)

  pub filter-append :
      (p : A → Bool) (xs ys : List A) → filter p (xs ++ ys) ≡ filter p xs ++ filter p ys
  filter-append p [] ys = refl
  filter-append p (x ∷ xs) ys = elim (Bool-cases (p x)) [
    | inl e ↦ rw (e, filter-append p xs ys) refl
    | inr e ↦ rw (e, filter-append p xs ys) refl
  ]
