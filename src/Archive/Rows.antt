-- ===== src/Archive/Rows.antt =====
-- Rows whose ids a table does not have yet, through filters and the order of the ids.
use rankedftw.Archive.Chunks.{by_pk, by_id, Ascending, IsPositive}
use rankedftw.Prelude.{
  ℕ, ◌≤◌, List, [], ◌∷◌, ◌++◌, Bool, not, ◌≢◌, sym, inl, inr, Bool-cases, arith,
}
use rankedftw.Prelude.Objects.{filter}
use rankedftw.Prelude.Sort.{sort_by, insert_by}
use rankedftw.Store.Keys.{Apart, IsKeyed, Apart-filter}

module _ {ℓ κ} {A : Type ℓ} (P : A → Type κ) where
  abbrev pub All : List A → Type κ
  All [] = Unit
  All (x ∷ xs) = P x × All xs

  pub All-filter : (p : A → Bool) (xs : List A) → All xs → All (filter p xs)
  All-filter p [] h = tt
  All-filter p (x ∷ xs) h = elim (Bool-cases (p x)) [
    | inl e ↦ rw e (h.0, All-filter p xs h.1)
    | inr e ↦ rw e (All-filter p xs h.1)
  ]

  module _ (key : A → ℕ) where
    All-insert_by : (x : A) (ys : List A) → P x → All ys → All (insert_by (by_id key) x ys)
    unfolding insert_by
    All-insert_by x [] h all = (h, tt)
    All-insert_by x (y ∷ ys) h all = elim (Bool-cases (by_id key x y)) [
      | inl e ↦ rw e (h, all)
      | inr e ↦ rw e (all.0, All-insert_by x ys h all.1)
    ]

    pub All-by_pk : (xs : List A) → All xs → All (by_pk key xs)
    unfolding sort_by
    All-by_pk [] h = tt
    All-by_pk (x ∷ xs) h = All-insert_by x (by_pk key xs) h.0 (All-by_pk xs h.1)

module _ {ℓ} {A : Type ℓ} (key : A → ℕ) where
  pub Ascending-IsKeyed : (k : ℕ) (xs : List A) → Ascending key k xs → IsKeyed key xs
  Ascending-IsKeyed k [] up = tt
  Ascending-IsKeyed k (x ∷ xs) up =
      (Ascending-Apart (key x) (key x) xs (omega arith) up.1, Ascending-IsKeyed (key x) xs up.1)
    where
      Ascending-Apart : (j k : ℕ) (xs : List A) → j ≤ k → Ascending key k xs → Apart key j xs
      Ascending-Apart j k [] h up = tt
      Ascending-Apart j k (x ∷ xs) h up =
          (λ e. omega (arith, up.0), Ascending-Apart j (key x) xs (omega (arith, up.0)) up.1)

  pub IsKeyed-filter : (p : A → Bool) (xs : List A) → IsKeyed key xs → IsKeyed key (filter p xs)
  IsKeyed-filter p [] h = tt
  IsKeyed-filter p (x ∷ xs) h = elim (Bool-cases (p x)) [
    | inl e ↦ rw e (Apart-filter key p (key x) xs h.0, IsKeyed-filter p xs h.1)
    | inr e ↦ rw e (IsKeyed-filter p xs h.1)
  ]

  pub IsPositive-filter :
      (p : A → Bool) (xs : List A) → IsPositive key xs → IsPositive key (filter p xs)
  IsPositive-filter p [] h = tt
  IsPositive-filter p (x ∷ xs) h = elim (Bool-cases (p x)) [
    | inl e ↦ rw e (h.0, IsPositive-filter p xs h.1)
    | inr e ↦ rw e (IsPositive-filter p xs h.1)
  ]

  pub Apart-append :
      (k : ℕ) (xs : List A) (y : A) → Apart key k xs → key y ≢ k → Apart key k (xs ++ (y ∷ []))
  Apart-append k [] y h n = (n, tt)
  Apart-append k (x ∷ xs) y h n = (h.0, Apart-append k xs y h.1 n)

  -- Rows of which a table has no id.
  abbrev pub Fresh : List A → List A → Type 0
  Fresh rows xs = All (λ (x : A). Apart key (key x) rows) xs

  pub Fresh-append :
      (rows : List A) (y : A) (xs : List A)
      → Fresh rows xs
      → Apart key (key y) xs
      → Fresh (rows ++ (y ∷ [])) xs
  Fresh-append rows y [] h apart = tt
  Fresh-append rows y (x ∷ xs) h apart =
      (Apart-append (key x) rows y h.0 (λ e. apart.0 (sym e)), Fresh-append rows y xs h.1 apart.1)

  Fresh-cons :
      (y : A) (rows xs : List A) → Fresh rows xs → Apart key (key y) xs → Fresh (y ∷ rows) xs
  Fresh-cons y rows [] h apart = tt
  Fresh-cons y rows (x ∷ xs) h apart =
      ((λ e. apart.0 (sym e), h.0), Fresh-cons y rows xs h.1 apart.1)

  -- The rows that a test takes and those that it leaves share no id.
  pub Fresh-filter :
      (p : A → Bool) (xs : List A)
      → IsKeyed key xs
      → Fresh (filter (λ x. not (p x)) xs) (filter p xs)
  Fresh-filter p [] h = tt
  Fresh-filter p (x ∷ xs) h = elim (Bool-cases (p x)) [
    | inl e ↦ rw e (Apart-filter key (λ y. not (p y)) (key x) xs h.0, Fresh-filter p xs h.1)
    | inr e ↦ rw e (
        Fresh-cons x (filter (λ y. not (p y)) xs) (filter p xs) (Fresh-filter p xs h.1)
          (Apart-filter key p (key x) xs h.0))
  ]
