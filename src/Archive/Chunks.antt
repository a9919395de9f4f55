-- ===== src/Archive/Chunks.antt =====
-- `iterate_query_chunked` of common/utils.py: a query read in chunks, in the order of the ids.
use rankedftw.Prelude.{
  ℕ, zero, suc, ◌≤◌, ◌<◌, Option, none, some, List, [], ◌∷◌, ◌++◌, Bool, true, false, ltb, leb,
  length, take, drop, ◌≡◌, ◌≢◌, refl, sym, ap, ◌∙◌, inl, inr, Bool-cases, arith, take-append-drop,
  length-drop,
}
use mathlib.Core.Option as Option
use rankedftw.Prelude.Objects.{filter}
use rankedftw.Prelude.Sort.{sort_by, insert_by, length-sort_by}
use rankedftw.Store.Keys.{Apart, IsKeyed}

module _ {ℓ} {A : Type ℓ} (key : A → ℕ) where
  abbrev pub by_id : A → A → Bool
  by_id x y = leb (key x) (key y)

  -- `order_by('pk')`.
  abbrev pub by_pk : List A → List A
  by_pk rows = sort_by by_id rows

  -- `pk__gt=pk`.
  abbrev pub is_above : ℕ → A → Bool
  is_above pk x = ltb pk (key x)

  -- `objs[-1].pk`.
  abbrev pub last_pk : A → List A → ℕ
  last_pk x [] = key x
  last_pk x (y ∷ ys) = last_pk y ys

  -- A chunk that is not empty, and those after its last row.
  abbrev pub then_next : (ℕ → Option (List A)) → List A → Option (List A)
  then_next next [] = some []
  then_next next (x ∷ xs) = Option.map (λ rest. (x ∷ xs) ++ rest) (next (last_pk x xs))

  -- The loop from an id on; each turn uses up one of the fuel, and none is left where it ends early.
  unfoldable pub chunks_from : ℕ → ℕ → List A → ℕ → Option (List A)
  chunks_from zero chunk_size query pk = none
  chunks_from (suc fuel) chunk_size query pk =
      then_next (chunks_from fuel chunk_size query)
        (take chunk_size (filter (is_above pk) (by_pk query)))

  -- The rows that are yielded, of the rows of a query.
  abbrev pub iterate_query_chunked : ℕ → ℕ → List A → Option (List A)
  iterate_query_chunked fuel chunk_size query = chunks_from fuel chunk_size query 0

  -- Rows over an id, in strict order.
  abbrev pub Ascending : ℕ → List A → Type 0
  Ascending k [] = Unit
  Ascending k (x ∷ xs) = (k < key x) × Ascending (key x) xs

  Apart-insert_by :
      (k : ℕ) (x : A) (ys : List A)
      → key x ≢ k
      → Apart key k ys
      → Apart key k (insert_by by_id x ys)
  unfolding insert_by
  Apart-insert_by k x [] h a = (h, tt)
  Apart-insert_by k x (y ∷ ys) h a = elim (Bool-cases (by_id x y)) [
    | inl e ↦ rw e (h, a)
    | inr e ↦ rw e (a.0, Apart-insert_by k x ys h a.1)
  ]

  pub Apart-by_pk : (k : ℕ) (xs : List A) → Apart key k xs → Apart key k (by_pk xs)
  unfolding sort_by
  Apart-by_pk k [] h = tt
  Apart-by_pk k (x ∷ xs) h = Apart-insert_by k x (by_pk xs) h.0 (Apart-by_pk k xs h.1)

  insert_by-Ascending :
      (k : ℕ) (x : A) (ys : List A)
      → k < key x
      → Ascending k ys
      → Apart key (key x) ys
      → Ascending k (insert_by by_id x ys)
  unfolding insert_by
  insert_by-Ascending k x [] h up apart = (h, tt)
  insert_by-Ascending k x (y ∷ ys) h up apart = elim (Bool-cases (by_id x y)) [
    | inl e ↦ let other = apart.0 in rw e (h, (ground arith, up.1))
    | inr e ↦ rw e (up.0, insert_by-Ascending (key y) x ys (ground (arith, e)) up.1 apart.1)
  ]

  -- Rows with ids of their own, all over 0.
  abbrev pub IsPositive : List A → Type 0
  IsPositive [] = Unit
  IsPositive (x ∷ xs) = (0 < key x) × IsPositive xs

  pub by_pk-Ascending : (xs : List A) → IsKeyed key xs → IsPositive xs → Ascending 0 (by_pk xs)
  unfolding sort_by
  by_pk-Ascending [] keyed positive = tt
  by_pk-Ascending (x ∷ xs) keyed positive =
      insert_by-Ascending 0 x (by_pk xs) positive.0 (by_pk-Ascending xs keyed.1 positive.1)
        (Apart-by_pk (key x) xs keyed.0)

  filter-Ascending : (k m : ℕ) (xs : List A) → k ≤ m → Ascending m xs → filter (is_above k) xs ≡ xs
  filter-Ascending k m [] h up = refl
  filter-Ascending k m (x ∷ xs) h up =
      let over : is_above k x ≡ true = ground arith in
      rw (over, filter-Ascending k (key x) xs (omega arith) up.1) refl

  -- The rows over an id are among those over a smaller one.
  filter-filter :
      (k m : ℕ) (xs : List A)
      → k ≤ m
      → filter (is_above m) (filter (is_above k) xs) ≡ filter (is_above m) xs
  filter-filter k m [] h = refl
  filter-filter k m (x ∷ xs) h = elim (Bool-cases (is_above k x)) [
    | inl e ↦ rw (e, filter-filter k m xs h) refl
    | inr e ↦
        let out : is_above m x ≡ false = ground (arith, e) in
        rw (e, out, filter-filter k m xs h) refl
  ]

  le-last_pk : (n : ℕ) (x : A) (xs : List A) → Ascending (key x) xs → key x ≤ last_pk x (take n xs)
  le-last_pk zero x xs up = omega arith
  le-last_pk (suc n) x [] up = omega arith
  le-last_pk (suc n) x (y ∷ ys) up = omega (arith, le-last_pk n y ys up.1, up.0)

  -- What is left over the last row of a chunk.
  filter-last_pk :
      (n : ℕ) (x : A) (xs : List A)
      → Ascending (key x) xs
      → filter (is_above (last_pk x (take n xs))) (x ∷ xs) ≡ drop n xs
  filter-last_pk n x xs up =
      let low : is_above (last_pk x (take n xs)) x ≡ false = ground (arith, le-last_pk n x xs up) in
      rw low (rest n x xs up)
    where
      rest :
          (n : ℕ) (x : A) (xs : List A)
          → Ascending (key x) xs
          → filter (is_above (last_pk x (take n xs))) xs ≡ drop n xs
      rest zero x xs up = filter-Ascending (key x) (key x) xs (omega arith) up
      rest (suc n) x [] up = refl
      rest (suc n) x (y ∷ ys) up =
          let low : is_above (last_pk y (take n ys)) y ≡ false =
            ground (arith, le-last_pk n y ys up.1) in
          rw low (rest n y ys up.1)

  drop-Ascending :
      (n : ℕ) (x : A) (xs : List A)
      → Ascending (key x) xs
      → Ascending (last_pk x (take n xs)) (drop n xs)
  drop-Ascending zero x xs up = up
  drop-Ascending (suc n) x [] up = tt
  drop-Ascending (suc n) x (y ∷ ys) up = drop-Ascending n y ys up.1

  chunks_from-rest :
      (fuel n : ℕ) (query rest : List A) (pk : ℕ)
      → filter (is_above pk) (by_pk query) ≡ rest
      → Ascending pk rest
      → length rest < fuel
      → chunks_from fuel (suc n) query pk ≡ some rest
  unfolding chunks_from
  chunks_from-rest zero n query rest pk e up h = absurd (omega arith)
  chunks_from-rest (suc fuel) n query [] pk e up h = rw e refl
  chunks_from-rest (suc fuel) n query (x ∷ xs) pk e up h =
      let m = last_pk x (take n xs) in
      let low = le-last_pk n x xs up.1 in
      let left : filter (is_above m) (by_pk query) ≡ drop n xs =
        sym (filter-filter pk m (by_pk query) (omega (arith, low, up.0)))
        ∙ ap (filter (is_above m)) e
        ∙ filter-last_pk n x xs up.1 in
      let again =
        chunks_from-rest fuel n query (drop n xs) m left (drop-Ascending n x xs up.1)
          (omega (arith, length-drop n xs)) in
      rw (e, again, take-append-drop n xs) refl

  -- Where the rows of a query have ids of their own over 0, `iterate_query_chunked` ends after at
  -- most one turn more than there are rows, for any size of a chunk over 0, and yields every row
  -- once, in the order of the ids.
  pub iterate_query_chunked-by_pk :
      (fuel chunk_size : ℕ) (query : List A)
      → IsKeyed key query
      → IsPositive query
      → 0 < chunk_size
      → length query < fuel
      → iterate_query_chunked fuel chunk_size query ≡ some (by_pk query)
  iterate_query_chunked-by_pk fuel zero query keyed positive some_rows enough = absurd (omega arith)
  iterate_query_chunked-by_pk fuel (suc n) query keyed positive some_rows enough =
      let up = by_pk-Ascending query keyed positive in
      chunks_from-rest fuel n query (by_pk query) 0
        (filter-Ascending 0 0 (by_pk query) (omega arith) up) up
        (omega (arith, length-sort_by by_id query))
