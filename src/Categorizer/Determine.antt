-- ===== src/Categorizer/Determine.antt =====
-- `determine_season` of main/categorizer.py against the sets of ids that the fetch allows and that
-- the joins allow.
use rankedftw.Prelude.Objects.{filter, only, get, get-eq-ok}
use rankedftw.Prelude.Result.{exception_raised, does_not_exist, err, Result, ok}
use rankedftw.Store.{Season}
use rankedftw.Season.{missing_to_none, get_relative}
use rankedftw.Prelude.{[], ◌∷◌, ◌≢◌, arith, ◌↔◌, some, sym, ap, ◌⊎◌, ◌∙◌, ◌≡◌, List}
use rankedftw.Categorizer.{determine_season, join_of, fetch_of, JoinInfo, FetchInfo, combine}
use rankedftw.Prelude.Int.{neg_part, pos_part, eq_of_parts, ℤ, pos, ◌+ℤ◌, ◌==ℤ◌, ==ℤ_iff, int_laws}

-- A guess of a season of this id and a `valid` allows the id, and the neighbour that `valid` names.
abbrev pub Allows : ℤ → ℤ → ℤ → Type 0
Allows id valid c = (c ≡ id) ⊎ (c ≡ id +ℤ valid)

add_none : (a : ℤ) → a +ℤ pos 0 ≡ a
add_none a = omega (int_laws, eq_of_parts (a +ℤ pos 0) a)

add_cancel : (a b v : ℤ) → a +ℤ v ≡ a +ℤ b → v ≡ b
add_cancel a b v e = omega (int_laws, eq_of_parts v b, ap pos_part e, ap neg_part e)

add_self : (a v : ℤ) → a +ℤ v ≡ a → v ≡ pos 0
add_self a v e = add_cancel a (pos 0) v (e ∙ sym (add_none a))

some_row : (r : Result Season) {t : Season} → missing_to_none r ≡ ok (some t) → r ≡ ok t
some_row (ok s) h = cc
some_row (err does_not_exist) h = cc
some_row (err _) h = cc

-- A row that `get_relative` finds has the id that was asked for.
id-get_relative :
    (seasons : List Season) (s : Season) (diff : ℤ) (t : Season)
    → get_relative seasons s diff ≡ ok (some t)
    → pos t.id ≡ pos s.id +ℤ diff
unfolding get_relative
id-get_relative seasons s diff t e = (==ℤ_iff (pos t.id) (pos s.id +ℤ diff)).0 (
    get-eq-ok (λ (u : Season). pos u.id ==ℤ (pos s.id +ℤ diff)) seasons
      (some_row (get (λ (u : Season). pos u.id ==ℤ (pos s.id +ℤ diff)) seasons) e))

get_raises : (found : List Season) → missing_to_none (only found) ≢ err exception_raised
get_raises [] = cc
get_raises (s ∷ []) = cc
get_raises (s ∷ u ∷ rest) = cc

-- The ids of the fetch and of the joins, their neighbours `F` and `J`, and the facts about them.
module _ (seasons : List Season) (fetch : Season) (fv : ℤ) (join : Season) (jv : ℤ) where
  abbrev f : ℤ
  f = pos fetch.id

  abbrev j : ℤ
  j = pos join.id

  pub combine-Allows :
      {s : Season} {v : ℤ}
      → combine seasons fetch fv join jv ≡ ok (some s, v)
      → (c : ℤ) → (Allows f fv c × Allows j jv c) ↔ Allows (pos s.id) v c
  unfolding combine
  combine-Allows {s} {v} e c = ground (
    arith,
    ==ℤ_iff f j,
    ==ℤ_iff f (j +ℤ jv),
    ==ℤ_iff (f +ℤ fv) j,
    ==ℤ_iff (f +ℤ fv) (j +ℤ jv),
    ==ℤ_iff fv (pos 0),
    ==ℤ_iff jv (pos 0),
    ==ℤ_iff fv jv,
    add_none f,
    add_none j,
    add_none (f +ℤ fv),
    add_self f fv,
    add_self j jv,
    add_cancel f fv jv,
    id-get_relative seasons fetch fv s,
    add_none (pos s.id),
  )

  relative_raises : (diff : ℤ) → get_relative seasons fetch diff ≢ err exception_raised
  unfolding get_relative
  relative_raises diff =
      get_raises (filter (λ (u : Season). pos u.id ==ℤ (pos fetch.id +ℤ diff)) seasons)

  combine-err :
      (combine seasons fetch fv join jv ≡ err exception_raised)
      ↔ ((c : ℤ) → ¬ (Allows f fv c × Allows j jv c))
  unfolding combine
  combine-err = (
    (λ e c. ground (
      arith,
      ==ℤ_iff f j,
      ==ℤ_iff f (j +ℤ jv),
      ==ℤ_iff (f +ℤ fv) j,
      ==ℤ_iff (f +ℤ fv) (j +ℤ jv),
      relative_raises fv,
    )),
    (λ h. ground (
      arith,
      ==ℤ_iff f j,
      ==ℤ_iff f (j +ℤ jv),
      ==ℤ_iff (f +ℤ fv) j,
      ==ℤ_iff (f +ℤ fv) (j +ℤ jv),
      h f,
      h (f +ℤ fv),
    )),
  )

module _ (seasons : List Season) (fetch : FetchInfo) (join : JoinInfo) (fetched joined : Season)
    (fv jv : ℤ) (fetch_known : fetch_of seasons fetch ≡ ok (some fetched, fv))
    (join_known : join_of seasons join ≡ ok (some joined, jv)) where
  -- Where the fetch gives the season `fetched` with `fv`, and the joins give `joined` with `jv`, a
  -- season `s` that `determine_season` returns with `v` allows exactly the ids that both allow.
  pub determine_season-Allows :
      {s : Season} {v : ℤ}
      → determine_season seasons fetch join ≡ ok (some s, v)
      → (c : ℤ)
      → (Allows (pos fetched.id) fv c × Allows (pos joined.id) jv c) ↔ Allows (pos s.id) v c
  unfolding determine_season
  determine_season-Allows {s} {v} e c =
      combine-Allows seasons fetched fv joined jv {s = s} {v = v}
        (rw (fetch_known, join_known) at e) c

  -- Under the same conditions `determine_season` raises its exception that they cannot agree on a
  -- season exactly when no id is allowed by both.
  determine_season-err :
      (determine_season seasons fetch join ≡ err exception_raised)
      ↔ ((c : ℤ) → ¬ (Allows (pos fetched.id) fv c × Allows (pos joined.id) jv c))
  unfolding determine_season
  determine_season-err = rw (fetch_known, join_known) (combine-err seasons fetched fv joined jv)
