-- ===== src/Scripts/Linked.antt =====
-- Which sources a ranking has once it is repaired.
use mathlib.Core.Path.{subst}
use mathlib.Core.Bool.{true≢false}
use rankedftw.Fetch.Cached.{of_ranking}
use rankedftw.Prelude.{
  ℕ, ◌==◌, ==_iff, true, Option, none, some, [], ◌∷◌, ◌≡◌, ◌≢◌, refl, sym, ap, ◌∙◌, inl, inr, arith,
  Bool-cases,
}
use rankedftw.Prelude.Objects.{filter}
use rankedftw.Scripts.Any.{
  AnyRow, AnyRow-append, AnyRow-last, AnyRow-filter, AnyRow-saved, AnyRow-save_row,
}
use rankedftw.Scripts.Repair.{is_unlinked, take_cache}
use rankedftw.Scripts.Spared.{id_of_cache, find-append, find-filter}
use rankedftw.Season.{is_none}
use rankedftw.Store.{Db, Cache}
use rankedftw.Store.Keys.{find, find-saved, find-save_row_ne}

-- A cache without its keys.
abbrev pub content : Cache → Cache
content c = record c { id = 0; ranking_id = none; ladder_id = none }

-- A source of the ranking with the content of a cache.
abbrev pub IsSourceOf : ℕ → Cache → Cache → Type 0
IsSourceOf ranking c s = (s.ranking_id ≡ some ranking) × (content s ≡ content c)

is_none-none : (o : Option ℕ) → is_none o ≡ true → o ≡ none
is_none-none none h = refl
is_none-none (some i) h = absurd cc

is_unlinked-none : (x : Cache) → is_unlinked x ≡ true → x.ranking_id ≡ none
is_unlinked-none x free = is_none-none x.ranking_id (ground arith)

of_ranking-some : (ranking : ℕ) (o : Option ℕ) → of_ranking ranking o ≡ true → o ≡ some ranking
of_ranking-some ranking none h = absurd cc
of_ranking-some ranking (some i) h = ap (λ k. some k) ((==_iff i ranking).0 h)

module _ (ranking : ℕ) (c : Cache) where
  abbrev pub HasSource : Db → Type 0
  HasSource db = AnyRow (IsSourceOf ranking c) db.caches

  -- The row of the cache, whatever its keys are.
  abbrev pub HasRow : Db → Type 0
  HasRow db = (d : Cache) × (find id_of_cache c.id db.caches ≡ some d) × (content d ≡ content c)

  pub take_cache-HasSource :
      (x : Cache) (db : Db)
      → filter (λ (d : Cache). d.id == x.id) db.caches ≡ x ∷ []
      → HasSource db
      → HasSource (take_cache ranking x db).1
  take_cache-HasSource x db one h = elim (Bool-cases (is_unlinked x)) [
    | inl free ↦ rw free (
        AnyRow-save_row (IsSourceOf ranking c) (record x { ranking_id = some ranking }) x db.caches
          one (λ is. none_other (sym (is_unlinked-none x free) ∙ is.0)) h)
    | inr bound ↦ elim (Bool-cases (of_ranking ranking x.ranking_id)) [
      | inl mine ↦ rw (bound, mine) h
      | inr their ↦ rw (bound, their) (AnyRow-append (IsSourceOf ranking c) db.caches _ h)
    ]
  ]
    where
      none_other : (none ≡ some ranking) → ⊥
      none_other e = absurd cc

  -- The cache itself becomes a source, or a copy of it does.
  pub take_cache-source :
      (x : Cache) (db : Db)
      → filter (λ (d : Cache). d.id == x.id) db.caches ≡ x ∷ []
      → content x ≡ content c
      → HasSource (take_cache ranking x db).1
  take_cache-source x db one same = elim (Bool-cases (is_unlinked x)) [
    | inl free ↦ rw free (
        AnyRow-saved (IsSourceOf ranking c) (record x { ranking_id = some ranking }) db.caches
          (refl, same))
    | inr bound ↦ elim (Bool-cases (of_ranking ranking x.ranking_id)) [
      | inl mine ↦
          rw (bound, mine)
            (AnyRow-filter (IsSourceOf ranking c) _ x db.caches one
              (of_ranking-some ranking x.ranking_id mine, same))
      | inr their ↦ rw (bound, their) (AnyRow-last (IsSourceOf ranking c) db.caches _ (refl, same))
    ]
  ]

  pub take_cache-HasRow :
      (x : Cache) (db : Db)
      → filter (λ (d : Cache). d.id == x.id) db.caches ≡ x ∷ []
      → HasRow db
      → HasRow (take_cache ranking x db).1
  take_cache-HasRow x db one (d, here, same) = elim (Bool-cases (is_unlinked x)) [
    | inl free ↦
        let row : Cache = record x { ranking_id = some ranking } in
        elim (Bool-cases (x.id == c.id)) [
          | inl e ↦
              let hit = (==_iff x.id c.id).0 e in
              let first : x ≡ d =
                find-filter c.id d x db.caches here
                  (subst (λ j. filter (λ (q : Cache). q.id == j) db.caches ≡ x ∷ []) hit one) in
              rw free (row, find-saved id_of_cache c.id row db.caches hit, ap content first ∙ same)
          | inr e ↦
              let other : x.id ≢ c.id = λ hit. true≢false (sym ((==_iff x.id c.id).1 hit) ∙ e) in
              rw free (d, find-save_row_ne id_of_cache c.id row db.caches other ∙ here, same)
        ]
    | inr bound ↦ elim (Bool-cases (of_ranking ranking x.ranking_id)) [
      | inl mine ↦ rw (bound, mine) (d, here, same)
      | inr their ↦ rw (bound, their) (d, find-append c.id d _ db.caches here, same)
    ]
  ]
