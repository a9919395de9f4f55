-- ===== src/Store/Rows.antt =====
-- `save()` on a row: the row of the same id is replaced, or the row is added at the end.
use rankedftw.Prelude.{
  false, true, leb, Bool, inr, inl, Bool-cases, ==_iff, ◌≢◌, ◌≡◌, [], ◌==◌, if◌then◌else◌, ◌∷◌,
  List, ℕ,
}
use rankedftw.Store.{
  complete_without_data, complete_with_data, RankingStatus, Db, Season, Cache, Ladder, Ranking,
}

module _ {ℓ} {A : Type ℓ} (key : A → ℕ) where
  unfoldable pub save_row : A → List A → List A
  save_row x [] = x ∷ []
  save_row x (y ∷ ys) = if key y == key x then x ∷ ys else y ∷ save_row x ys

abbrev pub save_season : Season → Db → Db
save_season s db = record db { seasons = save_row (λ (t : Season). t.id) s db.seasons }

abbrev pub save_ladder : Ladder → Db → Db
save_ladder l db = record db { ladders = save_row (λ (m : Ladder). m.id) l db.ladders }

abbrev pub save_cache : Cache → Db → Db
save_cache c db = record db { caches = save_row (λ (d : Cache). d.id) c db.caches }

abbrev pub save_ranking : Ranking → Db → Db
save_ranking r db = record db { rankings = save_row (λ (q : Ranking). q.id) r db.rankings }

module _ {ℓ} {A : Type ℓ} (key : A → ℕ) where
  -- Where a row is saved, by the id of the first row.
  pub save_row_hit : (x y : A) (ys : List A) → key y ≡ key x → save_row key x (y ∷ ys) ≡ x ∷ ys
  unfolding save_row
  save_row_hit x y ys e = rw ((==_iff (key y) (key x)).1 e)

  pub save_row_miss :
      (x y : A) (ys : List A) → key y ≢ key x → save_row key x (y ∷ ys) ≡ y ∷ save_row key x ys
  unfolding save_row
  save_row_miss x y ys h = elim (Bool-cases (key y == key x)) [
    | inl e ↦ absurd (h ((==_iff (key y) (key x)).0 e))
    | inr e ↦ rw e
  ]

-- `status__in=(COMPLETE_WITH_DATA, COMPLETE_WITOUT_DATA)` and `order_by('-id')`.
abbrev pub is_complete : RankingStatus → Bool
is_complete complete_with_data = true
is_complete complete_without_data = true
is_complete _ = false

abbrev pub later_first : Ranking → Ranking → Bool
later_first r q = leb q.id r.id
