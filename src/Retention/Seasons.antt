-- ===== src/Retention/Seasons.antt =====
-- The last ranking of each season in `delete_old_rankings` of main/delete.py.
use rankedftw.Store.{Ranking}
use rankedftw.Prelude.{
  ap, true, sym, ◌≤◌, refl, ◌≢◌, ◌∙◌, arith, [], ◌<◌, zero, some, ◌≡◌, ◌∷◌, suc, get_elem?, ℕ, List,
}
use rankedftw.Retention.{Mark, kept, keep_seasons, keep_front, unmarked}
use rankedftw.Retention.Flags.{flag}
use rankedftw.Retention.Keeps.{
  ended, seasoned, final, IsKeyed, flag-final, front_place, flag_elem, Distinct-seasoned,
}

-- Rankings by strictly descending ids.
abbrev pub IsDescending : List Ranking → Type 0
IsDescending [] = Unit
IsDescending (r ∷ []) = Unit
IsDescending (r ∷ q ∷ rs) = (q.id < r.id) × IsDescending (q ∷ rs)

-- The season of the entry before place `i`, or the one that the loop starts with.
abbrev season_before : ℕ → List Mark → ℕ → ℕ
season_before s a zero = s
season_before s [] (suc i) = s
season_before s (m ∷ a) (suc i) = season_before m.ranking.season_id a i

season_elem :
    (s : ℕ) (a : List Mark) (i : ℕ) {m : Mark}
    → get_elem? a i ≡ some m
    → season_before s a i ≢ m.ranking.season_id
    → get_elem? (keep_seasons s a) i ≡ some (kept m)
unfolding keep_seasons
season_elem s [] i e h = cc
season_elem s (x ∷ a) zero e h = ground (arith, h)
season_elem s (x ∷ a) (suc i) e h = season_elem x.ranking.season_id a i e h

season_at :
    (s : ℕ) (a : List Mark) (i : ℕ) {m : Mark}
    → get_elem? a i ≡ some m
    → season_before s a (suc i) ≡ m.ranking.season_id
season_at s [] i e = cc
season_at s (x ∷ a) zero e = ground arith
season_at s (x ∷ a) (suc i) e = season_at x.ranking.season_id a i e

-- The entry before one that is there.
descending_pred :
    (rs : List Ranking) (i : ℕ) {r : Ranking}
    → IsDescending rs
    → get_elem? rs (suc i) ≡ some r
    → (q : Ranking) × (get_elem? rs i ≡ some q) × (r.id < q.id)
descending_pred [] i d e = cc
descending_pred (x ∷ []) i d e = cc
descending_pred (x ∷ y ∷ rs) zero d e = (x, refl, ground arith)
descending_pred (x ∷ y ∷ rs) (suc i) d e = descending_pred (y ∷ rs) i d.1 e

end_place :
    (a : List Mark) (i : ℕ) {m : Mark}
    → get_elem? a i ≡ some m
    → (n : Mark) × (get_elem? (ended a) i ≡ some n) × (n.ranking ≡ m.ranking)
end_place [] i e = cc
end_place (x ∷ []) zero e = (kept x, refl, ground arith)
end_place (x ∷ []) (suc i) e = cc
end_place (x ∷ y ∷ a) zero e = (x, refl, ground arith)
end_place (x ∷ y ∷ a) (suc i) e = end_place (y ∷ a) i e

module _ (n : ℕ) (rs : List Ranking) (keyed : IsKeyed rs) (descending : IsDescending rs) where
  abbrev entries : List Mark
  entries = ended (keep_front n (unmarked rs))

  place :
      (i : ℕ) {r : Ranking}
      → get_elem? rs i ≡ some r
      → (m : Mark) × (get_elem? entries i ≡ some m) × (m.ranking ≡ r)
  place i e =
      let (m, at, same) = front_place n rs i e in
      let (m', at', same') = end_place (keep_front n (unmarked rs)) i at in (m', at', same' ∙ same)

  before_differs :
      (i : ℕ) (r : Ranking)
      → get_elem? rs i ≡ some r
      → r.season_id ≢ 0
      → ((j : ℕ) (q : Ranking) → get_elem? rs j ≡ some q → q.season_id ≡ r.season_id → q.id ≤ r.id)
      → season_before 0 entries i ≢ r.season_id
  before_differs zero r e real last = λ h. real (sym h)
  before_differs (suc i) r e real last = λ h.
      let (q, at, less) = descending_pred rs i descending e in
      let (m, at', same) = place i at in
      absurd (
        omega (
          arith,
          last i q at
              (ap (λ (x : Ranking). x.season_id) (sym same) ∙ sym (season_at 0 entries i at') ∙ h),
        ))

  -- A ranking with the greatest id of its season is kept.
  pub flag_season :
      (i : ℕ) (r : Ranking)
      → get_elem? rs i ≡ some r
      → r.season_id ≢ 0
      → ((j : ℕ) (q : Ranking) → get_elem? rs j ≡ some q → q.season_id ≡ r.season_id → q.id ≤ r.id)
      → flag r.id (final n rs) ≡ some true
  flag_season i r e real last =
      let (m, at, same) = place i e in
      let differs = rw (← same) at (before_differs i r e real last) in
      flag-final n rs keyed r.id (
        rw (← same) (
          flag_elem (seasoned n rs) i (Distinct-seasoned n rs keyed)
            (season_elem 0 entries i at differs)))
