-- ===== src/Retention/Gaps.antt =====
-- The time between the rankings that `delete_old_rankings` of main/delete.py leaves and one that it
-- deletes.
use rankedftw.Prelude.Objects.{List-cases}
use rankedftw.Prelude.Sort.{sort_by}
use rankedftw.Prelude.{
  ◌∙◌, sym, Bool-cases, inr, inl, ◌⊎◌, ◌∷◌, ◌<◌, ◌*◌, none, ◌+◌, some, ℕ, ltb, Option, List, refl,
  true, false, ◌&&◌, Bool, arith, ◌≤◌, ◌≡◌,
}
use rankedftw.Store.{Db, complete_with_data, Ranking}
use rankedftw.Prelude.Clock.{day, Time}
use rankedftw.Retention.{
  delete_old_rankings, Mark, unmarked, keep_front, keep_spaced, spaced_by_time, earlier, smaller_id,
  year_2000, last_time, interval,
}
use rankedftw.Retention.Flags.{
  Grows-keep_front, Grows-keep_seasons, Grows-keep_spaced, flag-sort_by, Distinct-sort_by,
  Distinct-Grows, flag, Distinct,
}
use rankedftw.Retention.Keeps.{Grows-ended, flag_elem, Distinct-seasoned, final, seasoned, ended}
use rankedftw.Retention.Purge.{delete_old_rankings_unchanged, find, find_after, is_dropped}
use rankedftw.Retention.Order.{HasKeys-complete, HasKeys-IsKeyed, HasKeys, complete_rankings}
use rankedftw.Retention.Sources.{
  flag_place, Sourced-elem, Sourced-sort_by, Sourced-Grows, Sourced, Sourced-complete,
}
use rankedftw.Retention.Spacing.{IsTimed-sort_by, Anchor, spaced_gap}

-- The interval is 28 days at most, and 7 days while the ranking has its data.
interval_le : (last : Time) (r : Ranking) → interval last r ≤ 28
interval_le last r = ground arith

&&_false : (b : Bool) → (b && false) ≡ false
&&_false true = refl
&&_false false = refl

interval_with_data :
    (last : Time) (r : Ranking) → r.status ≡ complete_with_data → interval last r ≡ 7
interval_with_data last r e = rw (e, &&_false (ltb (r.data_time + 365 * day) last))

-- A ranking of the table that is not later than `r`, and less than 28 days before it, or less than 7
-- days while `r` has its data.
pub record Neighbour (rs : List Ranking) (r : Ranking) : Type 0 where
  pub other : Ranking
  pub stays : find other.id rs ≡ some other
  pub order : other.data_time ≤ r.data_time
  pub near : r.data_time < other.data_time + 28 * day
  pub near_with_data : r.status ≡ complete_with_data → r.data_time < other.data_time + 7 * day

dropped_flag : (o : Option Bool) → is_dropped o ≡ true → o ≡ some false
dropped_flag none e = cc
dropped_flag (some true) e = cc
dropped_flag (some false) e = refl

module _ (n : ℕ) (db : Db) (keys : HasKeys db.rankings) where
  abbrev timed : List Mark
  timed = sort_by earlier (seasoned n (complete_rankings db.rankings))

  abbrev spaced : List Mark
  spaced = keep_spaced (last_time timed) year_2000 timed

  Distinct-timed : Distinct timed
  Distinct-timed = Distinct-sort_by earlier (seasoned n (complete_rankings db.rankings)) (
      Distinct-seasoned n (complete_rankings db.rankings)
        (HasKeys-IsKeyed (complete_rankings db.rankings) (HasKeys-complete db.rankings keys)))

  Distinct-spaced : Distinct spaced
  Distinct-spaced =
      Distinct-Grows timed _ (Grows-keep_spaced (last_time timed) timed year_2000) Distinct-timed

  Sourced-spaced : Sourced db.rankings spaced
  Sourced-spaced =
      let listed = complete_rankings db.rankings in
      let front = keep_front n (unmarked listed) in
      Sourced-Grows db.rankings timed _ (Grows-keep_spaced (last_time timed) timed year_2000) (
        Sourced-sort_by earlier db.rankings (seasoned n listed) (
          Sourced-Grows db.rankings _ _ (Grows-keep_seasons 0 (ended front)) (
            Sourced-Grows db.rankings _ _ (Grows-ended front) (
              Sourced-Grows db.rankings _ _ (Grows-keep_front n (unmarked listed))
                (Sourced-complete db.rankings keys)))))

  flag-spaced : (k : ℕ) → flag k (final n (complete_rankings db.rankings)) ≡ flag k spaced
  unfolding spaced_by_time
  flag-spaced k = flag-sort_by smaller_id k spaced Distinct-spaced

  neighbour :
      (q : Ranking) (qs : List Ranking) (m : Mark)
      → complete_rankings db.rankings ≡ q ∷ qs
      → Anchor (last_time timed) spaced m
      → Neighbour (delete_old_rankings true n db).1.rankings m.ranking
  neighbour q qs m shape g = record {
    other = g.entry.ranking;
    stays =
        rw
          (
            find_after n db keys g.entry.ranking.id q qs shape,
            flag-spaced g.entry.ranking.id,
            flag_elem spaced g.at Distinct-spaced g.there,
            g.is_kept,
          )
          (Sourced-elem db.rankings spaced g.at Sourced-spaced g.there);
    order = g.order;
    near = omega (arith, g.recent, interval_le (last_time timed) m.ranking);
    near_with_data = λ e. omega (arith, g.recent, interval_with_data (last_time timed) m.ranking e);
  }

  Neighbour-of_flag :
      (q : Ranking) (qs : List Ranking) (r : Ranking)
      → complete_rankings db.rankings ≡ q ∷ qs
      → find r.id db.rankings ≡ some r
      → flag r.id spaced ≡ some false
      → (r.data_time < year_2000 + 28 * day)
        ⊎ Neighbour (delete_old_rankings true n db).1.rankings r
  Neighbour-of_flag q qs r shape e dropped =
      let (i, m, at, has, set) = flag_place r.id spaced false dropped in
      let row = Sourced-elem db.rankings spaced i Sourced-spaced at in
      let same : m.ranking ≡ r = ground (arith, row) in
      let sorted = IsTimed-sort_by (seasoned n (complete_rankings db.rankings)) in
      elim (spaced_gap (last_time timed) timed year_2000 i m sorted at set) [
        | inl early ↦
            inl (rw (← same) (omega (arith, early, interval_le (last_time timed) m.ranking)))
        | inr g ↦ inr (rw (← same) (neighbour q qs m shape g))
      ]

  -- Ids are unique in the table of rankings. A ranking that the deletion removes has a data time
  -- before 28 days into the year 2000, or there is one left, not later than it, that is less than
  -- 28 days before it, and less than 7 days before it if it has its data.
  pub delete_old_rankings-Neighbour :
      (r : Ranking)
      → find r.id db.rankings ≡ some r
      → find r.id (delete_old_rankings true n db).1.rankings ≡ none
      → (r.data_time < year_2000 + 28 * day)
        ⊎ Neighbour (delete_old_rankings true n db).1.rankings r
  delete_old_rankings-Neighbour r e gone = elim (List-cases (complete_rankings db.rankings)) [
    | inl nothing ↦
        let stays : find r.id (delete_old_rankings true n db).1.rankings ≡ some r =
          rw (delete_old_rankings_unchanged true n db (inr nothing)) e in
        cc (stays, gone)
    | inr (q, qs, shape) ↦
        elim (Bool-cases (is_dropped (flag r.id (final n (complete_rankings db.rankings))))) [
          | inl out ↦ Neighbour-of_flag q qs r shape e (sym (flag-spaced r.id) ∙ dropped_flag _ out)
          | inr still ↦
              let kept_row = find_after n db keys r.id q qs shape in
              let stays : find r.id (delete_old_rankings true n db).1.rankings ≡ some r =
                rw (kept_row, still) e in
              cc (stays, gone)
        ]
  ]
