-- ===== src/Refetch/Due.antt =====
-- Which ladders `refetch_past_season` of main/refetch.py writes.
use rankedftw.Update.Batches.{is_good_strangeness, has_season}
use rankedftw.Prelude.Int.{==ℤ_iff}
use rankedftw.Season.{missing_to_none}
use rankedftw.Enums.Mode.{team_size}
use rankedftw.Refetch.{set_data_time}
use rankedftw.Prelude.Objects.{get, filter}
use rankedftw.Prelude.Clock.{day, Time}
use rankedftw.Fetch.Answers.{info}
use rankedftw.Store.Rows.{save_ladder}
use rankedftw.Prelude.Result.{err, ok, system_exit, key_error, Result, raise_if}
use rankedftw.Fetch.Cached.{
  is_ranked, FetchedLadder, refreshed, save_refreshed, save_answer, UpdateCall, update_ladder_cache,
}
use rankedftw.Store.{
  Ranking, Season, Cache, Db, Ladder, Strangeness, good, nyd, strange, nop, missing,
}
use rankedftw.Enums.Region as Region
use rankedftw.Prelude.{
  ==_iff, refl, ap, ◌⊎◌, inl, inr, if◌then◌else◌, arith, ◌*◌, inr, [], true, inl, ◌+◌, Bool-cases,
  ◌∷◌, ◌∙◌, none, false, ◌==◌, List, Bool, some, not, ◌≡◌, ◌≢◌, Option, ℕ,
}
use rankedftw.Refetch.Missing.{ladder_key}
use rankedftw.Refetch.Past.{
  min_updated, is_fresh, last_ranking, refresh_days, is_due, subtract, is_known, PastRun,
  refetch_ladder, refetch_ladders, refetch_past_season, refetch_ranked, after_loop, save_past,
  is_past, then_rest, unless_stopped,
}
use rankedftw.Store.Action.{pure, ◌>>◌, query, Action, continue_keeps, rollback_keeps, ◌>>=◌, lift}
use rankedftw.Store.Keys.{find-Apart, Apart, IsKeyed, find, find-save_row_ne}

module _ (i : ℕ) (row : Option Ladder) where
  -- The row of an id is what it was.
  abbrev Kept : Db → Type 0
  Kept db = find ladder_key i db.ladders ≡ row

  save_answer-Kept :
      (ranking : ℕ) (ladder : Ladder) (res : FetchedLadder) (found : Option Cache) (db : Db)
      → Kept db
      → Kept (save_answer ranking ladder res found db).1
  save_answer-Kept ranking ladder res none db q = q
  save_answer-Kept ranking ladder res (some c) db q = q

  update_ladder_cache-Kept :
      (update : UpdateCall → Result (Unit {0})) (ranking : ℕ) (ladder : Ladder)
      (res : FetchedLadder)
      → ladder.id ≢ i
      → (db : Db) → Kept db
      → Kept (update_ladder_cache update ranking ladder res db).1
  unfolding update_ladder_cache
  update_ladder_cache-Kept update ranking ladder res ne db q =
      continue_keeps Kept _ (missing_to_none (get (is_ranked ranking ladder) db.caches), db) q
        (λ found e.
          let here = save_answer-Kept ranking ladder res found db q in
          continue_keeps Kept _ (save_answer ranking ladder res found db) here
            (λ lc saved. rest lc (save_answer ranking ladder res found db).1 here))
    where
      rest :
          (lc : Cache) (mid : Db)
          → Kept mid
          → Kept (save_refreshed update ranking ladder res lc mid).1
      rest lc mid m =
          continue_keeps Kept _ (res.last_join, mid) m
            (λ join e.
              continue_keeps Kept _ (res.max_points, mid) m
                (λ points e.
                  continue_keeps Kept _ (res.member_count, mid) m
                    (λ count e.
                      let saved = save_ladder (refreshed res ladder join points count) mid in
                      let kept : Kept saved =
                        find-save_row_ne ladder_key i (refreshed res ladder join points count)
                          mid.ladders ne
                        ∙ m in
                      continue_keeps Kept _ (team_size ladder.mode, saved) kept
                        (λ size e.
                          continue_keeps Kept _ (res.members_for_ranking size, saved) kept
                            (λ members e. kept)))))

  refetch_ladder-Kept :
      (run : PastRun) (ranking count : ℕ) (ladder : Ladder)
      → ladder.id ≢ i
      → (db : Db) → Kept db
      → Kept (refetch_ladder run ranking count ladder db).1
  unfolding refetch_ladder
  refetch_ladder-Kept run ranking count ladder ne db q =
      let res = run.fetch_ladder count ladder in
      rollback_keeps Kept db _ q (
        continue_keeps Kept _ (raise_if (not (is_known ladder.region)) key_error, db) q
          (λ a e.
            continue_keeps Kept _ (info ladder, db) q
              (λ b e.
                continue_keeps Kept _ (raise_if (res.status == 503) system_exit, db) q
                  (λ c e. elim (Bool-cases (res.status == 200)) [
                    | inl fine ↦ rw fine (
                        update_ladder_cache-Kept run.cpp.update_with_ladder ranking ladder res ne db
                          q)
                    | inr bad ↦ rw bad q
                  ]))))

  refetch_ladders-Kept :
      (run : PastRun) (ranking count : ℕ) (ladders : List Ladder)
      → Apart ladder_key i ladders
      → (db : Db) → Kept db
      → Kept (refetch_ladders run ranking count ladders db).2
  unfolding refetch_ladders
  refetch_ladders-Kept run ranking count [] a db q = q
  refetch_ladders-Kept run ranking count (l ∷ ladders) a db q = stop (run.check_stop count) (
      turn (refetch_ladder run ranking count l db)
        (refetch_ladder-Kept run ranking count l a.0 db q)
        (refetch_ladders-Kept run ranking (count + 1) ladders a.1))
    where
      rest : Db → Result (Unit {0}) × Bool × Db
      rest = refetch_ladders run ranking (count + 1) ladders

      turn :
          (r : Result (Unit {0}) × Db)
          → Kept r.1
          → ((now : Db) → Kept now → Kept (rest now).2)
          → Kept (then_rest (is_known l.region) rest r).2
      turn (ok done, now) here later = later now here
      turn (err e, now) here later = here

      stop :
          (r : Result (Unit {0}))
          → Kept (then_rest (is_known l.region) rest (refetch_ladder run ranking count l db)).2
          → Kept
              (unless_stopped r
                (λ now. then_rest (is_known l.region) rest (refetch_ladder run ranking count l now))
                db).2
      stop (ok done) k = k
      stop (err e) k = q

  save_past-Kept :
      (run : PastRun) (season : Season) (ranking : Ranking) (fetched : Bool) (db : Db)
      → Kept db
      → Kept (save_past run season ranking fetched db).1
  save_past-Kept run season ranking false db q = q
  save_past-Kept run season ranking true db q =
      continue_keeps Kept _ (run.cpp.save_data ranking.id ranking.season_id, db) q
        (λ a e.
          continue_keeps Kept _ (run.cpp.save_stats ranking.id, db) q
            (λ b e.
              continue_keeps Kept _ (set_data_time season run.cpp.min_max_data_time ranking, db) q
                (λ timed e. q)))

  after_loop-Kept :
      (run : PastRun) (season : Season) (ranking : Ranking) (r : Result (Unit {0}) × Bool × Db)
      → Kept r.2
      → Kept (after_loop run season ranking r).1
  after_loop-Kept run season ranking (ok done, fetched, db) q =
      save_past-Kept run season ranking fetched db q
  after_loop-Kept run season ranking (err system_exit, fetched, db) q =
      save_past-Kept run season ranking fetched db q
  after_loop-Kept run season ranking (err e, fetched, db) q = q

  refetch_ranked-Kept :
      (run : PastRun) (season : Season) (force : Bool) (limit : Time) (ranking : Option Ranking)
      (db : Db)
      → Apart ladder_key i (filter (is_due force season.id limit) db.ladders)
      → Kept db
      → Kept (refetch_ranked run season force limit ranking db).1
  refetch_ranked-Kept run season force limit none db a q = q
  refetch_ranked-Kept run season force limit (some ranking) db a q =
      continue_keeps Kept _
        (is_fresh force limit (min_updated (filter (is_past season.id) db.ladders)), db) q
        (λ fresh e. elim fresh as (λ f. Kept ((if f then pure tt else again) db).1) [
          | true ↦ q
          | false ↦ work
        ])
    where
      again : Action (Unit {0})
      again = do
        ladders ← query (λ now. ok (filter (is_due force season.id limit) now.ladders))
        lift (run.cpp.load ranking.id)
        λ now. after_loop run season ranking (refetch_ladders run ranking.id 1 ladders now)

      work : Kept (again db).1
      work =
          continue_keeps Kept _ (run.cpp.load ranking.id, db) q
            (λ done e.
              after_loop-Kept run season ranking
                (refetch_ladders run ranking.id 1 (filter (is_due force season.id limit) db.ladders)
                  db)
                (refetch_ladders-Kept run ranking.id 1 _ a db q))

-- A ladder of another season, of SEA, or that is not good.
abbrev pub Spared : ℕ → Ladder → Type 0
Spared season l = (l.season_id ≢ some season) ⊎ ((l.region ≡ Region.sea) ⊎ (l.strangeness ≢ good))

has_season_other : (season : ℕ) (o : Option ℕ) → o ≢ some season → has_season season o ≡ false
has_season_other season none h = refl
has_season_other season (some id) h = elim (Bool-cases (id == season)) [
  | inl e ↦ absurd (h (ap (λ k. some k) ((==_iff id season).0 e)))
  | inr e ↦ e
]

is_good_strangeness_other : (s : Strangeness) → s ≢ good → is_good_strangeness s ≡ false
is_good_strangeness_other good h = absurd (h refl)
is_good_strangeness_other nyd h = refl
is_good_strangeness_other strange h = refl
is_good_strangeness_other nop h = refl
is_good_strangeness_other missing h = refl

Spared-is_past : (season : ℕ) (l : Ladder) → Spared season l → is_past season l ≡ false
Spared-is_past season l (inl h) = ground (arith, has_season_other season l.season_id h)
Spared-is_past season l (inr (inl h)) = ground (arith, (==ℤ_iff l.region Region.sea).1 h)
Spared-is_past season l (inr (inr h)) = ground (arith, is_good_strangeness_other l.strangeness h)

-- Where the ids of the ladders differ, `refetch_past_season`, whether or not it raises, leaves the
-- row of each ladder as it was that is of another season or of SEA or not good.
pub refetch_past_season-find :
    (run : PastRun) (season : Season) (now : Time) (force : Bool) (db : Db) (i : ℕ) (l : Ladder)
    → IsKeyed ladder_key db.ladders
    → find ladder_key i db.ladders ≡ some l
    → Spared season.id l
    → find ladder_key i (refetch_past_season run season now force db).1.ladders ≡ some l
unfolding refetch_past_season
refetch_past_season-find run season now force db i l k found spared =
    let out = Spared-is_past season.id l spared in
    continue_keeps (Kept i (some l)) _ (subtract now (refresh_days * day), db) found
      (λ limit e.
        refetch_ranked-Kept i (some l) run season force limit (last_ranking season.id db.rankings)
          db
          (find-Apart ladder_key (is_due force season.id limit) i l db.ladders k found
            (ground (arith, out)))
          found)
