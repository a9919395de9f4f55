-- ===== src/Refetch/Past.antt =====
-- `refetch_past_season` and `refetch_past_seasons` of main/refetch.py.
use rankedftw.Store.Rows.{save_ranking}
use Prim.Native.Nat.{min}
use rankedftw.Prelude.Sort.{sort_by}
use rankedftw.Enums.{key_by_ids, id_get}
use rankedftw.Prelude.Objects.{filter, first}
use rankedftw.Update.Batches.{is_good_strangeness, has_season}
use rankedftw.Prelude.Result.{
  system_exit, key_error, raise_if, exception_raised, type_error, overflow_error, err, ok, Result,
}
use rankedftw.Prelude.Int.{◌==ℤ◌, ℤ}
use rankedftw.Prelude.Clock.{day, Time}
use rankedftw.Prelude.{
  ◌+◌, ◌*◌, ◌==◌, ◌-◌, true, [], some, leb, ◌∷◌, ltb, false, ◌||◌, none, if◌then◌else◌, ◌&&◌, not,
  Option, ℕ, List, Bool,
}
use rankedftw.Refetch.{Cpp, set_data_time}
use rankedftw.Fetch.Cached.{FetchedLadder, update_ladder_cache}
use rankedftw.Fetch.Answers.{info}
use rankedftw.Store.{Ladder, Db, Season, Ranking}
use rankedftw.Store.Action.{Action, ◌>>=◌, ◌>>◌, lift, query, modify, atomic, pure}
use rankedftw.Season.{is_none}
use rankedftw.Enums.Region as Region

-- The values that the calls of one run over a season return or raise, by the place of the ladder.
pub record PastRun : Type 0 where
  pub check_stop : ℕ → Result (Unit {0})
  pub fetch_ladder : ℕ → Ladder → FetchedLadder
  pub cpp : Cpp

-- `Season.REFETCH_PAST_REFRESH_WHEN_OLDER_THAN_DAYS` and the others, `LAST_AVAILABLE_SEASON`.
abbrev pub refresh_days : ℕ
refresh_days = 5

abbrev pub min_days_after_end : ℕ
min_days_after_end = 3

abbrev pub until_days_after_end : ℕ
until_days_after_end = 2

abbrev pub last_available : ℕ
last_available = 28

abbrev pub subtract : Time → ℕ → Result Time
subtract t delta = if ltb t delta then err overflow_error else ok (t - delta)

-- `Ladder.objects.filter(season=season, strangeness=Ladder.GOOD).exclude(region=Region.SEA)`.
abbrev pub is_past : ℕ → Ladder → Bool
is_past season l =
    has_season season l.season_id
    && is_good_strangeness l.strangeness
    && not (l.region ==ℤ Region.sea)

abbrev pub min_updated : List Ladder → Option Time
min_updated [] = none
min_updated (l ∷ ladders) = min_of l.updated (min_updated ladders)
  where
    min_of : Time → Option Time → Option Time
    min_of t none = some t
    min_of t (some u) = some (min t u)

-- `not force and need_refetch_limit < last_updated`, which raises where no ladder has been updated.
abbrev pub is_fresh : Bool → Time → Option Time → Result Bool
is_fresh true limit updated = ok false
is_fresh false limit none = err type_error
is_fresh false limit (some updated) = ok (ltb limit updated)

abbrev pub is_due : Bool → ℕ → Time → Ladder → Bool
is_due force season limit l = is_past season l && (force || ltb l.updated limit)

-- The last ranking of the season by its data time.
abbrev pub last_ranking : ℕ → List Ranking → Option Ranking
last_ranking season rankings = first (
    sort_by (λ (r q : Ranking). leb q.data_time r.data_time)
      (filter (λ (r : Ranking). r.season_id == season) rankings))

abbrev pub is_known : ℤ → Bool
is_known region = not (is_none (id_get region (key_by_ids Region.mapping)))

-- One turn of the loop: `continue` on another status than 200.
unfoldable pub refetch_ladder : PastRun → ℕ → ℕ → Ladder → Action (Unit {0})
unfolding info update_ladder_cache
refetch_ladder run ranking count ladder =
    let res = run.fetch_ladder count ladder in
    let update = update_ladder_cache run.cpp.update_with_ladder ranking ladder res in
    atomic (do
      lift (raise_if (not (is_known ladder.region)) key_error)
      lift (info ladder)
      lift (raise_if (res.status == 503) system_exit)
      if res.status == 200 then update else pure tt)

-- The rest of the loop after a turn, with whether `fetch_time` has been assigned.
abbrev pub then_rest :
    Bool
    → (Db → Result (Unit {0}) × Bool × Db)
    → Result (Unit {0}) × Db
    → Result (Unit {0}) × Bool × Db
then_rest fetched rest (ok done, db) =
    let (result, later, after) = rest db in (result, fetched || later, after)
then_rest fetched rest (err e, db) = (err e, fetched, db)

abbrev pub unless_stopped :
    Result (Unit {0}) → (Db → Result (Unit {0}) × Bool × Db) → Db → Result (Unit {0}) × Bool × Db
unless_stopped (ok done) rest db = rest db
unless_stopped (err e) rest db = (err e, false, db)

unfoldable pub refetch_ladders : PastRun → ℕ → ℕ → List Ladder → Db → Result (Unit {0}) × Bool × Db
unfolding refetch_ladder
refetch_ladders run ranking count [] db = (ok tt, false, db)
refetch_ladders run ranking count (l ∷ ladders) db =
    unless_stopped (run.check_stop count)
      (λ now.
        then_rest (is_known l.region) (refetch_ladders run ranking (count + 1) ladders)
          (refetch_ladder run ranking count l now))
      db

-- What follows the loop, whether it ends or raises.
abbrev pub save_past : PastRun → Season → Ranking → Bool → Action (Unit {0})
save_past run season ranking false = pure tt
save_past run season ranking true = do
  lift (run.cpp.save_data ranking.id ranking.season_id)
  lift (run.cpp.save_stats ranking.id)
  timed ← lift (set_data_time season run.cpp.min_max_data_time ranking)
  modify (save_ranking timed)

abbrev pub after_loop :
    PastRun → Season → Ranking → Result (Unit {0}) × Bool × Db → Result (Unit {0}) × Db
after_loop run season ranking (ok done, fetched, db) = save_past run season ranking fetched db
after_loop run season ranking (err system_exit, fetched, db) =
    save_past run season ranking fetched db
after_loop run season ranking (err e, fetched, db) = (err exception_raised, db)

abbrev pub refetch_ranked : PastRun → Season → Bool → Time → Option Ranking → Action (Unit {0})
refetch_ranked run season force limit none = pure tt
refetch_ranked run season force limit (some ranking) = do
  updated ← query (λ db. ok (min_updated (filter (is_past season.id) db.ladders)))
  fresh ← lift (is_fresh force limit updated)
  if fresh then pure tt else (do
    ladders ← query (λ db. ok (filter (is_due force season.id limit) db.ladders))
    lift (run.cpp.load ranking.id)
    λ db. after_loop run season ranking (refetch_ladders run ranking.id 1 ladders db))

unfoldable pub refetch_past_season : PastRun → Season → Time → Bool → Action (Unit {0})
unfolding refetch_ladders set_data_time
refetch_past_season run season now force = do
  limit ← lift (subtract now (refresh_days * day))
  ranking ← query (λ db. ok (last_ranking season.id db.rankings))
  refetch_ranked run season force limit ranking
