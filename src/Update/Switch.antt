-- ===== src/Update/Switch.antt =====
-- `countinously_update` of main/update.py: the switch of the season and of the ranking. Each round has
-- its values of the clock, the C++ module and the calls; after the last one `check_stop` is true.
use rankedftw.Store.Rows.{later_first}
use rankedftw.Prelude.Sort.{sort_by}
use rankedftw.Prelude.Objects.{first, filter}
use rankedftw.Prelude.Result.{
  err, exception_raised, attribute_error, value_error, or_raise, map_ok, raise_if, ok, Result,
}
use rankedftw.Prelude.Clock.{second, hour, day, date, combine_min, Time}
use rankedftw.Prelude.{
  ◌||◌, ◌/◌, ◌*◌, ◌&&◌, ◌+◌, false, [], ◌∷◌, ◌==◌, ◌%◌, true, not, ltb, length, Option, ℕ,
  if◌then◌else◌, List, Bool,
}
use rankedftw.Update.Batches.{Thread, is_good_strangeness, has_season}
use rankedftw.Update.Copy.{Copying, copy_ranking, create_ranking}
use rankedftw.Update.Save.{save_ranked, reload}
use rankedftw.Update.Until.{Turn, update_until}
use rankedftw.Refetch.{Cpp}
use rankedftw.Season.{get_current_season, get_next, start_time, near_start}
use rankedftw.Store.{Ranking, Season, Ladder, created_status, complete_with_data, RankingStatus}
use rankedftw.Store.Action.{Action, ◌>>=◌, ◌>>◌, lift, query, pure}

pub record Round : Type 0 where
  pub now : Time
  pub copying : Copying
  pub cpp : Cpp
  pub ping : Result (Unit {0})
  pub until_from : Time
  pub start : Time
  pub threads : List Thread
  pub turns : List Turn
  pub end_cpp : Cpp
  pub end_ping : Result (Unit {0})

abbrev pub count_good : ℕ → List Ladder → ℕ
count_good season ladders = length (
    filter (λ (l : Ladder). has_season season l.season_id && is_good_strangeness l.strangeness)
      ladders)

unfoldable pub switch_season : Season → Action Season
unfolding get_current_season get_next
switch_season season = do
  current ← query (λ db. get_current_season db.seasons)
  if current.id == season.id then pure season else (do
    found ← query (λ db. get_next db.seasons season)
    next ← lift (or_raise found attribute_error)
    lift (raise_if (not (current.id == next.id)) exception_raised)
    count ← query (λ db. ok (count_good current.id db.ladders))
    pure (if ltb 8 count then current else season))

-- `now.hour`.
abbrev pub hour_of : Time → ℕ
hour_of t = t % day / hour

abbrev pub is_old : Ranking → Time → ℕ → Bool
is_old ranking now switch_hour =
    ltb (ranking.created + 48 * hour) now
    || (ltb (ranking.created + 12 * hour) now && (hour_of now == switch_hour))

-- `not ranking.season.near_start(now, days=4)`.
abbrev pub starts_far : Result Season → Time → Result Bool
starts_far (ok s) now = map_ok not (near_start s (date now) 4)
starts_far (err e) now = err e

-- `near_start` is called only for a ranking that is old enough.
unfoldable pub needs_new : Ranking → Time → ℕ → List Season → Result Bool
unfolding near_start
needs_new ranking now switch_hour seasons =
    if is_old ranking now switch_hour
    then starts_far (reload ranking.season_id seasons) now
    else ok false

-- The row of a ranking for a new season.
abbrev pub first_ranking : ℕ → Time → Time → Ranking
first_ranking season now start = record {
  id = 0;
  created = now;
  data_time = start;
  min_data_time = start;
  max_data_time = start;
  season_id = season;
  status = created_status;
}

unfoldable pub choose_ranking : Round → ℕ → Season → Ranking → Action Ranking
unfolding start_time save_ranked copy_ranking needs_new
choose_ranking round switch_hour season ranking =
    if not (season.id == ranking.season_id)
    then (do
      begun ← lift (start_time season)
      created ← create_ranking (first_ranking season.id round.now begun)
      save_ranked round.cpp round.ping created)
    else (do
      due ← query (λ db. needs_new ranking round.now switch_hour db.seasons)
      if due
          then (do
            created ← copy_ranking round.copying ranking season.id round.now
            save_ranked round.cpp round.ping created)
          else (do lift (round.cpp.load ranking.id); pure ranking))

-- `now.replace(hour=switch_hour, minute=0, second=0)`, or a day later where that is past.
unfoldable pub next_switch : Time → ℕ → Time
next_switch now switch_hour =
    let until = combine_min (date now) + switch_hour * hour + now % second in
    if ltb until now then until + 24 * hour else until

unfoldable pub update_round : Round → ℕ → Season → Ranking → Action (Season × Ranking)
unfolding switch_season choose_ranking next_switch update_until
update_round round switch_hour season ranking = do
  ranked ← switch_season season
  current ← choose_ranking round switch_hour ranked ranking
  lift (raise_if (not (ltb switch_hour 24)) value_error)
  let until = next_switch round.until_from switch_hour
  saved ←
      update_until round.start until round.threads round.end_cpp round.end_ping round.turns current
  pure (ranked, saved)

unfoldable pub rounds_of : List Round → ℕ → Season → Ranking → Action (Season × Ranking)
unfolding update_round
rounds_of [] switch_hour season ranking = pure (season, ranking)
rounds_of (round ∷ later) switch_hour season ranking =
    let next = rounds_of later switch_hour in
    do (ranked, saved) ← update_round round switch_hour season ranking; next ranked saved

abbrev pub is_usable : RankingStatus → Bool
is_usable complete_with_data = true
is_usable _ = false

abbrev pub latest : List Ranking → Option Ranking
latest rankings = first (sort_by later_first rankings)

unfoldable pub countinously_update : List Round → ℕ → Action (Season × Ranking)
unfolding rounds_of
countinously_update rounds switch_hour = do
  found ← query (λ db. ok (latest db.rankings))
  ranking ← lift (or_raise found attribute_error)
  lift (raise_if (not (is_usable ranking.status)) exception_raised)
  season ← query (λ db. reload ranking.season_id db.seasons)
  rounds_of rounds switch_hour season ranking
