-- ===== src/FetchNew.antt =====
-- main/fetch_new.py: the switch to a new season.
pub mod Chain
pub mod Switch
mod Tests
use rankedftw.Prelude.Sort.{sort_by}
use rankedftw.Prelude.Result.{overflow_error, err, ok, attribute_error, or_raise, Result}
use rankedftw.Prelude.{
  [], ◌-◌, ◌*◌, ◌∷◌, ◌&&◌, if◌then◌else◌, false, ◌==◌, ◌+◌, true, none, leb, List, ℕ, some, Bool,
}
use rankedftw.Prelude.Clock.{combine_max, Day, Time, second, year}
use rankedftw.Prelude.Objects.{filter}
use rankedftw.Season.{end_time, get_next}
use rankedftw.Store.{
  Db, Season, Ranking, SeasonName, blank, titled, RankingStatus, complete_with_data,
  complete_without_data,
}
use rankedftw.Store.Action.{Action, lift, query, modify, ◌>>=◌, ◌>>◌, pure}
use rankedftw.Store.Rows.{later_first, is_complete, save_season, save_ranking}
use rankedftw.Enums.Version

-- `t - timedelta(...)`, which raises before the first datetime.
abbrev pub sub_time : Time → ℕ → Result Time
sub_time t delta = if leb delta t then ok (t - delta) else err overflow_error

-- `ranking.data_time = season.end_time() - timedelta(seconds=i)` for the rankings from the `i`th on.
unfoldable pub fix_rankings : ℕ → Time → List Ranking → Action (Unit {0})
fix_rankings i finish [] = pure tt
fix_rankings i finish (r ∷ rankings) =
    let rest = fix_rankings (i + 1) finish rankings in
    do
      t ← lift (sub_time finish (i * second))
      modify (save_ranking (record r { data_time = t }))
      rest

-- The rankings of the season that are complete and whose data time is not before `finish`.
abbrev pub ends_after : ℕ → Time → Ranking → Bool
ends_after season_id finish r =
    (r.season_id == season_id) && is_complete r.status && leb finish r.data_time

abbrev pub late_rankings : ℕ → Time → List Ranking → List Ranking
late_rankings season_id finish rankings =
    sort_by later_first (filter (ends_after season_id finish) rankings)

-- The season that follows, once it has started, and the empty season after it.
abbrev pub started : Season → Season → Day → Season
started season next end_date =
    let start = end_date + 1 in
    let number = if year start == season.year then season.number + 1 else 1 in
    record next {
      start_date = some start;
      year = year start;
      number = number;
      name = titled (year start) number;
    }

abbrev pub empty_season : ℕ → Season
empty_season id = record {
  id = id;
  start_date = none;
  end_date = none;
  year = 0;
  number = 0;
  name = blank;
  version = Version.lotv;
}

unfoldable pub create_new_season : Season → Day → Action (Unit {0})
unfolding fix_rankings
create_new_season current_season end_date = do
  let season = record current_season { end_date = some end_date }
  modify (save_season season)
  found ← query (λ db. get_next db.seasons season)
  coming ← lift (or_raise found attribute_error)
  let next_season = started season coming end_date
  modify (save_season next_season)
  modify (save_season (empty_season (next_season.id + 1)))
  finish ← lift (end_time season)
  rankings ← query (λ db. ok (late_rankings season.id finish db.rankings))
  fix_rankings 0 finish rankings
