-- ===== src/Refetch/Seasons.antt =====
-- `refetch_past_seasons` of main/refetch.py: the choice of the seasons.
use rankedftw.Prelude.Objects.{filter, get}
use rankedftw.Prelude.Sort.{sort_by}
use rankedftw.Prelude.Result.{ok, attribute_error, or_raise, Result}
use rankedftw.Prelude.Int.{◌==ℤ◌, ℤ}
use rankedftw.Enums.{ranking_ids}
use rankedftw.Store.{Season}
use rankedftw.Prelude.{
  not, ◌*◌, true, ◌==◌, ◌+◌, ◌&&◌, none, leb, if◌then◌else◌, [], ◌∷◌, some, ltb, false, ℕ, List,
  Bool, Option,
}
use rankedftw.Prelude.Clock.{date, day, Time, Day}
use rankedftw.Refetch.Past.{
  PastRun, refetch_past_season, subtract, min_days_after_end, until_days_after_end, last_available,
}
use rankedftw.Fetch.{fetch_new_in_region}
use rankedftw.Fetch.Answers.{Run}
use rankedftw.Store.Action.{Action, ◌>>=◌, ◌>>◌, lift, query, pure}
use rankedftw.Season.{get_current_season, get_prev, end_time}
use rankedftw.Enums.Region as Region

-- The runs of the calls: for new ladders by the region, for a season by the season.
pub record PastRuns : Type 0 where
  pub fetch_new : ℤ → Run
  pub refetch : Season → PastRun
  pub check_stop : Season → Result (Unit {0})

unfoldable pub fetch_new_in_regions : PastRuns → Season → List ℤ → Action (Unit {0})
unfolding fetch_new_in_region
fetch_new_in_regions runs season [] = pure tt
fetch_new_in_regions runs season (region ∷ regions) =
    let rest = fetch_new_in_regions runs season regions in
    if region ==ℤ Region.sea
    then rest
    else (do fetch_new_in_region (runs.fetch_new region) season region; rest)

abbrev pub before : Option Day → Day → Bool
before none limit = false
before (some d) limit = ltb d limit

-- `filter(id__gte=LAST_AVAILABLE_SEASON, end_date__lt=season_end_limit).order_by('-id')`.
unfoldable pub past_seasons : Day → List Season → List Season
past_seasons limit seasons =
    sort_by (λ (s t : Season). leb t.id s.id)
      (filter (λ (s : Season). leb last_available s.id && before s.end_date limit) seasons)

unfoldable pub refetch_each : PastRuns → Time → List Season → Action (Unit {0})
unfolding refetch_past_season
refetch_each runs now [] = pure tt
refetch_each runs now (s ∷ seasons) =
    let rest = refetch_each runs now seasons in
    do refetch_past_season (runs.refetch s) s now false; lift (runs.check_stop s); rest

-- `prev_season.end_time() < now <= need_refetch_limit`.
abbrev pub in_window : Time → Time → Bool
in_window finish now = ltb finish now && leb now (finish + until_days_after_end * day)

-- `if season_id`, which takes 0 as none.
abbrev pub given : Option ℕ → Option ℕ
given (some ℕ.zero) = none
given id = id

abbrev pub refetch_chosen : PastRuns → Time → Bool → Option ℕ → Action (Unit {0})
refetch_chosen runs now skip_fetch_new (some id) = do
  season ← query (λ db. get (λ (s : Season). s.id == id) db.seasons)
  fetch_new_in_regions runs season (ranking_ids Region.mapping)
  refetch_past_season (runs.refetch season) season now true
refetch_chosen runs now skip_fetch_new none = do
  limit ← lift (subtract now (min_days_after_end * day))
  current ← query (λ db. get_current_season db.seasons)
  found ← query (λ db. get_prev db.seasons current)
  prev ← lift (or_raise found attribute_error)
  finish ← lift (end_time prev)
  if not skip_fetch_new && in_window finish now
      then fetch_new_in_regions runs prev (ranking_ids Region.mapping)
      else pure tt
  seasons ← query (λ db. ok (past_seasons (date limit) db.seasons))
  refetch_each runs now seasons

unfoldable pub refetch_past_seasons : PastRuns → Time → Bool → Option ℕ → Action (Unit {0})
unfolding refetch_each fetch_new_in_regions past_seasons get_current_season get_prev end_time
    ranking_ids
refetch_past_seasons runs now skip_fetch_new season_id =
    refetch_chosen runs now skip_fetch_new (given season_id)
