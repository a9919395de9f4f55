-- ===== src/FetchNew/Tests.antt =====
-- The end of the open season of the sample table.
use rankedftw.Season.{get_next, end_time, get_current_season}
use rankedftw.Store.Rows.{save_row}
use rankedftw.Prelude.Sort.{sort_by}
use rankedftw.Prelude.Int.{◌+ℤ◌, pos}
use rankedftw.Fetch.Answers.{LeagueAnswer, LadderAnswer}
use rankedftw.FetchNew.Switch.{
  check_season-IsChain, SeasonAnswer, check_season, SeasonRun, IsOrdered,
}
use rankedftw.Prelude.Result.{ok}
use rankedftw.FetchNew.{create_new_season}
use rankedftw.Prelude.{◌∷◌, none, map, arith, ℕ, ◌==◌, if◌then◌else◌, ◌≡◌, refl, []}
use rankedftw.Store.{Season, Db}
use rankedftw.FetchNew.Chain.{create_new_season-IsChain}
use rankedftw.Season.Chain.{IsChain}
use rankedftw.Season.Sample.{seasons, season_29, seasons-IsChain}

abbrev before_switch : Db
before_switch = record {
  seasons = seasons;
  ladders = [];
  caches = [];
  rankings = [];
  ranking_data = [];
  ranking_stats = [];
  next_ladder = 1;
  next_cache = 1;
  next_ranking = 1;
}

create_new_season-IsChain_example :
    IsChain 27 736200 (create_new_season season_29 736500 before_switch).1.seasons
unfolding get_current_season
create_new_season-IsChain_example =
    create_new_season-IsChain season_29 736500 before_switch seasons-IsChain refl refl

-- The second answer reports the next season.
abbrev season_answer : ℕ → SeasonAnswer
season_answer status = record {
  status = status;
  fetch_time = 0;
  url = "season";
  text = none;
  season_id = ok 30;
  start_date = ok 736500;
}

abbrev league_answer : LeagueAnswer
league_answer = record {
  status = 404;
  fetch_time = 0;
  url = "league";
  bid = 0;
  text = none;
  tier_bids = λ tier. ok [];
}

abbrev ladder_answer : LadderAnswer
ladder_answer = record {
  status = 404;
  fetch_time = 0;
  url = "ladder";
  text = none;
  max_points = ok none;
  first_join = ok none;
  last_join = ok none;
  member_count = ok 0;
}

abbrev season_run : SeasonRun
season_run = record {
  check_stop = λ count. ok tt;
  answer = λ count. season_answer (if count == 2 then 200 else 500);
  now = 0;
  region = pos 0;
  run = record {
    check_stop = λ moment. ok tt;
    fetch_league = λ mode league count. league_answer;
    fetch_ladder = λ bid. ladder_answer;
  };
}

season_run-IsOrdered : IsOrdered season_run season_29
season_run-IsOrdered = record { order = λ count start i e. ground (arith, e) }

seasons_after :
    map (λ (s : Season). s.id) (check_season season_run season_29 1 2 before_switch).1.seasons
    ≡ 27 ∷ 28 ∷ 29 ∷ 30 ∷ 31 ∷ []
unfolding check_season get_next save_row ◌+ℤ◌ end_time sort_by
seasons_after = refl

check_season-IsChain_example :
    IsChain 27 736200 (check_season season_run season_29 1 2 before_switch).1.seasons
unfolding get_current_season
check_season-IsChain_example =
    check_season-IsChain 27 736200 season_run season_29 season_run-IsOrdered 1 2 before_switch
      seasons-IsChain refl
