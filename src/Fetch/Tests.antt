-- ===== src/Fetch/Tests.antt =====
-- A league whose first answer fails, with one ladder that is known and one that is new.
use rankedftw.Fetch.Regions.{fetch_new_in_region-IsLadderTable, fetch_new_in_league-has_ladder}
use rankedftw.Fetch.Tries.{IsRetried}
use rankedftw.Prelude.Int.{ℤ, pos}
use rankedftw.Fetch.Ladders.{has_ladder}
use rankedftw.Prelude.{
  zero, suc, ◌+◌, refl, [], ◌∷◌, ◌==◌, true, none, map, ◌≡◌, ◌<◌, some, if◌then◌else◌, arith, List,
  ℕ,
}
use rankedftw.Fetch.{fetch_new_in_region, fetch_new_in_league}
use rankedftw.Fetch.Cached.{FetchedLadder, update_ladder_cache}
use rankedftw.Fetch.Sources.{IsAnswered, update_ladder_cache-IsAnswered}
use rankedftw.Store.Sample.{good_ladder, sample_db}
use rankedftw.Fetch.Rows.{Target}
use rankedftw.Fetch.Answers.{LeagueAnswer, Run, LadderAnswer}
use rankedftw.Fetch.Leagues.{IsLadderTable}
use rankedftw.Store.{good, Ladder, Db}
use rankedftw.Season.Sample.{seasons, season_29}
use rankedftw.Enums.Mode
use rankedftw.Enums.League
use rankedftw.Enums.Version
use rankedftw.Enums.Region
use rankedftw.Prelude.Result.{ok, err, stopped}

abbrev ladder_answer : LadderAnswer
ladder_answer = record {
  status = 200;
  fetch_time = 900;
  url = "ladder";
  text = some "{}";
  max_points = ok (some (pos 10));
  first_join = ok (some 100);
  last_join = ok (some 200);
  member_count = ok 1;
}

abbrev bids_of : ℕ → List ℕ
bids_of tier = if tier == 0 then 100 ∷ [] else if tier == 1 then 101 ∷ [] else []

abbrev league_answer : ℕ → LeagueAnswer
league_answer status = record {
  status = status;
  fetch_time = 800;
  url = "league";
  bid = 2920114;
  text = some "{}";
  tier_bids = λ tier. ok (bids_of tier);
}

abbrev run : Run
run = record {
  check_stop = λ moment. ok tt;
  fetch_league = λ mode league count. league_answer (if count == 2 then 200 else 500);
  fetch_ladder = λ bid. ladder_answer;
}

abbrev failing_run : Run
failing_run = record {
  check_stop = λ moment. ok tt;
  fetch_league = λ mode league count. league_answer 500;
  fetch_ladder = λ bid. ladder_answer;
}

abbrev stopped_run : Run
stopped_run = record {
  check_stop = λ moment. err stopped;
  fetch_league = λ mode league count. league_answer 200;
  fetch_ladder = λ bid. ladder_answer;
}

abbrev target : Target
target = record {
  region = Region.eu;
  season = season_29;
  version = Version.lotv;
  mode = Mode.team_1v1;
  league = League.diamond;
}

abbrev known : Ladder
known = record {
  id = 7;
  region = Region.eu;
  bid = 100;
  strangeness = good;
  created = 0;
  updated = 0;
  mode = Mode.team_1v1;
  league = League.diamond;
  tier = 0;
  version = Version.lotv;
  season_id = some 29;
  first_join = none;
  last_join = none;
  max_points = none;
  member_count = none;
}

abbrev db : Db
db = record {
  seasons = seasons;
  ladders = known ∷ [];
  caches = [];
  rankings = [];
  ranking_data = [];
  ranking_stats = [];
  next_ladder = 8;
  next_cache = 1;
  next_ranking = 1;
}

db-IsLadderTable : IsLadderTable db
db-IsLadderTable = (omega arith, tt, tt)

first_try : (j : ℕ) → j < 1 → IsRetried run Mode.team_1v1 League.diamond (1 + j)
first_try zero h = record {
  goes_on = refl;
  not_down = ground arith;
  not_found = ground arith;
  not_done = ground arith;
}
first_try (suc j) h = absurd (omega arith)

every_try : (j : ℕ) → j < 4 → IsRetried failing_run Mode.team_1v1 League.diamond (1 + j)
every_try j h = record {
  goes_on = refl;
  not_down = ground arith;
  not_found = ground arith;
  not_done = ground arith;
}

bids_after :
    map (λ (l : Ladder). l.bid) (fetch_new_in_league run target db).1.ladders ≡ 100 ∷ 101 ∷ []
unfolding fetch_new_in_league
bids_after = refl

fetch_new_in_league-has_ladder_example :
    has_ladder Region.eu 101 (fetch_new_in_league run target db).1.ladders ≡ true
unfolding fetch_new_in_league
fetch_new_in_league-has_ladder_example =
    fetch_new_in_league-has_ladder run target db 1 1 (101 ∷ []) 0 101 db-IsLadderTable (omega arith)
      first_try refl refl (omega arith) refl refl refl

fetch_new_in_region-IsLadderTable_example :
    IsLadderTable (fetch_new_in_region run season_29 Region.eu db).1
    × ((r : ℤ) (bid : ℕ)
        → has_ladder r bid db.ladders ≡ true
        → has_ladder r bid (fetch_new_in_region run season_29 Region.eu db).1.ladders ≡ true)
fetch_new_in_region-IsLadderTable_example =
    fetch_new_in_region-IsLadderTable run season_29 Region.eu db db-IsLadderTable

abbrev fetched : FetchedLadder
fetched = record {
  status = 200;
  fetch_time = 700;
  url = "ladder";
  text = some "{}";
  max_points = ok none;
  last_join = ok none;
  member_count = ok 1;
  members_for_ranking = λ size. ok [];
}

answered_lem : (update_ladder_cache (λ call. ok tt) 5 good_ladder fetched sample_db).0 ≡ ok tt
unfolding update_ladder_cache
answered_lem = refl

update_ladder_cache-IsAnswered_example :
    IsAnswered 5 good_ladder fetched
      (update_ladder_cache (λ call. ok tt) 5 good_ladder fetched sample_db).1
update_ladder_cache-IsAnswered_example =
    update_ladder_cache-IsAnswered 5 good_ladder fetched (λ call. ok tt) sample_db
      ((ground arith, tt), (tt, tt)) answered_lem
