-- ===== src/Store/Sample.antt =====
-- A small database: two good ladders of season 29, one of them in another region, a missing ladder,
-- and a ranking with a cache.
use rankedftw.Prelude.{some, none, ◌+◌, [], Option, ◌∷◌, ℕ}
use rankedftw.Enums.Mode as Mode
use rankedftw.Enums.League as League
use rankedftw.Enums.Region as Region
use rankedftw.Enums.Version as Version
use rankedftw.Season.Sample.{seasons}
use rankedftw.Store.{
  Ladder, Cache, Ranking, Db, Strangeness, good, missing, ladder_type, complete_with_data,
}

abbrev pub ladder_at : ℕ → Strangeness → Ladder
ladder_at id strangeness = record {
  id = id;
  region = Region.eu;
  bid = 100 + id;
  strangeness = strangeness;
  created = 0;
  updated = 0;
  mode = Mode.team_1v1;
  league = League.diamond;
  tier = 0;
  version = Version.lotv;
  season_id = some 29;
  first_join = none;
  last_join = none;
  max_points = none;
  member_count = none;
}

abbrev pub good_ladder : Ladder
good_ladder = ladder_at 1 good

abbrev pub missing_ladder : Ladder
missing_ladder = ladder_at 2 missing

abbrev pub sea_ladder : Ladder
sea_ladder = record (ladder_at 3 good) { region = Region.sea }

abbrev pub cache_of : ℕ → ℕ → Option ℕ → Cache
cache_of id ladder ranking = record {
  id = id;
  url = "ladder";
  bid = 100 + ladder;
  type = ladder_type;
  region = Region.eu;
  status = 200;
  created = 0;
  updated = 0;
  text = none;
  retry_count = 0;
  ranking_id = ranking;
  ladder_id = some ladder;
}

abbrev pub sample_ranking : Ranking
sample_ranking = record {
  id = 5;
  created = 0;
  data_time = 0;
  min_data_time = 0;
  max_data_time = 0;
  season_id = 29;
  status = complete_with_data;
}

abbrev pub sample_db : Db
sample_db = record {
  seasons = seasons;
  ladders = good_ladder ∷ missing_ladder ∷ sea_ladder ∷ [];
  caches = cache_of 1 1 (some 5) ∷ cache_of 2 2 none ∷ [];
  rankings = sample_ranking ∷ [];
  ranking_data = [];
  ranking_stats = [];
  next_ladder = 4;
  next_cache = 3;
  next_ranking = 6;
}
