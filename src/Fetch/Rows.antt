-- ===== src/Fetch/Rows.antt =====
-- The rows that main/fetch.py looks up and creates.
use rankedftw.Prelude.Int.{◌==ℤ◌, ℤ}
use rankedftw.Prelude.{◌==◌, ◌+◌, ◌&&◌, false, [], ◌∷◌, true, some, ◌++◌, none, Bool, ℕ}
use rankedftw.Fetch.Answers.{LadderAnswer, LeagueAnswer}
use rankedftw.Store.{
  Season, Ladder, CacheType, Cache, ladder_type, player_type, player_ladders_type, season_type,
  league_type, missing,
}
use rankedftw.Store.Action.{Action}
use rankedftw.Prelude.Result.{ok}

-- `version in [Version.LOTV]` with a region, the season, a mode and a league: what a call is for.

pub record Target : Type 0 where
  pub region : ℤ
  pub season : Season
  pub version : ℤ
  pub mode : ℤ
  pub league : ℤ

abbrev pub is_ladder : ℤ → ℕ → Ladder → Bool
is_ladder region bid l = (l.region ==ℤ region) && (l.bid == bid)

abbrev pub is_type : CacheType → CacheType → Bool
is_type ladder_type ladder_type = true
is_type player_type player_type = true
is_type player_ladders_type player_ladders_type = true
is_type season_type season_type = true
is_type league_type league_type = true
is_type _ _ = false

abbrev pub is_cache : ℤ → CacheType → ℕ → Cache → Bool
is_cache region type bid c = (c.region ==ℤ region) && is_type c.type type && (c.bid == bid)

-- `save()` of a row that has no id yet.
abbrev pub create_ladder : Ladder → Action Ladder
create_ladder l db =
    let row = record l { id = db.next_ladder } in
    (ok row, record db { ladders = db.ladders ++ row ∷ []; next_ladder = db.next_ladder + 1 })

abbrev pub create_cache : Cache → Action (Unit {0})
create_cache c db =
    let row = record c { id = db.next_cache } in
    (ok tt, record db { caches = db.caches ++ row ∷ []; next_cache = db.next_cache + 1 })

-- The new rows, before the columns that the answer fills; their id is given by `create`.
abbrev pub blank_ladder : Target → ℕ → ℕ → LadderAnswer → Ladder
blank_ladder target tier bid res = record {
  id = 0;
  region = target.region;
  bid = bid;
  strangeness = missing;
  created = res.fetch_time;
  updated = res.fetch_time;
  mode = target.mode;
  league = target.league;
  tier = tier;
  version = target.version;
  season_id = some target.season.id;
  first_join = none;
  last_join = none;
  max_points = none;
  member_count = none;
}

abbrev pub ladder_cache : Target → ℕ → LadderAnswer → Ladder → Cache
ladder_cache target bid res ladder = record {
  id = 0;
  url = res.url;
  bid = bid;
  type = ladder_type;
  region = target.region;
  status = res.status;
  created = res.fetch_time;
  updated = res.fetch_time;
  text = res.text;
  retry_count = 0;
  ranking_id = none;
  ladder_id = some ladder.id;
}

abbrev pub league_cache : Target → LeagueAnswer → Cache
league_cache target res = record {
  id = 0;
  url = res.url;
  bid = res.bid;
  type = league_type;
  region = target.region;
  status = res.status;
  created = res.fetch_time;
  updated = res.fetch_time;
  text = res.text;
  retry_count = 0;
  ranking_id = none;
  ladder_id = none;
}
