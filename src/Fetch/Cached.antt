-- ===== src/Fetch/Cached.antt =====
-- `update_ladder_cache` of main/fetch.py: the answer for a ladder replaces its cache in a ranking.
-- The C++ module that ranks the members is an argument.
use rankedftw.Prelude.Int.{◌==ℤ◌, ℤ}
use rankedftw.Store.Rows.{save_cache, save_ladder}
use rankedftw.Prelude.Objects.{get}
use rankedftw.Prelude.Clock.{Time}
use rankedftw.Prelude.Result.{ok, Result}
use rankedftw.Prelude.{◌+◌, [], ◌∷◌, ◌++◌, ◌==◌, ◌&&◌, false, List, some, none, Bool, ℕ, Option}
use rankedftw.Enums.Mode as Mode
use rankedftw.Store.{Cache, Ladder, ladder_type, good}
use rankedftw.Store.Action.{Action, ◌>>=◌, ◌>>◌, lift, query, modify}
use rankedftw.Fetch.Rows.{is_type}
use rankedftw.Season.{missing_to_none}
use Prim.Native.String.{String}

-- A member of a ladder, as the C++ module is given it.
pub record Member : Type 0 where
  pub bid : ℕ
  pub realm : ℕ
  pub name : String
  pub tag : String
  pub clan : String
  pub race : ℤ
  pub mmr : ℤ
  pub points : ℤ
  pub wins : ℕ
  pub losses : ℕ
  pub join_time : ℕ

-- A fetched ladder: its status and time, and what the methods of `ApiLadder` return or raise.
pub record FetchedLadder : Type 0 where
  pub status : ℕ
  pub fetch_time : Time
  pub url : String
  pub text : Option String
  pub max_points : Result (Option ℤ)
  pub last_join : Result (Option Time)
  pub member_count : Result ℕ
  pub members_for_ranking : ℕ → Result (List Member)

-- The arguments of `cpp.update_with_ladder`. The time stands for the two forms in which it is given.
pub record UpdateCall : Type 0 where
  pub ladder_id : ℕ
  pub cache_id : ℕ
  pub region : ℤ
  pub mode : ℤ
  pub league : ℤ
  pub tier : ℕ
  pub version : ℤ
  pub season_id : Option ℕ
  pub updated : Time
  pub team_size : ℕ
  pub members : List Member

-- `ranking.sources.get(region=ladder.region, bid=ladder.bid, type=Cache.LADDER)`.
abbrev pub of_ranking : ℕ → Option ℕ → Bool
of_ranking ranking none = false
of_ranking ranking (some id) = id == ranking

abbrev pub is_ranked : ℕ → Ladder → Cache → Bool
is_ranked ranking ladder c =
    of_ranking ranking c.ranking_id
    && (c.region ==ℤ ladder.region)
    && (c.bid == ladder.bid)
    && is_type c.type ladder_type

abbrev pub new_cache : ℕ → Ladder → FetchedLadder → Cache
new_cache id ladder res = record {
  id = id;
  url = res.url;
  bid = ladder.bid;
  type = ladder_type;
  region = ladder.region;
  status = res.status;
  created = res.fetch_time;
  updated = res.fetch_time;
  text = res.text;
  retry_count = 0;
  ranking_id = none;
  ladder_id = none;
}

abbrev pub with_answer : ℕ → FetchedLadder → Cache → Cache
with_answer ranking res c = record c {
  ranking_id = some ranking;
  text = res.text;
  url = res.url;
  updated = res.fetch_time;
  status = res.status;
}

-- `lc.save()`, of the row that was found or of a new one.
abbrev pub save_answer : ℕ → Ladder → FetchedLadder → Option Cache → Action Cache
save_answer ranking ladder res (some c) db =
    (ok (with_answer ranking res c), save_cache (with_answer ranking res c) db)
save_answer ranking ladder res none db =
    let row = with_answer ranking res (new_cache db.next_cache ladder res) in
    (ok row, record db { caches = db.caches ++ row ∷ []; next_cache = db.next_cache + 1 })

abbrev pub refreshed : FetchedLadder → Ladder → Option Time → Option ℤ → ℕ → Ladder
refreshed res ladder last_join max_points member_count = record ladder {
  updated = res.fetch_time;
  last_join = last_join;
  max_points = max_points;
  member_count = some member_count;
  strangeness = good;
}

abbrev pub update_call : ℕ → Time → Ladder → ℕ → List Member → UpdateCall
update_call cache_id updated ladder team_size members = record {
  ladder_id = ladder.id;
  cache_id = cache_id;
  region = ladder.region;
  mode = ladder.mode;
  league = ladder.league;
  tier = ladder.tier;
  version = ladder.version;
  season_id = ladder.season_id;
  updated = updated;
  team_size = team_size;
  members = members;
}

module _ (update_with_ladder : UpdateCall → Result (Unit {0})) (ranking : ℕ) (ladder : Ladder)
    (res : FetchedLadder) where
  -- What follows the save of the cache.
  abbrev pub save_refreshed : Cache → Action (Unit {0})
  save_refreshed lc = do
    last_join ← lift res.last_join
    max_points ← lift res.max_points
    member_count ← lift res.member_count
    modify (save_ladder (refreshed res ladder last_join max_points member_count))
    team_size ← lift (Mode.team_size ladder.mode)
    members ← lift (res.members_for_ranking team_size)
    lift (update_with_ladder (update_call lc.id lc.updated ladder team_size members))

  unfoldable pub update_ladder_cache : Action (Unit {0})
  unfolding Mode.team_size
  update_ladder_cache = do
    found ← query (λ db. missing_to_none (get (is_ranked ranking ladder) db.caches))
    lc ← save_answer ranking ladder res found
    save_refreshed lc
