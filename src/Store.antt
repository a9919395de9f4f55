-- ===== src/Store.antt =====
-- The rows of main/models.py that the Python code reads and writes, and the database as the value
-- that an action passes on. A foreign key is the id of its row. Ids, counts and HTTP statuses are
-- naturals; regions, modes, leagues, versions and tiers are the integers of the enums.
pub mod Action
pub mod Rows
pub mod Keys
pub mod Sample
use Prim.Native.String.{String}
use rankedftw.Prelude.{ℕ, Option, List}
use rankedftw.Prelude.Clock.{Day, Time}
use rankedftw.Prelude.Int.{ℤ}

-- The text of `Season.name`: '' for a coming season, else "%d Season %d" of a year and a number.
pub data SeasonName : Type 0 where
  blank : SeasonName
  titled : ℕ → ℕ → SeasonName

pub record Season : Type 0 where
  pub id : ℕ
  pub start_date : Option Day
  pub end_date : Option Day
  pub year : ℕ
  pub number : ℕ
  pub name : SeasonName
  pub version : ℤ

-- `Cache.type`.
pub data CacheType : Type 0 where
  ladder_type player_type player_ladders_type season_type league_type : CacheType

pub record Cache : Type 0 where
  pub id : ℕ
  pub url : String
  pub bid : ℕ
  pub type : CacheType
  pub region : ℤ
  pub status : ℕ
  pub created : Time
  pub updated : Time
  pub text : Option String
  pub retry_count : ℕ
  pub ranking_id : Option ℕ
  pub ladder_id : Option ℕ

-- `Ladder.strangeness`.
pub data Strangeness : Type 0 where
  good nyd strange nop missing : Strangeness

pub record Ladder : Type 0 where
  pub id : ℕ
  pub region : ℤ
  pub bid : ℕ
  pub strangeness : Strangeness
  pub created : Time
  pub updated : Time
  pub mode : ℤ
  pub league : ℤ
  pub tier : ℕ
  pub version : ℤ
  pub season_id : Option ℕ
  pub first_join : Option Time
  pub last_join : Option Time
  pub max_points : Option ℤ
  pub member_count : Option ℕ

-- `Ranking.status`.
pub data RankingStatus : Type 0 where
  created_status complete_with_data complete_without_data : RankingStatus

pub record Ranking : Type 0 where
  pub id : ℕ
  pub created : Time
  pub data_time : Time
  pub min_data_time : Time
  pub max_data_time : Time
  pub season_id : ℕ
  pub status : RankingStatus

-- A row of `RankingData` or of `RankingStats`, which goes when its ranking does.
pub record Attached : Type 0 where
  pub id : ℕ
  pub ranking_id : ℕ
  pub content : Option String

-- The tables, and the next id that each sequence of the database gives out.
pub record Db : Type 0 where
  pub seasons : List Season
  pub ladders : List Ladder
  pub caches : List Cache
  pub rankings : List Ranking
  pub ranking_data : List Attached
  pub ranking_stats : List Attached
  pub next_ladder : ℕ
  pub next_cache : ℕ
  pub next_ranking : ℕ
