-- ===== src/People.antt =====
-- `Player` and `Team` of main/models.py, with the managers that leave out what is to be purged.
pub mod Purge
pub mod Left
pub mod Search
pub mod Listed
pub mod Teams
pub mod Members
pub mod Theirs
mod Tests
use Prim.Native.String.{String}
use rankedftw.Prelude.{ℕ, ◌-◌, ◌==◌, ◌||◌, leb, Bool, false, Option, none, some, List}
use rankedftw.Prelude.Clock.{Day}
use rankedftw.Prelude.Int.{ℤ}
use rankedftw.Prelude.Objects.{filter}
use rankedftw.Retention.{is_key}

pub record StoredPlayer : Type 0 where
  pub id : ℕ
  pub region : ℤ
  pub bid : ℕ
  pub realm : ℕ
  pub name : String
  pub tag : String
  pub clan : String
  pub season_id : Option ℕ
  pub mode : Option ℤ
  pub league : Option ℤ
  pub race : Option ℤ
  pub last_seen : Day

pub record StoredTeam : Type 0 where
  pub id : ℕ
  pub region : ℤ
  pub mode : ℤ
  pub season_id : Option ℕ
  pub version : Option ℤ
  pub league : ℤ
  pub member0 : Option ℕ
  pub member1 : Option ℕ
  pub member2 : Option ℕ
  pub member3 : Option ℕ
  pub last_seen : Day

pub record People : Type 0 where
  pub players : List StoredPlayer
  pub teams : List StoredTeam

-- `api_data_purge_date`, of the day it is and the days that data is kept.
abbrev pub api_data_purge_date : Day → ℕ → Day
api_data_purge_date today keep_days = today - keep_days

-- `NonPurgedManager`: `last_seen__gte=api_data_purge_date()`.
abbrev pub player_objects : Day → People → List StoredPlayer
player_objects limit people = filter (λ (p : StoredPlayer). leb limit p.last_seen) people.players

abbrev pub team_objects : Day → People → List StoredTeam
team_objects limit people = filter (λ (t : StoredTeam). leb limit t.last_seen) people.teams

-- Whether a player is a member of a team.
abbrev pub is_member : ℕ → StoredTeam → Bool
is_member i t = is_key i t.member0 || is_key i t.member1 || is_key i t.member2 || is_key i t.member3
