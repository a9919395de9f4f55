-- ===== src/Pages/Teams.antt =====
-- main/views/ladder.py, `LadderView.fetch_data`: the rows of a ladder, and the names of their teams.
use rankedftw.Prelude.Int.{pos, ltb_ℤ, ℤ}
use Prim.Native.String.{String}
use rankedftw.Prelude.{if◌then◌else◌, ◌∷◌, ◌+◌, [], ℕ, some, none, Option, List}
use rankedftw.Store.Keys.{find}

-- A player of a team, as the database has it.
pub record Player : Type 0 where
  pub id : ℕ
  pub name : String
  pub tag : String

pub record Team : Type 0 where
  pub id : ℕ
  pub member0 : Player
  pub member1 : Option Player
  pub member2 : Option Player
  pub member3 : Option Player

-- The fields of a row that the server sends, as they are or as they are set. A mmr of none is '-', a
-- tier of none ''. The races and the win rate are as the league, given or not.
pub record TeamRow : Type 0 where
  pub team_id : Option ℕ
  pub rank : ℕ
  pub tier : Option ℕ
  pub mmr : Option ℤ
  pub league : Option ℤ
  pub points : Option ℤ
  pub wins : Option ℕ
  pub losses : Option ℕ
  pub played : Option ℕ
  pub data_time : Option ℕ
  pub m0_name : String
  pub member0 : Option Player
  pub member1 : Option Player
  pub member2 : Option Player
  pub member3 : Option Player

-- What the server sends for a team.
pub record ServerRow : Type 0 where
  pub team_id : ℕ
  pub rank : ℕ
  pub tier : ℕ
  pub mmr : ℤ
  pub league : ℤ
  pub points : ℤ
  pub wins : ℕ
  pub losses : ℕ
  pub data_time : ℕ

abbrev pub known_row : ServerRow → Team → TeamRow
known_row tr t = record {
  team_id = some tr.team_id;
  rank = tr.rank + 1;
  tier = some (tr.tier + 1);
  mmr = if ltb_ℤ tr.mmr (pos 0) then none else some tr.mmr;
  league = some tr.league;
  points = some tr.points;
  wins = some tr.wins;
  losses = some tr.losses;
  played = some (tr.wins + tr.losses);
  data_time = some tr.data_time;
  m0_name = t.member0.name;
  member0 = some t.member0;
  member1 = t.member1;
  member2 = t.member2;
  member3 = t.member3;
}

-- A team that the database does not have any more.
abbrev pub removed_row : ServerRow → TeamRow
removed_row tr = record {
  team_id = none;
  rank = tr.rank + 1;
  tier = none;
  mmr = none;
  league = none;
  points = none;
  wins = none;
  losses = none;
  played = none;
  data_time = none;
  m0_name = " REMOVED";
  member0 = none;
  member1 = none;
  member2 = none;
  member3 = none;
}

abbrev pub row_of : ServerRow → Option Team → TeamRow
row_of tr none = removed_row tr
row_of tr (some t) = known_row tr t

-- The rows in the order of the server; the teams are those with one of the ids.
unfoldable pub fetch_rows : List Team → List ServerRow → List TeamRow
fetch_rows teams [] = []
fetch_rows teams (tr ∷ rows) =
    row_of tr (find (λ (t : Team). t.id) tr.team_id teams) ∷ fetch_rows teams rows
