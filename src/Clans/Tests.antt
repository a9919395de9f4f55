-- ===== src/Clans/Tests.antt =====
-- Two clans, and the ladder of one of them.
use Prim.Native.String.{String}
use rankedftw.Clans.{Clan, ClanTeam, ClanRow, show_clans, clan_rows, count_clans, count_player}
use rankedftw.Clans.Shown.{Shows, show_clans-Shows, clan_rows-server_row}
use rankedftw.Pages.Teams.{ServerRow}
use rankedftw.People.{StoredPlayer}
use rankedftw.Prelude.{
  ℕ, ltb, Bool, true, none, some, List, [], ◌∷◌, map, length, take, ◌≡◌, ◌⊎◌, refl,
}
use rankedftw.Prelude.Int.{pos}
use rankedftw.Prelude.Result.{ok, err, key_error}

abbrev player : ℕ → String → StoredPlayer
player id tag = record {
  id = id;
  region = pos 0;
  bid = id;
  realm = 1;
  name = "player";
  tag = tag;
  clan = "The clan";
  season_id = some 29;
  mode = some (pos 11);
  league = none;
  race = none;
  last_seen = 0;
}

counted :
    map (λ (c : Clan). c.players) (count_clans (player 1 "A" ∷ player 2 "B" ∷ player 3 "B" ∷ []))
    ≡ 2 ∷ 1 ∷ []
unfolding count_clans count_player
counted = refl

abbrev any_text : String → String → Bool
any_text s t = true

abbrev clans : List Clan
clans = record { name = "The clan"; tag = "A"; players = 2 } ∷ []

show_clans-Shows_example :
    Shows any_text any_text
      (show_clans any_text any_text (take 33 clans))
      (ltb 32 (length clans))
      (take 32 clans)
show_clans-Shows_example = show_clans-Shows any_text any_text clans

abbrev leader_row : ServerRow
leader_row = record {
  team_id = 9;
  rank = 0;
  tier = 0;
  mmr = pos 4000;
  league = pos 5;
  points = pos 10;
  wins = 3;
  losses = 2;
  data_time = 0;
}

abbrev teams : List ClanTeam
teams = record { id = 9; member = player 1 "A" } ∷ []

rows_kept :
    ((shown : List ClanRow) × (clan_rows teams (leader_row ∷ []) ≡ ok shown)
      × (map (λ (r : ClanRow). r.server_row) shown ≡ leader_row ∷ []))
    ⊎ (clan_rows teams (leader_row ∷ []) ≡ err key_error)
rows_kept = clan_rows-server_row teams (leader_row ∷ [])
