-- ===== src/People/Tests.antt =====
-- Two players of whom one was not seen for long, each with a team, pages of a search, and a team of two
-- that is searched for.
use Prim.Native.String.{String}
use text.Mathlib.Text.{◌==◌ as str_eq}
use mathlib.Core.List.{Perm}
use mathlib.Core.List.Perm
use rankedftw.Enums.{key_get, id_get, id_by_keys, key_by_ids, name_by_ids}
use rankedftw.Enums.Mode as Mode
use rankedftw.People.Members.{get_team_id-perm}
use rankedftw.People.Theirs.{IsTeamOf, get_team_id-IsTeamOf}
use rankedftw.People.Teams.{
  gives, get_players, team_by_ids, get_team_id, team_page, mode_of, outcome_status,
}
use rankedftw.Remote.Profiles.{Expressions, get_bnet_profile_url_info}
use rankedftw.Prelude.Int.{ℤ, pos}
use rankedftw.People.Purge.{purge_rankings, purge_player_data, all_but_last, rankings_of}
use rankedftw.People.{StoredPlayer, StoredTeam, People}
use rankedftw.People.Left.{
  IsPurged, SameObjects, AreSeen, purge_player_data-IsPurged, purge_player_data-SameObjects,
}
use rankedftw.People.Listed.{show_page-next}
use rankedftw.People.Search.{show_page}
use rankedftw.Prelude.{
  ℕ, ◌+◌, ◌*◌, Bool, false, none, some, List, [], ◌∷◌, map, length, replicate, ltb, if◌then◌else◌,
  ◌≡◌, inl, inr, refl, arith,
}
use rankedftw.Prelude.Clock.{Day}
use rankedftw.Prelude.Result.{Result, ok}
use rankedftw.Prelude.Sort.{sort_by, insert_by}
use rankedftw.Store.{Ranking, Db}
use rankedftw.Store.Sample.{sample_db, sample_ranking}

abbrev player_of : ℕ → Day → StoredPlayer
player_of id last_seen = record {
  id = id;
  region = pos 0;
  bid = id;
  realm = 1;
  name = "player";
  tag = "";
  clan = "";
  season_id = some 29;
  mode = none;
  league = none;
  race = none;
  last_seen = last_seen;
}

abbrev stored_team : ℕ → ℕ → Day → StoredTeam
stored_team id player last_seen = record {
  id = id;
  region = pos 0;
  mode = pos 11;
  season_id = some 29;
  version = none;
  league = pos 0;
  member0 = some player;
  member1 = none;
  member2 = none;
  member3 = none;
  last_seen = last_seen;
}

abbrev people : People
people = record {
  players = player_of 1 80 ∷ player_of 2 20 ∷ [];
  teams = stored_team 1 1 80 ∷ stored_team 2 2 15 ∷ [];
}

abbrev db : Db
db = record sample_db { rankings = record sample_ranking { id = 6 } ∷ sample_ranking ∷ [] }

abbrev go_on : ℕ → Bool
go_on id = false

abbrev works : ℕ → Result (Unit {0})
works id = ok tt

people-AreSeen : AreSeen people
people-AreSeen = ((inr (omega arith), (inl refl, tt)), ((inl refl, (inr (omega arith), tt)), tt))

players_left :
    map (λ (p : StoredPlayer). p.id) (purge_player_data go_on works 50 db people).people.players
    ≡ 1 ∷ []
unfolding purge_rankings sort_by insert_by
players_left = refl

purge_player_data-IsPurged_example :
    ((purge_player_data go_on works 50 db people).result ≡ ok tt)
    × ((purge_player_data go_on works 50 db people).rankings
        ≡ map (λ (r : Ranking). r.id) (all_but_last (rankings_of go_on works 50 db)))
    × IsPurged 50 (purge_player_data go_on works 50 db people).people
purge_player_data-IsPurged_example =
    purge_player_data-IsPurged 50 go_on works db people (λ i. refl) (λ i. refl) people-AreSeen

purge_player_data-SameObjects_example :
    SameObjects 50 people (purge_player_data go_on works 50 db people).people
purge_player_data-SameObjects_example = purge_player_data-SameObjects 50 go_on works db people

abbrev found : List StoredPlayer
found = replicate 40 (player_of 1 80)

show_page-next_example :
    (show_page (1 * 32) found).next
    ≡ (if ltb (1 * 32 + 32) (length found) then some (1 * 32 + 32) else none)
show_page-next_example = show_page-next 1 found (omega arith)

-- With no row that is found there is no last page, so that a next one is shown.
next_of_none : (show_page 0 []).next ≡ some 32
unfolding show_page
next_of_none = refl

-- Addresses by the last number in them.
abbrev urls_of : Expressions
urls_of = record {
  new_style = λ url. some ("2", 1, if str_eq url "starcraft2.com/2/1/3" then 3 else 1);
  legacy = λ url. none;
}

abbrev pair_team : StoredTeam
pair_team = record (stored_team 9 1 80) { mode = Mode.team_2v2; member1 = some 3 }

abbrev pairs : People
pairs = record {
  players = player_of 1 80 ∷ player_of 3 80 ∷ [];
  teams = stored_team 1 1 80 ∷ pair_team ∷ [];
}

abbrev urls : List String
urls = "starcraft2.com/2/1/3" ∷ "starcraft2.com/2/1/1" ∷ []

abbrev swapped : List String
swapped = "starcraft2.com/2/1/1" ∷ "starcraft2.com/2/1/3" ∷ []

players_found : get_players urls_of 50 pairs urls ≡ gives (player_of 3 80 ∷ player_of 1 80 ∷ [])
unfolding get_players get_bnet_profile_url_info key_get
players_found = refl

team_found : get_team_id urls_of 50 pairs "team-2v2" urls ≡ gives 9
unfolding get_team_id get_players get_bnet_profile_url_info team_by_ids sort_by insert_by key_get
    id_by_keys id_get Mode.team_size
team_found = refl

-- The mode of one player does not go with two.
team_refused : outcome_status (get_team_id urls_of 50 pairs "1v1" urls) ≡ 400
unfolding get_team_id get_players get_bnet_profile_url_info team_by_ids sort_by insert_by key_get
    id_by_keys id_get Mode.team_size
team_refused = refl

page_of_team : outcome_status (team_page 50 pairs (some 29) 9) ≡ 200
unfolding team_page id_get name_by_ids key_by_ids
page_of_team = refl

get_team_id-perm_example :
    get_team_id urls_of 50 pairs "team-2v2" urls ≡ get_team_id urls_of 50 pairs "team-2v2" swapped
get_team_id-perm_example =
    get_team_id-perm urls_of 50 pairs "team-2v2" urls swapped (player_of 3 80 ∷ player_of 1 80 ∷ [])
      (Perm.swap "starcraft2.com/2/1/1" "starcraft2.com/2/1/3" []) players_found

get_team_id-IsTeamOf_example :
    (mode_id : ℤ) × (players : List StoredPlayer) × (ids : List ℕ) × (mode_of
        (key_get "team-2v2" (id_by_keys Mode.mapping))
      ≡ some mode_id)
    × (get_players urls_of 50 pairs urls ≡ gives players)
    × Perm ids (map (λ (p : StoredPlayer). p.id) players)
    × IsTeamOf mode_id 50 pairs ids 9
get_team_id-IsTeamOf_example = get_team_id-IsTeamOf urls_of 50 pairs "team-2v2" urls 9 team_found
