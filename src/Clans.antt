-- ===== src/Clans.antt =====
-- main/views/clan.py: the list of the clans, and the ladder of one. The comparisons of texts by the
-- database and by Python are arguments.
pub mod Shown
mod Tests
use Prim.Native.String.{String}
use text.Mathlib.Text.{◌==◌ as str_eq}
use rankedftw.Enums.Mode as Mode
use rankedftw.Client.{Bytes, Reply, Request, Socket, Filled, get_clan}
use rankedftw.Pages.Teams.{ServerRow}
use rankedftw.People.{StoredPlayer, StoredTeam}
use rankedftw.Prelude.{
  map, ℕ, ◌+◌, ◌==◌, ◌&&◌, ◌||◌, not, leb, ltb, Bool, true, false, Option, none, some, List, [],
  ◌∷◌, length, take, if◌then◌else◌,
}
use rankedftw.Prelude.Int.{ℤ, ◌==ℤ◌}
use rankedftw.Prelude.Objects.{filter}
use rankedftw.Prelude.Result.{Result, ok, err, or_raise, key_error, ◌>>=◌}
use rankedftw.Prelude.Sort.{sort_by}
use rankedftw.Remote.Leagues.{item_of, region_ids}
use rankedftw.Retention.{is_key}
use rankedftw.Store.Keys.{find}

-- A row of `values('clan', 'tag').annotate(count=Count('tag'))`.
pub record Clan : Type 0 where
  pub name : String
  pub tag : String
  pub players : ℕ

abbrev pub is_clan_of : StoredPlayer → Clan → Bool
is_clan_of p c = str_eq p.clan c.name && str_eq p.tag c.tag

unfoldable pub count_player : StoredPlayer → List Clan → List Clan
count_player p [] = record { name = p.clan; tag = p.tag; players = 1 } ∷ []
count_player p (c ∷ cs) =
    let rest = count_player p cs in
    if is_clan_of p c then record c { players = c.players + 1 } ∷ cs else c ∷ rest

unfoldable pub count_clans : List StoredPlayer → List Clan
count_clans [] = []
count_clans (p ∷ ps) = count_player p (count_clans ps)

abbrev pub has_mode : ℤ → Option ℤ → Bool
has_mode mode none = false
has_mode mode (some m) = m ==ℤ mode

-- `filter(season=current_season, mode=Mode.TEAM_1V1, tag__gt='')`.
abbrev pub is_active : ℕ → StoredPlayer → Bool
is_active season_id p =
    is_key season_id p.season_id && has_mode Mode.team_1v1 p.mode && not (str_eq p.tag "")

-- `order_by('-count')`.
abbrev pub larger_first : Clan → Clan → Bool
larger_first c d = leb d.players c.players

abbrev pub clans_in : List StoredPlayer → List Clan
clans_in players = sort_by larger_first (count_clans players)

abbrev pub get_top_clans : ℕ → List StoredPlayer → List Clan
get_top_clans season_id players = take 32 (clans_in (filter (is_active season_id) players))

-- What the view answers: the page of the one clan that is found, or a list.
pub data Overview : Type 0 where
  to_clan : String → Overview
  clans_listed : Bool → List Clan → Overview

module _ (startswith : String → String → Bool) (text_le : String → String → Bool) where
  abbrev pub matches_clan : String → StoredPlayer → Bool
  matches_clan clan p = startswith p.clan clan || startswith p.tag clan

  abbrev pub by_name : Clan → Clan → Bool
  by_name c d = text_le c.name d.name

  abbrev pub one_or_list : Bool → List Clan → Overview
  one_or_list left_out (c ∷ []) = to_clan c.tag
  one_or_list left_out clans = clans_listed left_out clans

  -- `clans` has at most 33, of which 32 are shown.
  unfoldable pub show_clans : List Clan → Overview
  show_clans clans =
      if length clans == 33
      then one_or_list true (sort_by by_name (take 32 clans))
      else one_or_list false (sort_by by_name clans)

  unfoldable pub search_clans : ℕ → List StoredPlayer → String → Overview
  search_clans season_id players clan =
      show_clans
        (take 33 (clans_in (filter (matches_clan clan) (filter (is_active season_id) players))))

-- A team of the clan with its first member.
pub record ClanTeam : Type 0 where
  pub id : ℕ
  pub member : StoredPlayer

-- `get_bnet_url`, by its parts.
abbrev pub get_bnet_url : StoredPlayer → Result (String × ℕ × ℕ)
get_bnet_url player = do
  region_id ← item_of player.region region_ids
  ok (region_id, player.realm, player.bid)

pub record ClanRow : Type 0 where
  pub server_row : ServerRow
  pub rank : ℕ
  pub tier : ℕ
  pub m0_id : ℕ
  pub m0_name : String
  pub m0_bnet_url : String × ℕ × ℕ
  pub played : ℕ

abbrev pub clan_row : List ClanTeam → ServerRow → Result ClanRow
clan_row teams tr = do
  t ← or_raise (find (λ (t : ClanTeam). t.id) tr.team_id teams) key_error
  url ← get_bnet_url t.member
  ok (record {
    server_row = tr;
    rank = tr.rank + 1;
    tier = tr.tier + 1;
    m0_id = t.member.id;
    m0_name = t.member.name;
    m0_bnet_url = url;
    played = tr.wins + tr.losses;
  })

-- The loop of `ClanView.fetch_data`.
unfoldable pub clan_rows : List ClanTeam → List ServerRow → Result (List ClanRow)
clan_rows teams [] = ok []
clan_rows teams (tr ∷ rows) =
    let rest = clan_rows teams rows in do row ← clan_row teams tr; others ← rest; ok (row ∷ others)

-- `ClanOverviewView.get`, of the text that is searched for without the space around it, if any.
abbrev pub get_overview :
    (String → String → Bool)
    → (String → String → Bool)
    → ℕ
    → List StoredPlayer
    → Option String
    → Overview
get_overview startswith text_le season_id players none =
    clans_listed false (get_top_clans season_id players)
get_overview startswith text_le season_id players (some clan) =
    search_clans startswith text_le season_id players clan

abbrev pub member_of : List StoredPlayer → Option ℕ → Option StoredPlayer
member_of players none = none
member_of players (some i) = find (λ (p : StoredPlayer). p.id) i players

-- `filter(member0__tag=tag, mode=Mode.TEAM_1V1, season=...)`, with the tag of the member.
abbrev pub with_member :
    String → ℕ → StoredTeam → Option StoredPlayer → List ClanTeam → List ClanTeam
with_member tag season_id t none teams = teams
with_member tag season_id t (some p) teams =
    if str_eq p.tag tag && (t.mode ==ℤ Mode.team_1v1) && is_key season_id t.season_id
    then record { id = t.id; member = p } ∷ teams
    else teams

unfoldable pub clan_teams : String → ℕ → List StoredPlayer → List StoredTeam → List ClanTeam
clan_teams tag season_id players [] = []
clan_teams tag season_id players (t ∷ ts) =
    with_member tag season_id t (member_of players t.member0) (clan_teams tag season_id players ts)

-- `ClanView.fetch_data`, of the rows of `Team.objects`.
unfoldable pub fetch_clan :
    (Bytes → Result (Reply (List ServerRow)))
    → (Request → Socket)
    → Filled
    → String
    → ℕ
    → List StoredPlayer
    → List StoredTeam
    → Result (List ClanRow)
fetch_clan loads server filters tag season_id players stored =
    let teams = clan_teams tag season_id players stored in
    do
      reply ← get_clan loads server filters (map (λ (t : ClanTeam). t.id) teams)
      clan_rows teams reply.content
