-- ===== src/Remote/Answers.antt =====
-- `ApiSeason`, `ApiLeague`, `ApiPlayer` and `ApiPlayerLadders` of main/battle_net.py: what is read from
-- the documents. A key that may be missing is an option.
use Prim.Native.String.{String}
use text.Mathlib.Text.{◌==◌ as str_eq}
use rankedftw.Enums.{id_by_keys, key_get}
use rankedftw.Enums.League as League
use rankedftw.Enums.Mode as Mode
use rankedftw.Enums.Version as Version
use rankedftw.Prelude.{
  ℕ, ◌+◌, ◌==◌, ◌&&◌, ◌||◌, not, ltb, Bool, false, Option, none, some, List, [], ◌∷◌, length,
  if◌then◌else◌,
}
use rankedftw.Prelude.Clock.{Day, date, from_unix}
use rankedftw.Prelude.Int.{ℤ}
use rankedftw.Prelude.Result.{
  Result, ok, err, or_raise, key_error, attribute_error, exception_raised, map_ok, ◌>>=◌,
}
use rankedftw.Remote.{contains}

pub record SeasonData : Type 0 where
  pub season : Option ℕ
  pub start : Option ℕ

-- `ApiSeason.season_id` and `ApiSeason.start_date`.
abbrev pub season_id_of : SeasonData → Result ℕ
season_id_of data_of = or_raise data_of.season key_error

abbrev pub start_date_of : SeasonData → Result Day
start_date_of data_of = map_ok (λ unix. date (from_unix unix)) (or_raise data_of.start key_error)

-- A tier, with the ladder of each of its divisions.
pub record Tier : Type 0 where
  pub id : Option ℕ
  pub division : Option (List (Option ℕ))

abbrev pub LeagueData : Type 0
LeagueData = Option (List Tier)

-- `get(k, [])`.
abbrev pub or_empty {ℓ} : {A : Type ℓ} → Option (List A) → List A
or_empty none = []
or_empty (some xs) = xs

abbrev pub count_tiers : List Tier → ℕ
count_tiers [] = 0
count_tiers (t ∷ ts) = length (or_empty t.division) + count_tiers ts

-- `ApiLeague.count`.
abbrev pub count : LeagueData → ℕ
count tiers = count_tiers (or_empty tiers)

abbrev pub is_in_set : ℕ → List ℕ → Bool
is_in_set i [] = false
is_in_set i (j ∷ js) = (j == i) || is_in_set i js

-- A set is the list of its elements, of which it has each once.
abbrev pub add_bid : ℕ → List ℕ → List ℕ
add_bid i set = if is_in_set i set then set else i ∷ set

unfoldable pub ladder_ids : List (Option ℕ) → Result (List ℕ)
ladder_ids [] = ok []
ladder_ids (d ∷ ds) =
    let rest = ladder_ids ds in do id ← or_raise d key_error; set ← rest; ok (add_bid id set)

unfoldable pub tier_bids_in : List Tier → ℕ → Result (List ℕ)
tier_bids_in [] tier = ok []
tier_bids_in (t ∷ ts) tier =
    let rest = tier_bids_in ts tier in
    do id ← or_raise t.id key_error; if id == tier then ladder_ids (or_empty t.division) else rest

-- `ApiLeague.tier_bids`.
abbrev pub tier_bids_of : LeagueData → ℕ → Result (List ℕ)
tier_bids_of tiers tier = do ts ← or_raise tiers key_error; tier_bids_in ts tier

-- `ApiPlayer.get_season_id`, of data that may have no 'season', which may have no 'seasonId'.
abbrev pub get_season_id : Option (Option ℕ) → ℕ
get_season_id (some (some id)) = id
get_season_id _ = 0

-- An entry of a player's ladders, and the entries of a team with the number of its characters.
pub record LadderEntry : Type 0 where
  pub ladder_id : Option ℕ
  pub queue : Option String
  pub league : Option String

pub record PlayerTeam : Type 0 where
  pub ladders : Option (List LadderEntry)
  pub characters : Option ℕ

pub record PlayerLadders : Type 0 where
  pub current_season : Option (List PlayerTeam)
  pub previous_season : Option (List PlayerTeam)

pub data SeasonMatch : Type 0 where
  curr prev : SeasonMatch

-- `l.get('ladderId', 0) == l_bid`.
abbrev pub is_entry_of : ℕ → LadderEntry → Bool
is_entry_of l_bid l = id_or_0 l.ladder_id == l_bid
  where
    id_or_0 : Option ℕ → ℕ
    id_or_0 none = 0
    id_or_0 (some id) = id

abbrev pub any_entry : ℕ → List LadderEntry → Bool
any_entry l_bid [] = false
any_entry l_bid (l ∷ ls) = is_entry_of l_bid l || any_entry l_bid ls

abbrev pub any_team : ℕ → List PlayerTeam → Bool
any_team l_bid [] = false
any_team l_bid (t ∷ ts) = any_entry l_bid (or_empty t.ladders) || any_team l_bid ts

-- `curr`, `prev`, and the two tests.
abbrev pub teams_of : PlayerLadders → SeasonMatch → List PlayerTeam
teams_of p curr = or_empty p.current_season
teams_of p prev = or_empty p.previous_season

abbrev pub match_refers : PlayerLadders → ℕ → SeasonMatch → Bool
match_refers p l_bid match = any_team l_bid (teams_of p match)

abbrev pub refers : PlayerLadders → ℕ → Option SeasonMatch
refers p l_bid =
    if match_refers p l_bid curr
    then some curr
    else if match_refers p l_bid prev
    then some prev
    else none

-- `_get_mode`, of the text and the number of characters.
abbrev pub mode_of_queue : String → ℕ → ℤ
mode_of_queue mmq team_size =
    if contains mmq "SOLO"
    then Mode.team_1v1
    else if contains mmq "TWOS" && not (contains mmq "COMP")
    then (if ltb 1 team_size then Mode.team_2v2 else Mode.random_2v2)
    else if contains mmq "THREES"
    then (if ltb 1 team_size then Mode.team_3v3 else Mode.random_3v3)
    else if contains mmq "FOURS"
    then (if ltb 1 team_size then Mode.team_4v4 else Mode.random_4v4)
    else if contains mmq "TWOS_COMP"
    then Mode.archon
    else Mode.unknown

-- `_get_version`, of the text without the space around it.
abbrev pub version_of_queue : String → Result ℤ
version_of_queue mmq =
    if contains mmq "HOTS"
    then ok Version.hots
    else if contains mmq "LOTV"
    then ok Version.lotv
    else if str_eq mmq "TWOS_COMP" || not (contains mmq "_")
    then ok Version.wol
    else err exception_raised

-- `strip` and `lower` of Python are arguments.
module _ (strip lower : String → String) where
  abbrev pub league_of_entry : LadderEntry → Result ℤ
  league_of_entry l = do
    name ← or_raise l.league key_error
    or_raise (key_get (lower name) (id_by_keys League.mapping)) key_error

  abbrev pub found_entry : LadderEntry → Option ℕ → Result (ℤ × ℤ × ℤ)
  found_entry l characters = do
    team_size ← or_raise characters key_error
    mmq ← or_raise l.queue key_error
    version ← version_of_queue (strip mmq)
    league ← league_of_entry l
    ok (version, mode_of_queue mmq team_size, league)

  -- The inner loop returns a result, or goes on.
  unfoldable pub in_entries : ℕ → Option ℕ → List LadderEntry → Result (Option (ℤ × ℤ × ℤ))
  in_entries l_bid characters [] = ok none
  in_entries l_bid characters (l ∷ ls) =
      let rest = in_entries l_bid characters ls in
      do
        id ← or_raise l.ladder_id key_error
        if id == l_bid then map_ok some (found_entry l characters) else rest

  abbrev pub or_go_on : Result (ℤ × ℤ × ℤ) → Option (ℤ × ℤ × ℤ) → Result (ℤ × ℤ × ℤ)
  or_go_on rest none = rest
  or_go_on rest (some found) = ok found

  -- After the loop the code reads `Version.UNKNONW`, which does not exist.
  unfoldable pub in_teams : ℕ → List PlayerTeam → Result (ℤ × ℤ × ℤ)
  in_teams l_bid [] = err attribute_error
  in_teams l_bid (t ∷ ts) =
      let rest = in_teams l_bid ts in
      do
        ladders ← or_raise t.ladders key_error
        found ← in_entries l_bid t.characters ladders
        or_go_on rest found

  abbrev pub get_version_mode_league : PlayerLadders → ℕ → SeasonMatch → Result (ℤ × ℤ × ℤ)
  get_version_mode_league p l_bid match = in_teams l_bid (teams_of p match)
