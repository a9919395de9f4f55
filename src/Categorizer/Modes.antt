-- ===== src/Categorizer/Modes.antt =====
-- `get_version_mode_league` of main/categorizer.py, and `ApiLadder.team_size` of main/battle_net.py.
use Prim.Native.String.{String}
use rankedftw.Api.{Data, game_data, old_data, OldMember}
use rankedftw.Enums.League as League
use rankedftw.Enums.Mode as Mode
use rankedftw.Enums.Version as Version
use rankedftw.Prelude.{ℕ, ◌==◌, Option, none, some, [], ◌∷◌, if◌then◌else◌}
use rankedftw.Prelude.Int.{ℤ, ◌==ℤ◌}
use rankedftw.Prelude.Result.{Result, ok, err, exception_raised, index_error, map_ok}
use rankedftw.Remote.Answers.{PlayerLadders, SeasonMatch, refers, get_version_mode_league}
use rankedftw.Season.{is_none}
use rankedftw.Store.{Season}

-- `'favoriteRaceP4' in member`, and so on.
abbrev pub races_given : OldMember → ℕ
races_given m =
    if is_none (m.favorite_race 4)
    then (if is_none (m.favorite_race 3)
        then (if is_none (m.favorite_race 2)
            then (if is_none (m.favorite_race 1) then 0 else 1)
            else 2)
        else 3)
    else 4

unfoldable pub first_team_size : Data → Result ℕ
first_team_size (game_data teams) = err exception_raised
first_team_size (old_data []) = err index_error
first_team_size (old_data (m ∷ ms)) = ok (races_given m)

abbrev pub version_of_season : Option Season → ℤ
version_of_season none = Version.unknown
version_of_season (some s) = if s.version ==ℤ Version.wol then Version.wol else Version.unknown

abbrev pub mode_of_size : ℕ → ℤ
mode_of_size size =
    if size == 2
    then Mode.team_2v2
    else if size == 3
    then Mode.team_3v3
    else if size == 4
    then Mode.team_4v4
    else Mode.unknown

module _ (strip lower : String → String) where
  abbrev pub by_match : PlayerLadders → ℕ → Option SeasonMatch → Result (ℤ × ℤ × ℤ)
  by_match ap bid none = err exception_raised
  by_match ap bid (some match) = get_version_mode_league strip lower ap bid match

  -- The version, mode and league of a ladder, by the ladders of a player if they are given.
  unfoldable pub categorize : ℕ → Option Season → Data → Option PlayerLadders → Result (ℤ × ℤ × ℤ)
  categorize bid season al (some ap) = by_match ap bid (refers ap bid)
  categorize bid season al none =
      map_ok {B = ℤ × ℤ × ℤ}
        (λ (size : ℕ). (version_of_season season, mode_of_size size, League.unknown))
        (first_team_size al)
