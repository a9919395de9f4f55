-- ===== src/Categorizer/Tests.antt =====
-- The categorizer on the sample table.
use Prim.Native.String.{String}
use rankedftw.Api.{OldMember, old_data}
use rankedftw.Categorizer.Modes.{categorize, first_team_size}
use rankedftw.Enums.League as League
use rankedftw.Enums.Mode as Mode
use rankedftw.Enums.Version as Version
use rankedftw.Prelude.Result.{ok}
use rankedftw.Prelude.{arith, ◌↔◌, refl, ◌≡◌, some, none, [], ◌∷◌, ◌==◌, if◌then◌else◌}
use rankedftw.Prelude.Clock.{combine_min, date}
use rankedftw.Prelude.Int.{pos, ◌+ℤ◌}
use rankedftw.Season.{get_active}
use rankedftw.Store.{Season}
use rankedftw.Categorizer.{
  get_season_based_on_join_times, join_guess, fetch_guess, determine_season, JoinInfo, FetchInfo,
}
use rankedftw.Categorizer.Determine.{Allows, determine_season-Allows}
use rankedftw.Categorizer.Join.{Says, join_times-Says}
use rankedftw.Season.Sample.{seasons, season_27, season_28, season_29, seasons-IsChain}

-- Both guess a different season, and share the one between them.
abbrev fetch_27 : FetchInfo
fetch_27 = fetch_guess (some season_27, pos 1)

abbrev join_28 : JoinInfo
join_28 = join_guess (some season_28, pos 1)

determine_test : determine_season seasons fetch_27 join_28 ≡ ok (some season_28, pos 0)
unfolding determine_season ◌+ℤ◌
determine_test = refl

determine_season-Allows_example :
    (Allows (pos 27) (pos 1) (pos 28) × Allows (pos 28) (pos 1) (pos 28))
    ↔ Allows (pos 28) (pos 0) (pos 28)
unfolding determine_season ◌+ℤ◌
determine_season-Allows_example =
    determine_season-Allows seasons fetch_27 join_28 season_27 season_28 (pos 1) (pos 1) refl refl
      {s = season_28} {v = pos 0} refl (pos 28)

abbrev join_29 : JoinInfo
join_29 = join_guess (some season_29, pos 0)

join_times-Says_example :
    (first last : Season) × (get_active seasons (date (combine_min 736285)) ≡ ok (some first))
    × (get_active seasons (date (combine_min 736300)) ≡ ok (some last))
    × Says first last
        (get_season_based_on_join_times seasons (combine_min 736285) (combine_min 736300))
join_times-Says_example =
    join_times-Says seasons (combine_min 736285) (combine_min 736300) seasons-IsChain (omega arith)
      (omega arith)

abbrev pair_member : OldMember
pair_member = record {
  id = 1;
  realm = 1;
  display_name = "name";
  clan_tag = "";
  clan_name = "";
  favorite_race = λ n. if n == 2 then some "ZERG" else none;
  points = pos 10;
  wins = 1;
  losses = 0;
  join_time = 0;
}

abbrev same_text : String → String
same_text s = s

-- Without the ladders of a player the mode is that of the races in the first entry.
old_ladder :
    categorize same_text same_text 7 none (old_data (pair_member ∷ [])) none
    ≡ ok (Version.unknown, Mode.team_2v2, League.unknown)
unfolding categorize first_team_size
old_ladder = refl
