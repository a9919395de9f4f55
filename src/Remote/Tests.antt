-- ===== src/Remote/Tests.antt =====
-- Exchanges that fail, the numbers of leagues, and a player with a ladder of the Archon mode.
use rankedftw.Remote.Profiles.{Expressions, get_bnet_profile_url_info}
use Prim.Native.String.{String}
use rankedftw.Enums.Mode as Mode
use rankedftw.Enums.Region as Region
use rankedftw.Enums.Version as Version
use rankedftw.Enums.League as League
use rankedftw.Enums.{id_get, id_by_keys, key_get}
use rankedftw.Prelude.{ℕ, ltb, Option, none, some, [], ◌∷◌, true, false, ◌≡◌, ◌⊎◌, refl, arith}
use rankedftw.Prelude.Int.{ℤ, pos, ◌+ℤ◌}
use rankedftw.Prelude.Result.{ok, err, attribute_error}
use rankedftw.Remote.{responded, url_error, content, unread, cut_short, is_some, http_get, Document}
use rankedftw.Remote.Statuses.{http_get-answers}
use rankedftw.Remote.Leagues.{ask_league, league_url}
use rankedftw.Remote.Numbers.{ask_league-injective}
use rankedftw.Remote.Answers.{
  found_entry, PlayerLadders, curr, get_version_mode_league, match_refers, in_teams, in_entries,
}
use rankedftw.Remote.Refers.{get_version_mode_league-refers}

http_get-answers_example :
    (status : ℕ) × (raw : Option String) × (http_get (responded 200 (unread cut_short))
      ≡ ok (status, raw))
    × (is_some raw ≡ ltb status 600)
http_get-answers_example = http_get-answers (responded 200 (unread cut_short)) (omega arith, tt)

refused : http_get (url_error "<urlopen error [Errno 111] Connection refused>") ≡ ok (601, none)
unfolding http_get
refused = refl

-- A reader that knows one document only.
abbrev loads : String → Option (Document ℕ)
loads s = none

got : http_get (responded 200 (content "<html>")) ≡ ok (200, some "<html>")
unfolding http_get
got = refl

asked :
    ask_league Region.eu 29 Version.lotv Mode.team_2v2 League.gold
    ≡ ok (league_url "https://eu.api.blizzard.com" 29 202 0 League.gold, pos 2920202)
unfolding ask_league id_get ◌+ℤ◌
asked = refl

abbrev season : ℕ
season = 29

abbrev gold_id : ℕ
gold_id = 2

ask_league-injective_example :
    (season ≡ season)
    × (Version.lotv ≡ Version.lotv)
    × (Mode.team_2v2 ≡ Mode.team_2v2)
    × (gold_id ≡ gold_id)
ask_league-injective_example =
    ask_league-injective Region.eu Region.eu Version.lotv Version.lotv Mode.team_2v2 Mode.team_2v2
      season season gold_id gold_id (league_url "https://eu.api.blizzard.com" 29 202 0 League.gold)
      (league_url "https://eu.api.blizzard.com" 29 202 0 League.gold) (pos 2920202) (omega arith)
      (omega arith) asked asked

abbrev keep : String → String
keep s = s

abbrev ladders : PlayerLadders
ladders = record {
  current_season = some (
      record {
        ladders = some (
            record { ladder_id = some 7; queue = some "LOTV_TWOS_COMP"; league = some "gold" }
            ∷ []);
        characters = some 2;
      }
      ∷ []);
  previous_season = none;
}

archon_of :
    get_version_mode_league keep keep ladders 7 curr ≡ ok (Version.lotv, Mode.archon, League.gold)
unfolding in_teams in_entries key_get id_by_keys
archon_of = refl

archon_read :
    (found_entry keep keep
      (record { ladder_id = some 7; queue = some "LOTV_TWOS_COMP"; league = some "gold" })
      (some 2))
    ≡ ok (Version.lotv, Mode.archon, League.gold)
unfolding key_get id_by_keys
archon_read = refl

get_version_mode_league-refers_example :
    ((v : ℤ × ℤ × ℤ) × (get_version_mode_league keep keep ladders 7 curr ≡ ok v)
      × (match_refers ladders 7 curr ≡ true))
    ⊎ ((get_version_mode_league keep keep ladders 7 curr ≡ err attribute_error)
        × (match_refers ladders 7 curr ≡ false))
get_version_mode_league-refers_example = get_version_mode_league-refers keep keep ladders 7 curr (
  (
    (record { ladder_id = some 7; queue = some "LOTV_TWOS_COMP"; league = some "gold" } ∷ []),
    refl,
    (((7, refl), ((Version.lotv, Mode.archon, League.gold), archon_read)), tt),
  ),
  tt,
)

abbrev matches : Expressions
matches = record { new_style = λ url. some ("2", 1, 77); legacy = λ url. some (77, 1) }

new_profile :
    get_bnet_profile_url_info matches "https://starcraft2.com/en-gb/profile/2/1/77"
    ≡ some (Region.eu, 1, 77)
unfolding get_bnet_profile_url_info key_get
new_profile = refl

old_profile :
    get_bnet_profile_url_info matches "http://us.battle.net/sc2/en/profile/77/1/name/"
    ≡ some (Region.am, 1, 77)
unfolding get_bnet_profile_url_info
old_profile = refl
