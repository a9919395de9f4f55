-- ===== src/Pages/Nav.antt =====
-- main/views/ladder.py, `LadderView.get`: the navigation above a ladder.
use rankedftw.Prelude.Objects.{filter}
use Prim.Native.String.{String}
use rankedftw.Prelude.Int.{negsuc, ◌==ℤ◌, leb_ℤ, ℤ}
use rankedftw.Prelude.Sort.{sort_by}
use rankedftw.Prelude.{
  ltb, ◌&&◌, [], ◌∷◌, some, not, none, if◌then◌else◌, false, ℕ, Bool, Option, List,
}
use rankedftw.Prelude.Result.{Result, ok, or_raise, key_error, ◌>>=◌}
use text.Mathlib.Text.{◌==◌ as str_eq}
use rankedftw.Pages.{
  Paths, Args, NavEntry, Url, version_name, mode_name, reverse_name, sort_key_name, region_name,
  league_name, race_name, set_nav, ladder_url,
}
use rankedftw.Enums.{ids, id_get, name_by_ids, key_by_ids, Row}
use rankedftw.Enums.Region as Region
use rankedftw.Enums.Race as Race
use rankedftw.Enums.League as League
use rankedftw.Enums.Version as Version
use rankedftw.Enums.Mode as Mode
use mathlib.Core.List.{reverse}

-- `(X.name_by_ids[i], X.key_by_ids[i]) for i in ...`.
unfoldable pub values_of : List Row → List ℤ → Result (List (String × Option String))
unfolding id_get name_by_ids key_by_ids
values_of mapping [] = ok []
values_of mapping (id ∷ rest) =
    let later = values_of mapping rest in
    do
      name ← or_raise (id_get id (name_by_ids mapping)) key_error
      key ← or_raise (id_get id (key_by_ids mapping)) key_error
      values ← later
      ok ((name, some key) ∷ values)

-- `if i != X.UNKNOWN`, and for leagues also `League.ALL`.
abbrev pub known_ids : List ℤ → List ℤ
known_ids = filter (λ id. not (id ==ℤ negsuc 0))

abbrev pub shown_leagues : List ℤ → List ℤ
shown_leagues = filter (λ id. not (id ==ℤ League.unknown) && not (id ==ℤ League.all))

abbrev pub all_values : List (String × Option String) → List (String × Option String)
all_values values = ("All", none) ∷ values

abbrev pub sort_values : List (String × Option String)
sort_values =
    ("MMR", some "mmr")
    ∷ ("League points", some "league-points")
    ∷ ("Games played", some "played")
    ∷ ("Wins", some "wins")
    ∷ ("Losses", some "losses")
    ∷ ("Win rate", some "win-rate")
    ∷ []

pub record Navs : Type 0 where
  pub mode_nav : List NavEntry
  pub version_nav : List NavEntry
  pub reverse_visiting : Bool
  pub reverse_href : Url
  pub sort_key_nav : List NavEntry
  pub race_nav : List NavEntry
  pub league_nav : List NavEntry
  pub region_nav : List NavEntry

-- `None if mode_id != Mode.ARCHON and team_size > 1 else race_id`.
abbrev pub filter_race : ℤ → ℕ → Option ℤ → Option ℤ
filter_race mode_id team_size race_id =
    if not (mode_id ==ℤ Mode.archon) && ltb 1 team_size then none else race_id

abbrev pub is_given : Option String → Bool
is_given none = false
is_given (some s) = not (str_eq s "")

unfoldable pub make_navs : Paths → Args → Option String → Result Navs
unfolding values_of ids sort_by set_nav ladder_url
make_navs paths args race_key = do
  modes ← values_of Mode.mapping (known_ids (sort_by leb_ℤ (ids Mode.mapping)))
  versions ← values_of Version.mapping (known_ids (reverse (ids Version.mapping)))
  races ← values_of Race.mapping (known_ids (ids Race.mapping))
  leagues ← values_of League.mapping (shown_leagues (ids League.mapping))
  regions ← values_of Region.mapping (known_ids (ids Region.mapping))
  ok (record {
    mode_nav = set_nav paths args mode_name paths.mode modes;
    version_nav = set_nav paths args version_name paths.version versions;
    reverse_visiting = is_given paths.reverse;
    reverse_href =
        ladder_url paths args reverse_name (if is_given paths.reverse then some "" else some "-");
    sort_key_nav = set_nav paths args sort_key_name paths.sort_key sort_values;
    race_nav = set_nav paths args race_name race_key (all_values races);
    league_nav = set_nav paths args league_name args.league (all_values leagues);
    region_nav = set_nav paths args region_name args.region regions;
  })
