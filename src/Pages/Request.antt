-- ===== src/Pages/Request.antt =====
-- main/views/ladder.py: what the page takes from a request.
use rankedftw.Pages.{Args, all_key, same_key}
use rankedftw.Prelude.Result.{raise_if, or_raise, ◌>>=◌, ◌>>◌, does_not_exist, err, ok, Result}
use rankedftw.Prelude.Int.{negsuc, ◌==ℤ◌, ltb_ℤ, pos_part, pos, leb_ℤ, ℤ}
use Prim.Native.String.{String}
use rankedftw.Prelude.{◌&&◌, leb, [], Bool, ◌∷◌, some, none, if◌then◌else◌, ℕ, Option, List}
use rankedftw.Enums.{key_by_ids, id_get, Row, id_by_keys, key_get}
use rankedftw.Enums.Region as Region
use rankedftw.Enums.Race as Race
use rankedftw.Enums.League as League
use rankedftw.Enums.Version as Version
use rankedftw.Enums.Mode as Mode

pub record Filters : Type 0 where
  pub region_id : Option ℤ
  pub race_id : Option ℤ
  pub league_id : Option ℤ

-- `id if id >= 0 else None`.
abbrev pub not_negative : ℤ → Option ℤ
not_negative id = if leb_ℤ (pos 0) id then some id else none

-- One tag: the first of the three tables that has it takes it.
abbrev pub take_league : Option ℤ → Filters → Filters
take_league none f = f
take_league (some id) f = record f { league_id = not_negative id }

abbrev pub take_race : Option ℤ → Filters → Filters → Filters
take_race none f other = other
take_race (some id) f other = record f { race_id = some id }

abbrev pub take_region : Option ℤ → Filters → Filters → Filters
take_region none f other = other
take_region (some id) f other = record f { region_id = not_negative id }

unfoldable pub on_tag : String → Filters → Filters
unfolding key_get id_by_keys
on_tag tag f = take_region (key_get tag (id_by_keys Region.mapping)) f (
    take_race (key_get tag (id_by_keys Race.mapping)) f
      (take_league (key_get tag (id_by_keys League.mapping)) f))

abbrev pub on_tags : List String → Filters → Filters
on_tags [] f = f
on_tags (tag ∷ tags) f = on_tags tags (on_tag tag f)

-- The tags are those between the commas.
unfoldable pub extract_filters : List String → Filters
unfolding on_tag
extract_filters tags = on_tags tags (record { region_id = none; race_id = none; league_id = none })

-- `SORT_KEYS` of main/views/base.py.
abbrev pub sort_keys : List (String × ℕ)
sort_keys =
    ("league-points", 0)
    ∷ ("played", 1)
    ∷ ("wins", 2)
    ∷ ("losses", 3)
    ∷ ("win-rate", 4)
    ∷ ("mmr", 5)
    ∷ []

abbrev pub get_key {ℓ} : {V : Type ℓ} → Option String → List (String × V) → Option V
get_key none d = none
get_key (some k) d = key_get k d

-- `Http404` is the exception raised.
unfoldable pub extract_common : Option String → Option String → Result (Bool × ℕ)
unfolding key_get
extract_common reverse sort_key = do
  sort_key_id ← or_raise (get_key sort_key sort_keys) does_not_exist
  ok (same_key reverse (some "-"), sort_key_id)

abbrev pub known_id : Option String → List Row → Result ℤ
known_id key mapping = do
  id ← or_raise (get_key key (id_by_keys mapping)) does_not_exist
  raise_if (id ==ℤ negsuc 0) does_not_exist
  ok id

-- 2e9.
abbrev pub id_limit : ℕ
id_limit = 2000000000

-- `int(...)` of the two numbers, none where it raises.
abbrev pub team_of : Option ℤ → Result ℕ
team_of none = ok 0
team_of (some id) =
    if leb_ℤ (pos 0) id && ltb_ℤ id (pos id_limit) then ok (pos_part id) else err does_not_exist

abbrev pub offset_of : Option ℤ → Result (Option ℕ)
offset_of none = ok none
offset_of (some offset) =
    if leb id_limit (pos_part offset) then err does_not_exist else ok (some (pos_part offset))

pub record Rest : Type 0 where
  pub version_id : ℤ
  pub mode_id : ℤ
  pub team_id : ℕ
  pub request_offset : Option ℕ

unfoldable pub extract_rest : Option String → Option String → Option ℤ → Option ℤ → Result Rest
unfolding key_get id_by_keys
extract_rest version mode team offset = do
  version_id ← known_id version Version.mapping
  mode_id ← known_id mode Mode.mapping
  team_id ← team_of team
  request_offset ← offset_of offset
  ok (record {
    version_id = version_id;
    mode_id = mode_id;
    team_id = team_id;
    request_offset = request_offset;
  })

-- `key_by_ids.get(id)`, and the arguments that the page makes its links with.
abbrev pub key_of : List Row → Option ℤ → Option String
key_of mapping none = none
key_of mapping (some id) = id_get id (key_by_ids mapping)

abbrev pub or_all : Option String → Option String
or_all none = some all_key
or_all key = key

unfoldable pub args_of : Filters → ℕ → Args
unfolding id_get key_by_ids
args_of f team_id = record {
  region = or_all (key_of Region.mapping f.region_id);
  league = key_of League.mapping f.league_id;
  race = key_of Race.mapping f.race_id;
  team_id = team_id;
}

-- The tags of a request whose url has the given filters: `''.split(',')` has one, the empty text.
abbrev pub query_tags : List String → List String
query_tags [] = "" ∷ []
query_tags tags = tags
