-- ===== src/Pages.antt =====
-- main/views/ladder.py: the ladder page. What a request holds is given as text and numbers; `reverse`,
-- which makes a path of its parts, is left as the parts.
pub mod Request
pub mod Paging
pub mod Covers
pub mod Filters
pub mod Nav
pub mod Teams
mod Tests
use Prim.Native.Nat.{max}
use rankedftw.Prelude.Int.{pos_part, pos, ltb_ℤ, ℤ}
use Prim.Native.String.{String}
use rankedftw.Prelude.{
  false, ◌/◌, ◌-◌, not, ◌||◌, ◌+◌, ◌==◌, true, ltb, ◌∷◌, ◌++◌, some, none, if◌then◌else◌, [], ℕ,
  Option, List, Bool,
}
use text.Mathlib.Text.{◌==◌ as str_eq}

-- The parts of the path, and the arguments of the url. A text that is not given is none.
pub record Paths : Type 0 where
  pub version : Option String
  pub mode : Option String
  pub reverse : Option String
  pub sort_key : Option String

pub record Args : Type 0 where
  pub region : Option String
  pub league : Option String
  pub race : Option String
  pub team_id : ℕ

-- The dimension that a link changes.
pub data Dimension : Type 0 where
  version_name mode_name reverse_name sort_key_name region_name league_name race_name : Dimension

pub record Url : Type 0 where
  pub path : Paths
  pub filters : List String
  pub team : Option ℕ
  pub offset : Option ℕ

-- `paths[name] = key` and `args[name] = key`, each for the names that it has.
abbrev pub set_path : Dimension → Option String → Paths → Paths
set_path version_name key paths = record paths { version = key }
set_path mode_name key paths = record paths { mode = key }
set_path reverse_name key paths = record paths { reverse = key }
set_path sort_key_name key paths = record paths { sort_key = key }
set_path _ key paths = paths

abbrev pub set_arg : Dimension → Option String → Args → Args
set_arg region_name key args = record args { region = key }
set_arg league_name key args = record args { league = key }
set_arg race_name key args = record args { race = key }
set_arg _ key args = args

-- `Region.ALL_KEY`.
abbrev pub all_key : String
all_key = "world"

-- `v is not None and v != Region.ALL_KEY`.
abbrev pub tag_of : Option String → List String
tag_of none = []
tag_of (some v) = if str_eq v all_key then [] else v ∷ []

abbrev pub url_offset : ℕ → Option ℤ → Option ℕ
url_offset team_id none = none
url_offset team_id (some offset) =
    if ltb_ℤ (pos 0) offset || not (team_id == 0) then some (pos_part offset) else none

unfoldable pub make_url : Paths → Args → Option ℤ → Url
make_url paths args offset = record {
  path = paths;
  filters = tag_of args.region ++ (tag_of args.league ++ tag_of args.race);
  team = if args.team_id == 0 then none else some args.team_id;
  offset = url_offset args.team_id offset;
}

-- A link that changes a dimension, and one to a page.
unfoldable pub ladder_url : Paths → Args → Dimension → Option String → Url
unfolding make_url
ladder_url paths args name key = make_url (set_path name key paths) (set_arg name key args) none

unfoldable pub page_url : Paths → Args → ℤ → Url
unfolding make_url
page_url paths args offset = make_url paths args (some offset)

-- The value that is highlighted by default: that of the path, or of the argument if it has none.
abbrev pub value_at : Dimension → Paths → Args → Option String
value_at version_name paths args = paths.version
value_at mode_name paths args = paths.mode
value_at reverse_name paths args = paths.reverse
value_at sort_key_name paths args = paths.sort_key
value_at region_name paths args = args.region
value_at league_name paths args = args.league
value_at race_name paths args = args.race

-- One entry of a navigation: whether it is highlighted, its title, its key and its link.
pub record NavEntry : Type 0 where
  pub visiting : Bool
  pub title : String
  pub key : Option String
  pub href : Url

abbrev pub same_key : Option String → Option String → Bool
same_key none none = true
same_key (some a) (some b) = str_eq a b
same_key _ _ = false

unfoldable pub set_nav :
    Paths → Args → Dimension → Option String → List (String × Option String) → List NavEntry
unfolding ladder_url
set_nav paths args name highlight [] = []
set_nav paths args name highlight ((title, key) ∷ values) =
    record {
      visiting = same_key highlight key;
      title = title;
      key = key;
      href = ladder_url paths args name key;
    }
    ∷ set_nav paths args name highlight values

-- What `update_age` writes of the data of a team: minutes or hours.
pub data Age : Type 0 where
  minutes hours : ℕ → Age

unfoldable pub age_of : ℕ → ℕ → Age
age_of now data_time =
    if ltb now (data_time + 3600)
    then minutes (max ((now - data_time + 60) / 60) 1)
    else hours ((now - data_time) / 3600)

-- A team without a time, or with the time 0, has no age.
abbrev pub age_at : ℕ → Option ℕ → Option Age
age_at now none = none
age_at now (some data_time) = if data_time == 0 then none else some (age_of now data_time)

abbrev pub update_age : ℕ → List (Option ℕ) → List (Option Age)
update_age now [] = []
update_age now (data_time ∷ times) = age_at now data_time ∷ update_age now times
