-- ===== src/Views/Statistics.antt =====
-- main/views/stats.py: the page of the statistics, and the data that it loads, which a client may keep.
-- What the C++ module returns for a mode is an argument.
use Prim.Native.String.{String}
use rankedftw.Enums.{key_get, id_by_keys, ranking_ids, stat_v1_ids}
use rankedftw.Enums.League as League
use rankedftw.Enums.Mode as Mode
use rankedftw.Enums.Race as Race
use rankedftw.Enums.Region as Region
use rankedftw.Enums.Version as Version
use rankedftw.Prelude.{
  ℕ, ◌+◌, ◌-◌, ◌*◌, ◌/◌, ◌==◌, ◌||◌, ◌++◌, not, leb, Bool, true, false, Option, none, some, List,
  [], ◌∷◌, if◌then◌else◌,
}
use rankedftw.Prelude.Clock.{Time, day, second, unix_epoch, combine_min}
use rankedftw.Prelude.Int.{ℤ, ◌==ℤ◌}
use rankedftw.Prelude.Objects.{filter}
use rankedftw.Prelude.Result.{Result, ok, or_raise, index_error, map_ok}
use rankedftw.Views.{max_of}
use mathlib.Core.List.{reverse}

-- `ranking_stats_last_modified`, of the column `updated`.
abbrev pub ranking_stats_last_modified : List Time → Result Time
ranking_stats_last_modified updated = or_raise (max_of updated) index_error

-- `to_unix`, in microseconds, and the second that `http_date` writes of it.
abbrev pub unix_of : Time → ℕ
unix_of t = t - combine_min unix_epoch

abbrev pub http_date : Time → ℕ
http_date t = unix_of t / second

pub record StatsResponse : Type 0 where
  pub status : ℕ
  pub content : Option String
  pub date : ℕ
  pub expires : ℕ
  pub last_modified : ℕ

-- Status 404, or a response with headers.
pub data StatsAnswer : Type 0 where
  no_such_mode : StatsAnswer
  responds : StatsResponse → StatsAnswer

abbrev pub stats_response : Time → Time → ℕ → Option String → StatsResponse
stats_response last_updated now status content = record {
  status = status;
  content = content;
  date = http_date now;
  expires = http_date (now + day);
  last_modified = http_date last_updated;
}

abbrev pub is_stat_mode : ℤ → List ℤ → Bool
is_stat_mode mode [] = false
is_stat_mode mode (i ∷ is) = (i ==ℤ mode) || is_stat_mode mode is

-- The header `If-Modified-Since`, or 0 where it is missing or no date.
abbrev pub since : Option ℕ → ℕ
since none = 0
since (some seconds) = seconds

-- The response for a mode of the statistics.
abbrev pub if_modified : Bool → Time → Time → Result String → Result StatsAnswer
if_modified true last_updated now stats = ok (responds (stats_response last_updated now 304 none))
if_modified false last_updated now stats =
    map_ok (λ (text : String). responds (stats_response last_updated now 200 (some text))) stats

-- `StatsRaw.get`, with the time of the last update of the statistics.
unfoldable pub stats_raw : (ℤ → Result String) → ℤ → Time → Time → Option ℕ → Result StatsAnswer
stats_raw ranking_stats mode last_updated now if_modified_since =
    if is_stat_mode mode (stat_v1_ids Mode.mapping)
    then if_modified (leb (unix_of last_updated) (since if_modified_since * second)) last_updated
        now (ranking_stats mode)
    else ok no_such_mode

-- The lists of `StatsView.get_context_data`.
pub record StatsPage : Type 0 where
  pub versions : List ℤ
  pub leagues : List ℤ
  pub races : List ℤ
  pub regions : List ℤ
  pub mode_id : ℤ
  pub mode_got_race_stats : Bool

abbrev pub races_shown : List ℤ → List ℤ
races_shown ids = filter (λ r. not (r ==ℤ Race.unknown)) ids ++ (Race.unknown ∷ [])

abbrev pub stats_context : ℤ → ℕ → StatsPage
stats_context mode size = record {
  versions = reverse (ranking_ids Version.mapping);
  leagues = reverse (ranking_ids League.mapping);
  races = races_shown (ranking_ids Race.mapping);
  regions = Region.all ∷ ranking_ids Region.mapping;
  mode_id = mode;
  mode_got_race_stats = (size == 1) || (mode ==ℤ Mode.archon);
}

-- `StatsView.get`, where none is status 404.
abbrev pub stats_for : Option ℤ → Result (Option StatsPage)
stats_for none = ok none
stats_for (some mode) = map_ok (λ (size : ℕ). some (stats_context mode size)) (Mode.team_size mode)

unfoldable pub stats_page : String → Result (Option StatsPage)
stats_page mode_key = stats_for (key_get mode_key (id_by_keys Mode.mapping))
