-- ===== src/Remote/Leagues.antt =====
-- `fetch_current_season`, `fetch_league` and `fetch_ladder`: what is asked for, and the number that
-- stands for a league in the table of the caches.
use Prim.Native.String.{String}
use rankedftw.Enums.{id_get}
use rankedftw.Enums.Mode as Mode
use rankedftw.Enums.Region as Region
use rankedftw.Enums.Version as Version
use rankedftw.Prelude.{ℕ, ◌+◌, ◌*◌, List, [], ◌∷◌}
use rankedftw.Prelude.Int.{ℤ, pos, ◌+ℤ◌}
use rankedftw.Prelude.Result.{Result, ok, or_raise, key_error, ◌>>=◌}

abbrev pub region_url_prefixes : List (ℤ × String)
region_url_prefixes =
    (Region.eu, "https://eu.api.blizzard.com")
    ∷ (Region.am, "https://us.api.blizzard.com")
    ∷ (Region.kr, "https://kr.api.blizzard.com")
    ∷ (Region.cn, "https://gateway.battlenet.com.cn")
    ∷ []

abbrev pub region_ids : List (ℤ × String)
region_ids =
    (Region.eu, "2")
    ∷ (Region.am, "1")
    ∷ (Region.kr, "3")
    ∷ (Region.cn, "5")
    ∷ (Region.sea, "4")
    ∷ []

abbrev pub queue_id_major : List (ℤ × ℕ)
queue_id_major = (Version.wol, 0) ∷ (Version.hots, 100) ∷ (Version.lotv, 200) ∷ []

abbrev pub queue_id_minor : List (ℤ × ℕ)
queue_id_minor =
    (Mode.team_1v1, 1)
    ∷ (Mode.random_2v2, 2)
    ∷ (Mode.team_2v2, 2)
    ∷ (Mode.random_3v3, 3)
    ∷ (Mode.team_3v3, 3)
    ∷ (Mode.random_4v4, 4)
    ∷ (Mode.team_4v4, 4)
    ∷ (Mode.archon, 6)
    ∷ []

abbrev pub team_types : List (ℤ × ℕ)
team_types =
    (Mode.team_1v1, 0)
    ∷ (Mode.random_2v2, 1)
    ∷ (Mode.team_2v2, 0)
    ∷ (Mode.random_3v3, 1)
    ∷ (Mode.team_3v3, 0)
    ∷ (Mode.random_4v4, 1)
    ∷ (Mode.team_4v4, 0)
    ∷ (Mode.archon, 0)
    ∷ []

-- The paths, by their parts.
pub data ApiUrl : Type 0 where
  season_url : String → String → ApiUrl
  league_url : String → ℕ → ℕ → ℕ → ℤ → ApiUrl
  ladder_url_of : String → ℕ → ApiUrl

-- `d[k]`.
abbrev pub item_of {ℓ} : {V : Type ℓ} → ℤ → List (ℤ × V) → Result V
item_of k d = or_raise (id_get k d) key_error

unfoldable pub ask_season : ℤ → Result ApiUrl
ask_season region = do
  url_prefix ← item_of region region_url_prefixes
  region_id ← item_of region region_ids
  ok (season_url url_prefix region_id)

abbrev pub bid_of : ℕ → ℕ → ℕ → ℤ → ℤ
bid_of season_id queue_id team_type league =
    league +ℤ pos (team_type * 10 + queue_id * 100 + season_id * 100000)

unfoldable pub ask_league : ℤ → ℕ → ℤ → ℤ → ℤ → Result (ApiUrl × ℤ)
ask_league region season_id version mode league = do
  url_prefix ← item_of region region_url_prefixes
  major ← item_of version queue_id_major
  minor ← item_of mode queue_id_minor
  team_type ← item_of mode team_types
  ok (
    league_url url_prefix season_id (major + minor) team_type league,
    bid_of season_id (major + minor) team_type league,
  )

unfoldable pub ask_ladder : ℤ → ℕ → Result ApiUrl
ask_ladder region bid = do
  url_prefix ← item_of region region_url_prefixes
  ok (ladder_url_of url_prefix bid)
