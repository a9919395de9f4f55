-- ===== src/Fetch/Answers.antt =====
-- What the remote API answers to main/fetch.py, as the values that the client of main/battle_net.py
-- makes of it. Each call of one run has an answer of its own: the calls for a league by mode, league
-- and try, those for a ladder by its number. The same holds for the calls of `check_stop`.
use rankedftw.Prelude.Clock.{Time}
use rankedftw.Prelude.Int.{◌==ℤ◌, ℤ}
use rankedftw.Prelude.{zero, ◌&&◌, ◌+◌, some, suc, ◌==◌, none, List, if◌then◌else◌, Option, ℕ}
use rankedftw.Enums.{key_by_ids, id_get}
use rankedftw.Store.{good, Ladder}
use rankedftw.Prelude.Result.{
  key_error, system_exit, attribute_error, Result, ok, raise_if, or_raise, ◌>>=◌, ◌>>◌,
}
use rankedftw.Enums.Version
use rankedftw.Enums.Mode
use rankedftw.Enums.League
use Prim.Native.String.{String}

-- `fetch_ladder`: the status, and the methods of `ApiLadder`, which raise on data they do not expect.
pub record LadderAnswer : Type 0 where
  pub status : ℕ
  pub fetch_time : Time
  pub url : String
  pub text : Option String
  pub max_points : Result (Option ℤ)
  pub first_join : Result (Option Time)
  pub last_join : Result (Option Time)
  pub member_count : Result ℕ

-- `fetch_league`, with `ApiLeague.tier_bids`.
pub record LeagueAnswer : Type 0 where
  pub status : ℕ
  pub fetch_time : Time
  pub url : String
  pub bid : ℕ
  pub text : Option String
  pub tier_bids : ℕ → Result (List ℕ)

-- Where `check_stop` is called, with the mode and the league.
pub data Moment : Type 0 where
  at_league : ℤ → ℤ → Moment
  at_try at_tier : ℤ → ℤ → ℕ → Moment

pub record Run : Type 0 where
  pub check_stop : Moment → Result (Unit {0})
  pub fetch_league : ℤ → ℤ → ℕ → LeagueAnswer
  pub fetch_ladder : ℕ → LadderAnswer

-- The columns of a new ladder that come from the answer.
abbrev pub with_columns :
    Ladder
    → Result (Option ℤ)
    → Result (Option Time)
    → Result (Option Time)
    → Result ℕ
    → Result Ladder
with_columns ladder points first last count = do
  max_points ← points
  first_join ← first
  last_join ← last
  member_count ← count
  ok (record ladder {
    strangeness = good;
    max_points = max_points;
    first_join = first_join;
    last_join = last_join;
    member_count = some member_count;
  })

unfoldable pub filled : LadderAnswer → Ladder → Result Ladder
filled res ladder =
    if res.status == 200
    then with_columns ladder res.max_points res.first_join res.last_join res.member_count
    else ok ladder

-- The lookups of `Ladder.info`, whose text is only logged.
unfoldable pub info : Ladder → Result (Unit {0})
unfolding id_get key_by_ids
info ladder = do
  season_id ← or_raise ladder.season_id attribute_error
  mode_key ← or_raise (id_get ladder.mode (key_by_ids Mode.mapping)) key_error
  version_key ← or_raise (id_get ladder.version (key_by_ids Version.mapping)) key_error
  league_key ← or_raise (id_get ladder.league (key_by_ids League.mapping)) key_error
  ok tt

-- The loop of `fetch_new_in_league` over `range(1, 5)`: the answer with status 200, or none where
-- the function returns.
unfoldable pub tries : Run → ℤ → ℤ → ℕ → ℕ → Result (Option LeagueAnswer)
tries run mode league count zero = ok none
tries run mode league count (suc left) =
    let rest = tries run mode league (count + 1) left in
    let res = run.fetch_league mode league count in
    do
      run.check_stop (at_try mode league count)
      raise_if (res.status == 503) system_exit
      if (res.status == 404) && (league ==ℤ League.grandmaster)
          then ok none
          else if res.status == 200
          then ok (some res)
          else rest
