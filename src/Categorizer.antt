-- ===== src/Categorizer.antt =====
-- main/categorizer.py: the season of a ladder, from the join times of its players and from the time
-- at which a player's ladders were fetched, and the strangeness of a ladder. `None` as a season is
-- what `get_prev`, `get_next` and `get_active` return where no season is there.
pub mod Determine
pub mod Join
pub mod Modes
mod Tests
use rankedftw.Prelude.{
  ◌*◌, ◌&&◌, ◌||◌, ◌==◌, false, ◌+◌, true, ltb, if◌then◌else◌, ℕ, some, not, Option, List, Bool,
}
use rankedftw.Prelude.Clock.{Day, Time, date, day, combine_min}
use rankedftw.Prelude.Int.{ℤ, pos, negsuc, ◌+ℤ◌, ◌==ℤ◌}
use rankedftw.Prelude.Result.{
  type_error, attribute_error, or_raise, exception_raised, cat_error, Error, Result, ok, err, ◌>>=◌,
  ◌>>◌, raise_if,
}
use rankedftw.Season.{get_active, get_next, get_prev, get_relative, is_open, near_start, near_end}
use rankedftw.Store.{Season, Strangeness, good, nyd, strange, nop}

-- Python's `or`, `and` and `not` on tests that may raise: the second is only made if it decides.
infixr 3 ◌or◌
infixr 4 ◌and◌
abbrev pub ◌or◌ : Result Bool → Result Bool → Result Bool
ok true or q = ok true
ok false or q = q
err e or q = err e

abbrev pub ◌and◌ : Result Bool → Result Bool → Result Bool
ok true and q = q
ok false and q = ok false
err e and q = err e

abbrev pub negated : Result Bool → Result Bool
negated (ok b) = ok (not b)
negated (err e) = err e

-- `if c: a` with the code that follows, where the test may raise.
abbrev pub on {ℓ} : {A : Type ℓ} → Result Bool → A → A → (Error → A) → A
on (ok true) a b f = a
on (ok false) a b f = b
on (err e) a b f = f e

-- The default of `days` in `near_start` and `near_end`.
abbrev pub near_days : ℕ
near_days = 7

-- A season, or `None`, with how sure it is: 0, or -1 or 1 where it may be a neighbour.
abbrev pub Guess : Type 0
Guess = Option Season × ℤ

same_season : Season → Season → Day → Day → Result Guess
same_season first_season last_season first last =
    on
      (ok (is_open first_season)
          and negated
              (near_start first_season first near_days or near_start last_season last near_days)
        or ok (not (is_open first_season)) and near_end first_season first near_days)
      (ok (some last_season, pos 1))
      (on (near_start last_season last near_days) (ok (some last_season, negsuc 0))
        (ok (some last_season, pos 0)) err)
      err

next_season : Season → Season → Day → Day → Result Guess
next_season first_season last_season first last =
    on (near_start last_season last near_days)
      (on (near_end first_season first near_days) (ok (some last_season, negsuc 0))
        (ok (some first_season, pos 0)) err)
      (on (near_end first_season first near_days) (ok (some last_season, pos 0)) (err cat_error)
        err)
      err

-- The seasons of the two joins are at least two apart, or in the wrong order.
far_season : List Season → Season → Season → Day → Day → Result Guess
far_season seasons first_season last_season first last =
    on
      (ok (first_season.id + 2 == last_season.id)
        and near_end first_season first near_days
        and near_start last_season last near_days)
      (do between ← get_next seasons first_season; ok (between, pos 0)) (err cat_error) err

unfoldable pub get_season_based_on_join_times : List Season → Time → Time → Result Guess
unfolding same_season next_season far_season
get_season_based_on_join_times seasons first_join last_join = do
  raise_if (ltb last_join first_join) exception_raised
  first_found ← get_active seasons (date first_join)
  last_found ← get_active seasons (date last_join)
  first_season ← or_raise first_found attribute_error
  last_season ← or_raise last_found attribute_error
  if first_season.id == last_season.id
      then same_season first_season last_season (date first_join) (date last_join)
      else if first_season.id + 1 == last_season.id
      then next_season first_season last_season (date first_join) (date last_join)
      else far_season seasons first_season last_season (date first_join) (date last_join)

-- What `ApiPlayerLadders.refers` returns; `unexpected` is any other value.
pub data Match : Type 0 where
  curr prev unexpected : Match

abbrev pub is_unexpected : Match → Bool
is_unexpected unexpected = true
is_unexpected _ = false

fetch_valid_at : Season → Day → Result ℤ
fetch_valid_at fetch_season d =
    on (near_start fetch_season d near_days) (ok (negsuc 0))
      (on (ok (is_open fetch_season) or near_end fetch_season d near_days) (ok (pos 1)) (ok (pos 0))
        err)
      err

matched : List Season → Season → Match → Result (Option Season)
matched seasons fetch_season prev = get_prev seasons fetch_season
matched seasons fetch_season _ = ok (some fetch_season)

unfoldable pub get_season_based_on_fetch_time_and_match : List Season → Time → Match → Result Guess
unfolding fetch_valid_at matched
get_season_based_on_fetch_time_and_match seasons fetch_time m = do
  raise_if (is_unexpected m) exception_raised
  found ← get_active seasons (date fetch_time)
  fetch_season ← or_raise found attribute_error
  fetch_valid ← fetch_valid_at fetch_season (date fetch_time)
  season ← matched seasons fetch_season m
  ok (season, fetch_valid)

-- The arguments of `determine_season` come in pairs: the times to compute from, or a guess.
pub data FetchInfo : Type 0 where
  fetched_at : Time → Match → FetchInfo
  fetch_guess : Guess → FetchInfo

pub data JoinInfo : Type 0 where
  joined_at : Time → Time → JoinInfo
  join_guess : Guess → JoinInfo

pub fetch_of : List Season → FetchInfo → Result Guess
fetch_of seasons (fetched_at t m) = get_season_based_on_fetch_time_and_match seasons t m
fetch_of seasons (fetch_guess g) = ok g

pub join_of : List Season → JoinInfo → Result Guess
join_of seasons (joined_at first last) = get_season_based_on_join_times seasons first last
join_of seasons (join_guess g) = ok g

-- `determine_season` from the point where both seasons and both `valid`s are known.
unfoldable pub combine : List Season → Season → ℤ → Season → ℤ → Result Guess
combine seasons fetch_season fetch_valid join_season join_valid =
    let f = pos fetch_season.id in
    let j = pos join_season.id in
    if not (
      f ==ℤ j
      || f ==ℤ (j +ℤ join_valid)
      || (f +ℤ fetch_valid) ==ℤ j
      || (f +ℤ fetch_valid) ==ℤ (j +ℤ join_valid))
    then err exception_raised
    else if fetch_valid ==ℤ pos 0 || join_valid ==ℤ pos 0
    then (if fetch_valid ==ℤ pos 0
        then ok (some fetch_season, pos 0)
        else ok (some join_season, pos 0))
    else if f ==ℤ j && fetch_valid ==ℤ join_valid
    then ok (some fetch_season, fetch_valid)
    else if f ==ℤ j
    then ok (some fetch_season, pos 0)
    else if (f +ℤ fetch_valid) ==ℤ (j +ℤ join_valid)
    then (do between ← get_relative seasons fetch_season fetch_valid; ok (between, pos 0))
    else if (f +ℤ fetch_valid) ==ℤ j && f ==ℤ (j +ℤ join_valid)
    then ok (some fetch_season, fetch_valid)
    else if (f +ℤ fetch_valid) ==ℤ j
    then ok (some join_season, pos 0)
    else ok (some fetch_season, pos 0)

unfoldable pub determine_season : List Season → FetchInfo → JoinInfo → Result Guess
unfolding fetch_of join_of combine
determine_season seasons fetch join = do
  (fetch_found, fetch_valid) ← fetch_of seasons fetch
  (join_found, join_valid) ← join_of seasons join
  fetch_season ← or_raise fetch_found attribute_error
  join_season ← or_raise join_found attribute_error
  combine seasons fetch_season fetch_valid join_season join_valid

-- `datetime(2013, 8, 27)`, and `LADDER_AGE_BEFORE_CATEGORIZING_UNCERTAIN_LADDER`.
abbrev pub never_ap_time : Time
never_ap_time = combine_min 735106

abbrev pub uncertain_days : ℕ
uncertain_days = 14

-- What `get_strangeness` reads of an `ApiLadder`: the join times, which are `None` for an empty
-- ladder, and the number of bad points that `point_stats` counts.
pub record LadderStats : Type 0 where
  pub first_join : Option Time
  pub last_join : Option Time
  pub bad_count : ℕ

-- `al.last_join() < NEVER_AP_TIME`.
abbrev too_old : LadderStats → Result Bool
too_old al = do last_join ← or_raise al.last_join type_error; ok (ltb last_join never_ap_time)

-- `ap` says whether player ladders were matched.
unfoldable pub get_strangeness : Time → LadderStats → Bool → Result Strangeness
get_strangeness fetch_time al ap = do
  first_join ← or_raise al.first_join type_error
  let uncertain_age = ltb fetch_time (first_join + uncertain_days * day)
  if ltb 0 al.bad_count
      then (if ap then err exception_raised else ok strange)
      else on (ok ap or too_old al) (ok good) (if uncertain_age then ok nyd else ok nop) err
