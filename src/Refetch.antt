-- ===== src/Refetch.antt =====
-- main/refetch.py: the ladders that are missing, and those of past seasons. `Ranking.set_data_time` of
-- main/models.py. The C++ module is an argument, by what its calls return or raise; the two tables that
-- it writes are not part of it.
pub mod Missing
pub mod Past
pub mod Seasons
pub mod Good
pub mod Due
pub mod Times
mod Tests
use Prim.Native.Nat.{min}
use rankedftw.Fetch.Cached.{UpdateCall}
use rankedftw.Store.{Ranking, Season}
use rankedftw.Prelude.Result.{ok, map_ok, ◌>>=◌, Result}
use rankedftw.Prelude.{◌&&◌, not, if◌then◌else◌, true, Bool, ℕ}
use rankedftw.Prelude.Clock.{from_unix, Time}
use rankedftw.Season.{start_time, end_time, is_open}

pub record Cpp : Type 0 where
  pub load : ℕ → Result (Unit {0})
  pub update_with_ladder : UpdateCall → Result (Unit {0})
  pub min_max_data_time : ℕ × ℕ
  pub save_data : ℕ → ℕ → Result (Unit {0})
  pub save_stats : ℕ → Result (Unit {0})

-- `bool(dt)`: Python takes any datetime as true.
abbrev pub is_true : Time → Bool
is_true t = true

-- The times of the ranked data, as seconds of unix time.
unfoldable pub set_data_time : Season → ℕ × ℕ → Ranking → Result Ranking
unfolding from_unix start_time end_time is_open
set_data_time season (first, last) ranking =
    let timed = record ranking {
      min_data_time = from_unix first;
      max_data_time = from_unix last;
    } in
    do
      started ←
          if not (is_true timed.min_data_time) && not (is_true timed.max_data_time)
          then map_ok
              (λ (t : Time). record timed { min_data_time = t; max_data_time = t; data_time = t })
              (start_time season)
          else ok timed
      if is_open season
          then ok (record started { data_time = started.max_data_time })
          else map_ok (λ (t : Time). record started { data_time = min started.max_data_time t })
              (end_time season)
