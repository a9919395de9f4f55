-- ===== src/Views.antt =====
-- main/views/base.py: what several pages show, and the client of the C++ module; `cache_value` of
-- common/cache.py. The store of the cache is given by the value that it holds, if any.
pub mod Statistics
pub mod Modified
mod Tests
use Prim.Native.Nat.{min, max}
use Prim.Native.String.{String}
use rankedftw.Prelude.{
  ℕ, ◌%◌, ◌==◌, ◌&&◌, not, ltb, leb, Bool, true, false, Option, none, some, List, [], ◌∷◌, map,
  if◌then◌else◌,
}
use rankedftw.Prelude.Clock.{Day, Time, date}
use rankedftw.Prelude.Objects.{filter}
use rankedftw.Prelude.Result.{Result, ok, err, or_raise, type_error, ◌>>=◌}
use rankedftw.Prelude.Sort.{sort_by}
use rankedftw.Season.{is_none, start_time, end_time}
use rankedftw.Store.{Db, Season, Cache, Ranking}

-- `cache_value`: what it returns, and what the cache holds then.
abbrev pub cache_value {ℓ} : {V : Type ℓ} → Option V → Result V → Result V × Option V
cache_value (some value) created = (ok value, some value)
cache_value none (ok value) = (ok value, some value)
cache_value none (err e) = (err e, none)

-- A season in `_get_season_list`.
pub record SeasonItem : Type 0 where
  pub id : ℕ
  pub number : ℕ
  pub year : ℕ
  pub start : Time
  pub end : Time
  pub color : String

abbrev pub end_or_now : Time → Season → Result Time
end_or_now now s = if is_none s.end_date then ok now else end_time s

unfoldable pub season_item : Time → Season → Result SeasonItem
season_item now s = do
  start ← start_time s
  end ← end_or_now now s
  ok (record {
    id = s.id;
    number = s.number;
    year = s.year;
    start = start;
    end = end;
    color = if s.id % 2 == 0 then "#ff6666" else "#6666ff";
  })

unfoldable pub season_items : Time → List Season → Result (List SeasonItem)
season_items now [] = ok []
season_items now (s ∷ ss) =
    let rest = season_items now ss in do item ← season_item now s; items ← rest; ok (item ∷ items)

abbrev pub is_shown_season : Season → Bool
is_shown_season s = ltb 14 s.id && not (is_none s.start_date)

abbrev pub by_season_id : Season → Season → Bool
by_season_id s t = leb s.id t.id

-- `_get_season_list`, before it is written as JSON.
unfoldable pub season_list : Time → List Season → Result (List SeasonItem)
season_list now seasons = season_items now (sort_by by_season_id (filter is_shown_season seasons))

-- `Max`, which is `None` of no rows.
abbrev pub max_with : ℕ → Option ℕ → ℕ
max_with n none = n
max_with n (some m) = max n m

abbrev pub max_of : List ℕ → Option ℕ
max_of [] = none
max_of (n ∷ ns) = some (max_with n (max_of ns))

-- `_last_updated_info`: the day, and the season.
unfoldable pub last_updated_info : Db → Result (Day × Option ℕ)
last_updated_info db = do
  created ← or_raise (max_of (map (λ (c : Cache). c.created) db.caches)) type_error
  data_time ← or_raise (max_of (map (λ (r : Ranking). r.data_time) db.rankings)) type_error
  ok (date (min created data_time), max_of (map (λ (r : Ranking). r.season_id) db.rankings))

-- `RankingsViewClient.__call__`: the object that is kept is made by the first call, and dropped by one
-- that raises.
abbrev pub after_call {ℓ κ} : {C : Type ℓ} {A : Type κ} → C → Result A → Result A × Option C
after_call cpp (ok a) = (ok a, some cpp)
after_call cpp (err e) = (err e, none)

abbrev pub call_with {ℓ κ} :
    {C : Type ℓ} {A : Type κ} → (C → Result A) → Result C → Result A × Option C
call_with func (ok cpp) = after_call cpp (func cpp)
call_with func (err e) = (err e, none)

abbrev pub kept_or_made {ℓ} : {C : Type ℓ} → Option C → Result C → Result C
kept_or_made (some cpp) made = ok cpp
kept_or_made none made = made

abbrev pub call_client {ℓ κ} :
    {C : Type ℓ} {A : Type κ} → Result C → (C → Result A) → Option C → Result A × Option C
call_client made func kept = call_with func (kept_or_made kept made)
