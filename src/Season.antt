-- ===== src/Season.antt =====
-- `class Season` of main/models.py: its queries over the table of seasons and its tests on dates. A
-- datetime that is passed to `get_active` is compared by its date, as Django does in UTC.
pub mod Chain
pub mod Queries
pub mod Sample
mod Tests
use rankedftw.Prelude.{
  not, if◌then◌else◌, ℕ, ◌+◌, Bool, true, false, ◌&&◌, ◌||◌, Option, none, some, List, leb, ◌==◌,
}
use rankedftw.Prelude.Clock.{Day, Time, combine_min, combine_max, days_between}
use rankedftw.Prelude.Int.{ℤ, pos, negsuc, ◌+ℤ◌, ◌==ℤ◌}
use rankedftw.Prelude.Objects.{get}
use rankedftw.Prelude.Result.{
  Result, ok, err, ◌>>=◌, or_raise, type_error, does_not_exist, multiple_objects,
}
use rankedftw.Store.{Season}

abbrev pub is_none {ℓ} : {A : Type ℓ} → Option A → Bool
is_none none = true
is_none (some _) = false

-- `start_date__lte=date`, which no row without a start date meets.
abbrev pub lte_date : Option Day → Day → Bool
lte_date none d = false
lte_date (some s) d = leb s d

-- `Q(end_date__gte=date) | Q(end_date__isnull=True)`.
abbrev pub gte_date_or_null : Option Day → Day → Bool
gte_date_or_null none d = true
gte_date_or_null (some e) d = leb d e

abbrev pub missing_to_none {ℓ} : {A : Type ℓ} → Result A → Result (Option A)
missing_to_none (ok a) = ok (some a)
missing_to_none (err does_not_exist) = ok none
missing_to_none (err e) = err e

unfoldable pub start_time : Season → Result Time
start_time s = do d ← or_raise s.start_date type_error; ok (combine_min d)

unfoldable pub end_time : Season → Result Time
end_time s = do d ← or_raise s.end_date type_error; ok (combine_max d)

abbrev pub is_current : Season → Bool
is_current s = not (is_none s.start_date) && is_none s.end_date

unfoldable pub get_current_season : List Season → Result Season
get_current_season seasons = get is_current seasons

-- `self.start_date <= date <= self.end_date`.
unfoldable pub active : Season → Day → Result Bool
active s d = do
  start ← or_raise s.start_date type_error
  if leb start d then (do finish ← or_raise s.end_date type_error; ok (leb d finish)) else ok false

abbrev pub is_active_at : Day → Season → Bool
is_active_at d s = gte_date_or_null s.end_date d && lte_date s.start_date d

unfoldable pub get_active : List Season → Day → Result (Option Season)
get_active seasons d = missing_to_none (get (is_active_at d) seasons)

unfoldable pub is_open : Season → Bool
is_open s = is_none s.end_date

unfoldable pub is_coming : Season → Bool
is_coming s = is_none s.start_date

unfoldable pub get_relative : List Season → Season → ℤ → Result (Option Season)
get_relative seasons s diff =
    missing_to_none (get (λ (t : Season). pos t.id ==ℤ (pos s.id +ℤ diff)) seasons)

unfoldable pub get_prev : List Season → Season → Result (Option Season)
unfolding get_relative
get_prev seasons s = get_relative seasons s (negsuc 0)

unfoldable pub get_next : List Season → Season → Result (Option Season)
unfolding get_relative
get_next seasons s = get_relative seasons s (pos 1)

unfoldable pub near_start : Season → Day → ℕ → Result Bool
near_start s d days = do
  start ← or_raise s.start_date type_error
  ok (leb (days_between start d) days)

unfoldable pub near_end : Season → Day → ℕ → Result Bool
near_end s d days = do
  finish ← or_raise s.end_date type_error
  ok (leb (days_between finish d) days)
