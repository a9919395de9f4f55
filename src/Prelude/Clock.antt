-- ===== src/Prelude/Clock.antt =====
-- Points in time. A date is the number of a day; an aware datetime is a number of microseconds in
-- UTC from the start of day 0, so that `.date()` and `datetime.combine` are division and product.
use Prim.Native.Nat.{min}
use rankedftw.Prelude.{refl, ◌%◌, ℕ, ◌+◌, ◌-◌, ◌*◌, ◌/◌, ◌≡◌, arith}

abbrev pub Day : Type 0
Day = ℕ

abbrev pub Time : Type 0
Time = ℕ

-- `timedelta(seconds=1)`, `timedelta(hours=1)`, `timedelta(days=1)`.
abbrev pub second : ℕ
second = 1000000

abbrev pub hour : ℕ
hour = 3600 * second

abbrev pub day : ℕ
day = 24 * hour

-- `dt.date()`.
abbrev pub date : Time → Day
date t = t / day

-- `datetime.combine(d, time.min)` and `datetime.combine(d, time.max)`.
abbrev pub combine_min : Day → Time
combine_min d = d * day

abbrev pub combine_max : Day → Time
combine_max d = d * day + (day - 1)

-- `abs((a - b).days)` of two dates.
abbrev pub days_between : Day → Day → ℕ
days_between a b = (a - b) + (b - a)

-- `d.year`, by the cycles of 400, 100, 4 years and 1 year of the Gregorian calendar. Day 0 is
-- 0001-01-01, the first that a `datetime` has.
unfoldable pub year : Day → ℕ
year d =
    let n400 = d / 146097 in
    let r400 = d % 146097 in
    let n100 = min 3 (r400 / 36524) in
    let r100 = r400 - n100 * 36524 in
    let n4 = r100 / 1461 in
    let r4 = r100 % 1461 in let n1 = min 3 (r4 / 365) in 400 * n400 + 100 * n100 + 4 * n4 + n1 + 1

-- The day of 1970-01-01, and `from_unix` and `to_unix` of common/utils.py for whole seconds.
abbrev pub unix_epoch : Day
unix_epoch = 719162

unfoldable pub from_unix : ℕ → Time
from_unix unix = combine_min unix_epoch + unix * second

pub date-combine_min : (d : Day) → date (combine_min d) ≡ d
date-combine_min d = omega arith

pub date-combine_max : (d : Day) → date (combine_max d) ≡ d
date-combine_max d = omega arith

-- The last year, the first day of a leap year and the last day before it.
year_table :
    (year 719161 ≡ 1969)
    × (year unix_epoch ≡ 1970)
    × (year 730119 ≡ 2000)
    × (year 730118 ≡ 1999)
    × (year 0 ≡ 1)
    × (year 146096 ≡ 400)
    × (year 146097 ≡ 401)
unfolding year
year_table = (refl, refl, refl, refl, refl, refl, refl)
