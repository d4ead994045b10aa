-- ===== src/Base/Date.antt =====
-- Dates of the proleptic Gregorian calendar, as Python's `datetime.date` has them.
use Prim.Native.Nat.{ℕ, zero, suc, ◌+◌, ◌-◌, ◌*◌, ◌/◌, ◌%◌}
use mathlib.Core.Bool.{Bool, ◌&&◌, ◌||◌}
use mathlib.Core.Option.{Option, none, some}
use pharma_intel.Base.Tests.{leb, ltb, ◌==◌, if◌then◌else◌}

pub record Date : Type 0 where
  pub year : ℕ
  pub month : ℕ
  pub day : ℕ

-- `calendar.isleap(year)`: a century is a leap year if its number is one.
unfoldable pub is_leap : ℕ → Bool
is_leap year = if year % 100 == 0 then year % 400 == 0 else year % 4 == 0

-- The months of thirty days.
abbrev is_short : ℕ → Bool
is_short month = (month == 9) || (month == 4) || (month == 6) || (month == 11)

-- `calendar.monthrange(year, month)[1]`
unfoldable pub days_in_month : ℕ → ℕ → ℕ
unfolding is_leap
days_in_month year month =
    if is_short month then 30 else if month == 2 then (if is_leap year then 29 else 28) else 31

-- What the constructor `date(year, month, day)` accepts.
unfoldable pub is_date : Date → Bool
is_date d =
    leb 1 d.year
    && leb d.year 9999
    && leb 1 d.month
    && leb d.month 12
    && leb 1 d.day
    && leb d.day (days_in_month d.year d.month)

-- One day back and one day on; `none` is an `OverflowError`.
unfoldable pub previous_day : Date → Option Date
previous_day d =
    if ltb 1 d.day
    then some (record d { day = d.day - 1 })
    else if ltb 1 d.month
    then some
        record { year = d.year; month = d.month - 1; day = days_in_month d.year (d.month - 1) }
    else if ltb 1 d.year
    then some record { year = d.year - 1; month = 12; day = 31 }
    else none

unfoldable pub next_day : Date → Option Date
next_day d =
    if ltb d.day (days_in_month d.year d.month)
    then some (record d { day = d.day + 1 })
    else if ltb d.month 12
    then some record { year = d.year; month = d.month + 1; day = 1 }
    else if ltb d.year 9999
    then some record { year = d.year + 1; month = 1; day = 1 }
    else none

-- `d - timedelta(days=n)` and `d + timedelta(days=n)`
unfoldable pub minus_days : ℕ → Date → Option Date
unfolding previous_day
minus_days zero d = some d
minus_days (suc n) d = elim (previous_day d) [ none ↦ none | some e ↦ minus_days n e ]

unfoldable pub plus_days : ℕ → Date → Option Date
unfolding next_day
plus_days zero d = some d
plus_days (suc n) d = elim (next_day d) [ none ↦ none | some e ↦ plus_days n e ]

-- The days of the year before a month, and before a year.
unfoldable pub days_before_month : ℕ → ℕ → ℕ
days_before_month year zero = 0
days_before_month year (suc zero) = 0
days_before_month year (suc (suc m)) = days_before_month year (suc m) + days_in_month year (suc m)

unfoldable pub days_before_year : ℕ → ℕ
days_before_year year = let y = year - 1 in y * 365 + y / 4 + y / 400 - y / 100

-- `timetuple().tm_yday` and `toordinal()`
unfoldable pub day_of_year : Date → ℕ
unfolding days_before_month days_in_month
day_of_year d = days_before_month d.year d.month + d.day

unfoldable pub to_ordinal : Date → ℕ
unfolding days_before_year day_of_year
to_ordinal d = days_before_year d.year + day_of_year d

-- The ordinal of the Monday of a year's first week.
unfoldable pub first_monday : ℕ → ℕ
unfolding days_before_year
first_monday year =
    let first = days_before_year year + 1 in
    let weekday = (first + 6) % 7 in if ltb 3 weekday then first - weekday + 7 else first - weekday

pub record IsoDate : Type 0 where
  pub iso_year : ℕ
  pub iso_week : ℕ
  pub iso_weekday : ℕ

-- `isocalendar()`
unfoldable pub isocalendar : Date → IsoDate
unfolding to_ordinal first_monday
isocalendar d =
    let today = to_ordinal d in
    let weekday = (today + 6) % 7 + 1 in
    if ltb today (first_monday d.year)
    then record {
      iso_year = d.year - 1;
      iso_week = (today - first_monday (d.year - 1)) / 7 + 1;
      iso_weekday = weekday;
    }
    else if leb (first_monday (d.year + 1)) today
    then record { iso_year = d.year + 1; iso_week = 1; iso_weekday = weekday }
    else record {
      iso_year = d.year;
      iso_week = (today - first_monday d.year) / 7 + 1;
      iso_weekday = weekday;
    }
