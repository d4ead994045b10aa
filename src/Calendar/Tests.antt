-- ===== src/Calendar/Tests.antt =====
-- The new year of 2027, a Friday in the last ISO week of 2026, and the theorems of the calendar at
-- it.
use pharma_intel.Base.{ℕ, ◌+◌, ◌*◌, ◌/◌, ◌%◌, ◌≤◌, ◌≡◌, refl, some, arith}
use pharma_intel.Base.Date.{Date, is_date, days_in_month, isocalendar, minus_days, plus_days}
use pharma_intel.Calendar.{CalendarDate, build_calendar_date, calendar_values}
use pharma_intel.Calendar.Total.{build_calendar_date-some}
use pharma_intel.Calendar.Laws.{date_key_decodes, periods_enclose}

abbrev new_year : Date
new_year = record { year = 2027; month = 1; day = 1 }

abbrev day_of : ℕ → ℕ → ℕ → Date
day_of y m d = record { year = y; month = m; day = d }

new_year_iso : isocalendar new_year ≡ record { iso_year = 2026; iso_week = 53; iso_weekday = 5 }
unfolding isocalendar
new_year_iso = refl

new_year_entry : CalendarDate
unfolding calendar_values
new_year_entry =
    calendar_values new_year (day_of 2026 12 28) (day_of 2027 1 3) (day_of 2027 1 1)
      (day_of 2027 1 31) (day_of 2027 1 1) (day_of 2027 3 31) (day_of 2027 1 1) (day_of 2027 12 31)

new_year_built : build_calendar_date new_year ≡ some new_year_entry
unfolding build_calendar_date isocalendar minus_days plus_days days_in_month is_date new_year_entry
new_year_built = refl

date_key_decodes_example :
    (20_270_101 / 10_000 ≡ 2027) × (20_270_101 % 10_000 / 100 ≡ 1) × (20_270_101 % 100 ≡ 1)
unfolding is_date new_year_entry days_in_month
date_key_decodes_example = date_key_decodes new_year new_year_entry refl new_year_built

periods_enclose_example :
    (day_of 2027 1 1 ≡ record new_year { day = 1 })
    × (day_of 2027 1 31 ≡ record new_year { day = days_in_month 2027 1 })
    × ((1 ≤ 1) × (1 ≤ 4))
    × (1 + 2 ≡ 1 * 3)
    × (day_of 2027 3 31 ≡ day_of 2027 3 (days_in_month 2027 3))
    × (day_of 2027 1 1 ≡ day_of 2027 1 1)
    × ((1 ≤ 1) × (1 ≤ 3))
unfolding is_date new_year_entry days_in_month
periods_enclose_example = periods_enclose new_year new_year_entry refl new_year_built

build_calendar_date-some_example : (c : CalendarDate) × (build_calendar_date new_year ≡ some c)
unfolding is_date days_in_month
build_calendar_date-some_example =
    build_calendar_date-some new_year refl (omega arith) (omega arith)
