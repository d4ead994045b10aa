-- ===== src/Calendar.antt =====
-- `build_calendar_date` of business_data/calendar.py: what the reporting calendar stores of a date.
pub mod Laws
pub mod Total
mod Tests
use pharma_intel.Base.{
  ℕ, zero, suc, ◌+◌, ◌-◌, ◌*◌, ◌/◌, ◌%◌, ◌==◌, Bool, Option, none, some, List, [], ◌∷◌, ◌++◌, leb,
  if◌then◌else◌,
}
use pharma_intel.Base.Text.{Text, codes}
use pharma_intel.Base.Date.{Date, IsoDate, minus_days, plus_days, day_of_year, isocalendar, is_date}

-- An entry of a tuple; the indices below are always within it.
abbrev entry : ℕ → List Text → Text
entry n [] = []
entry zero (t ∷ ts) = t
entry (suc n) (t ∷ ts) = entry n ts

abbrev pub month_names : List Text
month_names =
    codes ""
    ∷ codes "January"
    ∷ codes "February"
    ∷ codes "March"
    ∷ codes "April"
    ∷ codes "May"
    ∷ codes "June"
    ∷ codes "July"
    ∷ codes "August"
    ∷ codes "September"
    ∷ codes "October"
    ∷ codes "November"
    ∷ codes "December"
    ∷ []

abbrev pub month_abbreviations : List Text
month_abbreviations =
    codes ""
    ∷ codes "Jan"
    ∷ codes "Feb"
    ∷ codes "Mar"
    ∷ codes "Apr"
    ∷ codes "May"
    ∷ codes "Jun"
    ∷ codes "Jul"
    ∷ codes "Aug"
    ∷ codes "Sep"
    ∷ codes "Oct"
    ∷ codes "Nov"
    ∷ codes "Dec"
    ∷ []

abbrev pub weekday_names : List Text
weekday_names =
    codes ""
    ∷ codes "Monday"
    ∷ codes "Tuesday"
    ∷ codes "Wednesday"
    ∷ codes "Thursday"
    ∷ codes "Friday"
    ∷ codes "Saturday"
    ∷ codes "Sunday"
    ∷ []

abbrev digit : ℕ → ℕ
digit n = 48 + n % 10

-- `f"{year:04d}"`, up to the year 9999.
abbrev four_digits : ℕ → Text
four_digits n = digit (n / 1000) ∷ digit (n / 100) ∷ digit (n / 10) ∷ digit n ∷ []

abbrev pub ymd : ℕ → ℕ → ℕ → Date
ymd y m d = record { year = y; month = m; day = d }

-- `date(y, m, d)`; `none` is its `ValueError`.
unfoldable pub date_of : ℕ → ℕ → ℕ → Option Date
unfolding is_date
date_of y m d = if is_date (ymd y m d) then some (ymd y m d) else none

abbrev and_then {ℓ κ} : {A : Type ℓ} {B : Type κ} → Option A → (A → Option B) → Option B
and_then none f = none
and_then (some a) f = f a

unfoldable pub last_day_of_month : Date → Option Date
unfolding date_of
last_day_of_month value =
    if value.month == 12
    then date_of value.year 12 31
    else and_then (date_of value.year (value.month + 1) 1) (minus_days 1)

unfoldable pub last_day_of_quarter : Date → ℕ → Option Date
unfolding date_of
last_day_of_quarter value quarter_start_month =
    if quarter_start_month == 10
    then date_of value.year 12 31
    else and_then (date_of value.year (quarter_start_month + 3) 1) (minus_days 1)

pub record CalendarDate : Type 0 where
  pub date : Date
  pub date_key : ℕ
  pub year : ℕ
  pub quarter : ℕ
  pub month : ℕ
  pub month_name : Text
  pub month_abbreviation : Text
  pub day_of_month : ℕ
  pub day_of_year : ℕ
  pub iso_year : ℕ
  pub iso_week : ℕ
  pub iso_weekday : ℕ
  pub weekday_name : Text
  pub is_weekend : Bool
  pub week_start : Date
  pub week_end : Date
  pub month_start : Date
  pub month_end : Date
  pub quarter_start : Date
  pub quarter_end : Date
  pub year_start : Date
  pub year_end : Date
  pub year_month_key : ℕ
  pub year_month_label : Text
  pub year_quarter_label : Text

abbrev pub quarter_of : Date → ℕ
quarter_of value = (value.month - 1) / 3 + 1

abbrev pub quarter_start_month_of : Date → ℕ
quarter_start_month_of value = (quarter_of value - 1) * 3 + 1

-- The dictionary, out of the dates that date arithmetic gives.
unfoldable pub calendar_values :
    Date → Date → Date → Date → Date → Date → Date → Date → Date → CalendarDate
calendar_values value week_start week_end month_start month_end quarter_start quarter_end year_start
      year_end =
    let iso = isocalendar value in
    let quarter = quarter_of value in
    record {
      date = value;
      date_key = value.year * 10_000 + value.month * 100 + value.day;
      year = value.year;
      quarter = quarter;
      month = value.month;
      month_name = entry value.month month_names;
      month_abbreviation = entry value.month month_abbreviations;
      day_of_month = value.day;
      day_of_year = day_of_year value;
      iso_year = iso.iso_year;
      iso_week = iso.iso_week;
      iso_weekday = iso.iso_weekday;
      weekday_name = entry iso.iso_weekday weekday_names;
      is_weekend = leb 6 iso.iso_weekday;
      week_start = week_start;
      week_end = week_end;
      month_start = month_start;
      month_end = month_end;
      quarter_start = quarter_start;
      quarter_end = quarter_end;
      year_start = year_start;
      year_end = year_end;
      year_month_key = value.year * 100 + value.month;
      year_month_label =
          entry value.month month_abbreviations ++ codes " " ++ four_digits value.year;
      year_quarter_label = four_digits value.year ++ codes " Q" ++ (48 + quarter) ∷ [];
    }

-- `none` is the `OverflowError` of a week that leaves the range of dates, or a `ValueError`.
unfoldable pub build_calendar_date : Date → Option CalendarDate
unfolding last_day_of_month last_day_of_quarter calendar_values date_of
build_calendar_date value =
    and_then (minus_days (IsoDate.iso_weekday (isocalendar value) - 1) value) (λ week_start.
      and_then (plus_days 6 week_start) (λ week_end.
        and_then (date_of value.year value.month 1) (λ month_start.
          and_then (last_day_of_month value) (λ month_end.
            and_then (date_of value.year (quarter_start_month_of value) 1) (λ quarter_start.
              and_then (last_day_of_quarter value (quarter_start_month_of value)) (λ quarter_end.
                and_then (date_of value.year 1 1) (λ year_start.
                  and_then (date_of value.year 12 31) (λ year_end. some (
                    calendar_values value week_start week_end month_start month_end quarter_start
                      quarter_end year_start year_end)))))))))
