-- ===== src/Calendar/Laws.antt =====
-- What the stored values of a date are, against the calendar.
use pharma_intel.Base.{
  ℕ, ◌+◌, ◌-◌, ◌*◌, ◌/◌, ◌%◌, ◌≤◌, ◌≡◌, refl, true, ◌==◌, some, arith, Bool-cases, Option-cases,
  inl, inr, sym, ◌∙◌,
}
use mathlib.Core.Path.{subst}
use mathlib.Core.Option.{some-injective}
use pharma_intel.Base.Date.{
  Date, is_date, days_in_month, minus_days, plus_days, previous_day, isocalendar, IsoDate,
}
use pharma_intel.Calendar.{
  CalendarDate, build_calendar_date, calendar_values, last_day_of_month, last_day_of_quarter,
  quarter_start_month_of, date_of, ymd,
}

days_in_december : (y : ℕ) → days_in_month y 12 ≡ 31
unfolding days_in_month
days_in_december y = ground arith

-- The constructor takes every real date.
date_of-real : (y m d : ℕ) → is_date (ymd y m d) ≡ true → date_of y m d ≡ some (ymd y m d)
unfolding date_of
date_of-real y m d h = rw h refl

abbrev IsYear : ℕ → Type 0
IsYear y = (1 ≤ y) × (y ≤ 9999)

first_real : (y m : ℕ) → IsYear y → 1 ≤ m → m ≤ 12 → date_of y m 1 ≡ some (ymd y m 1)
unfolding is_date days_in_month
first_real y m (a, b) c d = date_of-real y m 1 (ground (arith, a, b, c, d))

last_real : (y : ℕ) → IsYear y → date_of y 12 31 ≡ some (ymd y 12 31)
unfolding is_date days_in_month
last_real y (a, b) = date_of-real y 12 31 (ground (arith, a, b))

-- The day before the first of a month.
before_first :
    (y m : ℕ) → 1 ≤ m → minus_days 1 (ymd y (m + 1) 1) ≡ some (ymd y m (days_in_month y m))
unfolding minus_days previous_day
before_first y m h = ground arith

last_day_of_month_lem :
    (v : Date)
    → IsYear v.year
    → 1 ≤ v.month
    → v.month ≤ 12
    → last_day_of_month v ≡ some (ymd v.year v.month (days_in_month v.year v.month))
unfolding last_day_of_month
last_day_of_month_lem v y h k = elim (Bool-cases (v.month == 12)) [
  | inl e ↦ ground (arith, e, days_in_december v.year, last_real v.year y)
  | inr e ↦
      let f = first_real v.year (v.month + 1) y (omega arith) (ground (arith, e, k)) in
      ground (arith, e, f, before_first v.year v.month h)
]

last_day_of_quarter_lem :
    (v : Date) (m : ℕ)
    → IsYear v.year
    → 1 ≤ m
    → m ≤ 10
    → last_day_of_quarter v m ≡ some (ymd v.year (m + 2) (days_in_month v.year (m + 2)))
unfolding last_day_of_quarter days_in_month
last_day_of_quarter_lem v m y h k = elim (Bool-cases (m == 10)) [
  | inl e ↦
      let t : m ≡ 10 = ground (arith, e) in
      let u : m + 2 ≡ 12 = omega (arith, t) in
      rw (e, u, days_in_december v.year) (last_real v.year y)
  | inr e ↦
      let n : m ≤ 9 = ground (arith, e, k) in
      let u : m + 3 ≡ m + 2 + 1 = omega arith in
      let f = first_real v.year (m + 2 + 1) y (omega arith) (omega (arith, n)) in
      rw (e, u, f) (before_first v.year (m + 2) (omega arith))
]

pub date_bounds :
    (v : Date) → is_date v ≡ true → (1 ≤ v.month) × (v.month ≤ 12) × (v.day ≤ 31) × IsYear v.year
unfolding is_date days_in_month
date_bounds v h = (
  ground (arith, h),
  ground (arith, h),
  ground (arith, h),
  (ground (arith, h), ground (arith, h)),
)

-- The values of a date with the periods that the calendar gives it.
abbrev pub values_of : Date → Date → Date → CalendarDate
unfolding calendar_values
values_of v week_start week_end =
    calendar_values v week_start week_end (ymd v.year v.month 1)
      (ymd v.year v.month (days_in_month v.year v.month)) (ymd v.year (quarter_start_month_of v) 1)
      (ymd v.year (quarter_start_month_of v + 2)
        (days_in_month v.year (quarter_start_month_of v + 2)))
      (ymd v.year 1 1) (ymd v.year 12 31)

-- No constructor raises, so that an entry is missing only where its week leaves the range.
pub build-weeks :
    (v week_start week_end : Date)
    → is_date v ≡ true
    → minus_days (IsoDate.iso_weekday (isocalendar v) - 1) v ≡ some week_start
    → plus_days 6 week_start ≡ some week_end
    → build_calendar_date v ≡ some (values_of v week_start week_end)
unfolding build_calendar_date
build-weeks v ws we d e f =
    let (a, b, _, y) = date_bounds v d in
    let q = quarter_start_month_of v in
    let one : 1 ≤ q = omega arith in
    let ten : q ≤ 10 = omega (arith, b) in
    rw
      (
        e,
        f,
        first_real v.year v.month y a b,
        last_day_of_month_lem v y a b,
        first_real v.year q y one (omega (arith, ten)),
        last_day_of_quarter_lem v q y one ten,
        first_real v.year 1 y (omega arith) (omega arith),
        last_real v.year y,
      )
      refl

-- What a built entry is made of.
build_parts :
    (v : Date) (c : CalendarDate)
    → is_date v ≡ true
    → build_calendar_date v ≡ some c
    → (week_start : Date) × (week_end : Date) × (values_of v week_start week_end ≡ c)
unfolding build_calendar_date
build_parts v c d h = elim (Option-cases (minus_days (IsoDate.iso_weekday (isocalendar v) - 1) v)) [
  | inl e ↦ absurd (ground (arith, e, h))
  | inr (ws, e) ↦ elim (Option-cases (plus_days 6 ws)) [
    | inl f ↦ absurd (ground (arith, e, f, h))
    | inr (we, f) ↦ (ws, we, some-injective _ _ (sym (build-weeks v ws we d e f) ∙ h))
  ]
]

month_in_quarter :
    (m : ℕ)
    → 1 ≤ m
    → m ≤ 12
    → (1 ≤ (m - 1) / 3 + 1)
      × ((m - 1) / 3 + 1 ≤ 4)
      × (((m - 1) / 3 + 1 - 1) * 3 + 1 ≤ m)
      × (m ≤ ((m - 1) / 3 + 1 - 1) * 3 + 1 + 2)
month_in_quarter m a b =
    (omega (arith, a, b), omega (arith, a, b), omega (arith, a, b), omega (arith, a, b))

date_key_parts :
    (y m d : ℕ)
    → m ≤ 12
    → d ≤ 31
    → ((y * 10_000 + m * 100 + d) / 10_000 ≡ y)
      × ((y * 10_000 + m * 100 + d) % 10_000 / 100 ≡ m)
      × ((y * 10_000 + m * 100 + d) % 100 ≡ d)
date_key_parts y m d a b = (omega (arith, a, b), omega (arith, a, b), omega (arith, a, b))

-- The key of a stored date gives back its year, month and day by division by 10000 and 100: two
-- dates never share a key.
pub date_key_decodes :
    (v : Date) (c : CalendarDate)
    → is_date v ≡ true
    → build_calendar_date v ≡ some c
    → (c.date_key / 10_000 ≡ v.year)
      × (c.date_key % 10_000 / 100 ≡ v.month)
      × (c.date_key % 100 ≡ v.day)
unfolding calendar_values
date_key_decodes v c d h =
    let (a, b, e, _) = date_bounds v d in
    let (ws, we, same) = build_parts v c d h in
    subst
      (λ (x : CalendarDate).
        (x.date_key / 10_000 ≡ v.year)
        × (x.date_key % 10_000 / 100 ≡ v.month)
        × (x.date_key % 100 ≡ v.day))
      same (date_key_parts v.year v.month v.day b e)

-- The periods of a stored date, for every real date: its month runs from day 1 to the month's last
-- day; its quarter q is one of four, runs from the first day of month 3 q - 2 of the year to the last
-- day of month 3 q, and has the date's month among its three.
pub periods_enclose :
    (v : Date) (c : CalendarDate)
    → is_date v ≡ true
    → build_calendar_date v ≡ some c
    → (c.month_start ≡ record v { day = 1 })
      × (c.month_end ≡ record v { day = days_in_month v.year v.month })
      × ((1 ≤ c.quarter) × (c.quarter ≤ 4))
      × ((c.quarter_start).month + 2 ≡ c.quarter * 3)
      × (c.quarter_end ≡ record {
        year = v.year;
        month = (c.quarter_start).month + 2;
        day = days_in_month v.year ((c.quarter_start).month + 2);
      })
      × (c.quarter_start ≡ record { year = v.year; month = (c.quarter_start).month; day = 1 })
      × (((c.quarter_start).month ≤ v.month) × (v.month ≤ (c.quarter_start).month + 2))
unfolding calendar_values
periods_enclose v c d h =
    let (a, b, _, _) = date_bounds v d in
    let (ws, we, same) = build_parts v c d h in
    let (p, q, r, s) = month_in_quarter v.month a b in
    subst
      (λ (x : CalendarDate).
        (x.month_start ≡ record v { day = 1 })
        × (x.month_end ≡ record v { day = days_in_month v.year v.month })
        × ((1 ≤ x.quarter) × (x.quarter ≤ 4))
        × ((x.quarter_start).month + 2 ≡ x.quarter * 3)
        × (x.quarter_end ≡ record {
          year = v.year;
          month = (x.quarter_start).month + 2;
          day = days_in_month v.year ((x.quarter_start).month + 2);
        })
        × (x.quarter_start ≡ record { year = v.year; month = (x.quarter_start).month; day = 1 })
        × (((x.quarter_start).month ≤ v.month) × (v.month ≤ (x.quarter_start).month + 2)))
      same (refl, refl, (p, q), omega arith, refl, refl, (r, s))
