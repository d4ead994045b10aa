-- ===== src/Calendar/Total.antt =====
-- The calendar has an entry for every date away from the ends of the range.
use pharma_intel.Base.{
  ℕ, zero, suc, ◌+◌, ◌-◌, ◌≤◌, ◌<◌, ◌≡◌, refl, true, some, ltb, arith, Bool-cases, inl, inr,
}
use pharma_intel.Base.Date.{
  Date, is_date, days_in_month, minus_days, plus_days, previous_day, next_day, isocalendar,
}
use pharma_intel.Calendar.{CalendarDate, build_calendar_date}
use pharma_intel.Calendar.Laws.{values_of, build-weeks}

month_long : (y m : ℕ) → 28 ≤ days_in_month y m
unfolding days_in_month
month_long y m = ground arith

-- Within a month, days are counted down and up.
minus_small : (n : ℕ) (d : Date) → n < d.day → minus_days n d ≡ some (record d { day = d.day - n })
unfolding minus_days previous_day
minus_small zero d h = let e : d.day - 0 ≡ d.day = omega arith in rw e refl
minus_small (suc n) d h =
    let e : d.day - 1 - n ≡ d.day - suc n = omega arith in
    let r = minus_small n (record d { day = d.day - 1 }) (omega (arith, h)) in
    ground (arith, h, r, e)

plus_small :
    (n : ℕ) (d : Date)
    → d.day + n ≤ days_in_month d.year d.month
    → plus_days n d ≡ some (record d { day = d.day + n })
unfolding plus_days next_day
plus_small zero d h = let e : d.day + 0 ≡ d.day = omega arith in rw e refl
plus_small (suc n) d h =
    let e : d.day + 1 + n ≡ d.day + suc n = omega arith in
    let r = plus_small n (record d { day = d.day + 1 }) (omega (arith, h)) in
    ground (arith, h, r, e)

-- Fewer than 28 days back from a date past the first year, and on from one before the last.
minus_some :
    (n : ℕ) (d : Date)
    → n < 28
    → 2 ≤ d.year
    → (e : Date) × (minus_days n d ≡ some e) × (e.year ≤ d.year)
unfolding minus_days previous_day
minus_some zero d h y = (d, refl, omega arith)
minus_some (suc n) d h y = elim (Bool-cases (ltb 1 d.day)) [
  | inl a ↦
      let (e, r, z) = minus_some n (record d { day = d.day - 1 }) (omega (arith, h)) y in
      (e, ground (arith, a, r), z)
  | inr a ↦ elim (Bool-cases (ltb 1 d.month)) [
    | inl b ↦
        let f : Date = record {
          year = d.year;
          month = d.month - 1;
          day = days_in_month d.year (d.month - 1);
        } in
        let r : minus_days n f ≡ some (record f { day = f.day - n }) =
          minus_small n f (omega (arith, h, month_long d.year (d.month - 1))) in
        (record f { day = f.day - n }, ground (arith, a, b, r), omega arith)
    | inr b ↦
        let f : Date = record { year = d.year - 1; month = 12; day = 31 } in
        let r : minus_days n f ≡ some (record f { day = f.day - n }) =
          minus_small n f (omega (arith, h)) in
        (record f { day = f.day - n }, ground (arith, a, b, r, y), omega arith)
  ]
]

plus_some : (n : ℕ) (d : Date) → n < 28 → d.year ≤ 9998 → (e : Date) × (plus_days n d ≡ some e)
unfolding plus_days next_day
plus_some zero d h y = (d, refl)
plus_some (suc n) d h y = elim (Bool-cases (ltb d.day (days_in_month d.year d.month))) [
  | inl a ↦
      let (e, r) = plus_some n (record d { day = d.day + 1 }) (omega (arith, h)) y in
      (e, ground (arith, a, r))
  | inr a ↦ elim (Bool-cases (ltb d.month 12)) [
    | inl b ↦
        let f : Date = record { year = d.year; month = d.month + 1; day = 1 } in
        let r : plus_days n f ≡ some (record f { day = f.day + n }) =
          plus_small n f (omega (arith, h, month_long d.year (d.month + 1))) in
        (record f { day = f.day + n }, ground (arith, a, b, r))
    | inr b ↦
        let f : Date = record { year = d.year + 1; month = 1; day = 1 } in
        let r : plus_days n f ≡ some (record f { day = f.day + n }) =
          plus_small n f (omega (arith, h, month_long (d.year + 1) 1)) in
        (record f { day = f.day + n }, ground (arith, a, b, r, y))
  ]
]

weekday_small : (v : Date) → (isocalendar v).iso_weekday - 1 < 28
unfolding isocalendar
weekday_small v = ground arith

-- Every real date of the years 2 to 9998 has an entry: no arithmetic on it leaves the range, and
-- no date is made that does not exist.
pub build_calendar_date-some :
    (v : Date)
    → is_date v ≡ true
    → 2 ≤ v.year
    → v.year ≤ 9998
    → (c : CalendarDate) × (build_calendar_date v ≡ some c)
build_calendar_date-some v d y z =
    let (ws, e, l) = minus_some ((isocalendar v).iso_weekday - 1) v (weekday_small v) y in
    let (we, f) = plus_some 6 ws (omega arith) (omega (arith, l, z)) in
    (values_of v ws we, build-weeks v ws we d e f)
