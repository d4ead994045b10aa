-- ===== src/Contract/Fields/Dates.antt =====
-- Dates in the form YYYY-MM-DD, written and read back.
use pharma_intel.Base.{
  ℕ, ◌+◌, ◌*◌, ◌/◌, ◌%◌, ◌≤◌, ◌<◌, ◌≡◌, refl, true, false, some, [], ◌∷◌, leb, arith,
}
use pharma_intel.Base.Text.{Text, strip, lstrip, is_space, is_empty}
use pharma_intel.Base.Date.{Date, is_date, days_in_month}
use pharma_intel.Contract.Fields.{date_field, date_parts, digits_value, is_digit}

-- The digit of a number below ten.
abbrev pub digit : ℕ → ℕ
digit n = 48 + n % 10

-- `date.isoformat()`
unfoldable pub isoformat : Date → Text
isoformat d =
    digit (d.year / 1000)
    ∷ digit (d.year / 100)
    ∷ digit (d.year / 10)
    ∷ digit d.year
    ∷ 45
    ∷ digit (d.month / 10)
    ∷ digit d.month
    ∷ 45
    ∷ digit (d.day / 10)
    ∷ digit d.day
    ∷ []

digit_plain : (n : ℕ) → (is_space (digit n) ≡ false) × (is_digit (digit n) ≡ true)
digit_plain n = let h : n % 10 < 10 = omega arith in (ground (arith, h), ground (arith, h))

lstrip_plain : (c : ℕ) (s : Text) → is_space c ≡ false → lstrip (c ∷ s) ≡ c ∷ s
unfolding lstrip
lstrip_plain c s h = rw h refl

strip-isoformat : (d : Date) → strip (isoformat d) ≡ isoformat d
unfolding strip isoformat
strip-isoformat d =
    rw
      (
        lstrip_plain (digit (d.year / 1000)) _ (digit_plain (d.year / 1000)).0,
        lstrip_plain (digit d.day) _ (digit_plain d.day).0,
      )
      refl

year_digits :
    (y : ℕ) → y ≤ 9998 → ((y / 1000 % 10 * 10 + y / 100 % 10) * 10 + y / 10 % 10) * 10 + y % 10 ≡ y
year_digits y h = omega (arith, h)

two_digits : (n : ℕ) → n ≤ 99 → n / 10 % 10 * 10 + n % 10 ≡ n
two_digits n h = omega (arith, h)

date_parts-isoformat :
    (d : Date) → d.year ≤ 9998 → d.month ≤ 99 → d.day ≤ 99 → date_parts (isoformat d) ≡ some d
unfolding date_parts isoformat digits_value
date_parts-isoformat d a b c = ground (
  arith,
  (digit_plain (d.year / 1000)).1,
  (digit_plain (d.year / 100)).1,
  (digit_plain (d.year / 10)).1,
  (digit_plain d.year).1,
  (digit_plain (d.month / 10)).1,
  (digit_plain d.month).1,
  (digit_plain (d.day / 10)).1,
  (digit_plain d.day).1,
  year_digits d.year a,
  two_digits d.month b,
  two_digits d.day c,
)

isoformat_full : (d : Date) → is_empty (isoformat d) ≡ false
unfolding isoformat
isoformat_full d = refl

leb_of : (a b : ℕ) → a ≤ b → leb a b ≡ true
leb_of a b h = ground (arith, h)

small_parts : (d : Date) → is_date d ≡ true → (d.month ≤ 99) × (d.day ≤ 99)
unfolding is_date days_in_month
small_parts d r = (ground (arith, r), ground (arith, r))

-- Every real date up to the year 9998, written as YYYY-MM-DD, is read back as itself without an
-- issue.
pub date_field-isoformat :
    (row : ℕ) (d : Date)
    → is_date d ≡ true
    → d.year ≤ 9998
    → date_field row (isoformat d) ≡ (some d, [])
unfolding date_field
date_field-isoformat row d r y =
    let (m, n) = small_parts d r in
    let p = date_parts-isoformat d y m n in
    let z = leb_of d.year 9998 y in rw (strip-isoformat d, isoformat_full d, p, r, z) refl
