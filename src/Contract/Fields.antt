-- ===== src/Contract/Fields.antt =====
-- The cells of a sales row: `_text`, `_date` and `_decimal` of sales_imports/contracts.py. Of an
-- issue the column, the code and the row are kept; its message, a fixed sentence for each place
-- that makes one, is not.
pub mod Laws
pub mod Dates
use pharma_intel.Base.{
  ℕ, ◌+◌, ◌*◌, ◌-◌, ◌==◌, Bool, true, false, not, ◌&&◌, ◌||◌, Option, none, some, List, [], ◌∷◌,
  ◌++◌, any, all, leb, ltb, length, if◌then◌else◌,
}
use pharma_intel.Base.Text.{Text, codes, is_empty, strip}
use pharma_intel.Base.Date.{Date, is_date}

-- `Decimal`: the number `coefficient * 10 ** -places`, with a sign that zero has as well.
pub record Decimal : Type 0 where
  pub minus : Bool
  pub coefficient : ℕ
  pub places : ℕ

-- What the contract takes from outside: `str.upper`, whether `unicodedata.category` of a character
-- begins with "C", and Django's `DecimalValidator(max_digits, decimal_places)` as a test.
pub record Platform : Type 0 where
  pub upper : Text → Text
  pub is_control : ℕ → Bool
  pub decimal_fits : ℕ → ℕ → Decimal → Bool

-- The codes of `SalesContractIssueCode` that a row can have.
pub data IssueCode : Type 0 where
  row_column_count_mismatch required_value_missing value_too_long : IssueCode
  invalid_control_character date_invalid_format decimal_invalid_format : IssueCode
  decimal_precision_exceeded quantity_zero measure_sign_mismatch : IssueCode
  currency_code_invalid duplicate_source_record_id : IssueCode

pub record SalesRowIssue : Type 0 where
  pub row_number : Option ℕ
  pub column : Text
  pub code : IssueCode

-- `_issue`
abbrev pub issue : ℕ → Text → IssueCode → SalesRowIssue
issue row column code = record { row_number = some row; column = column; code = code }

abbrev pub issue_if : Bool → SalesRowIssue → List SalesRowIssue
issue_if true i = i ∷ []
issue_if false i = []

unfoldable pub contains_control_character : Platform → Text → Bool
contains_control_character p value = any p.is_control value

-- `value.upper()` if `uppercase` is set.
abbrev pub cased : Platform → Bool → Text → Text
cased p true value = p.upper value
cased p false value = value

unfoldable pub text_field :
    Platform → ℕ → Text → Bool → ℕ → Bool → Text → Option Text × List SalesRowIssue
unfolding contains_control_character
text_field p row column required max_length uppercase raw =
    if is_empty (strip raw)
    then (none, issue_if required (issue row column IssueCode.required_value_missing))
    else let value = cased p uppercase (strip raw) in
      (
        some value,
        issue_if (ltb max_length (length value)) (issue row column IssueCode.value_too_long)
            ++ issue_if (contains_control_character p value)
                (issue row column IssueCode.invalid_control_character),
      )

-- `[0-9]`
abbrev pub is_digit : ℕ → Bool
is_digit c = leb 48 c && leb c 57

-- The number that a row of digits reads as, after those that read as `n`.
unfoldable pub digits_value : ℕ → Text → ℕ
digits_value n [] = n
digits_value n (c ∷ s) = digits_value (n * 10 + (c - 48)) s

abbrev dash : ℕ
dash = 45

-- `_DATE_PATTERN.fullmatch`, and the numbers that `date.fromisoformat` reads there.
unfoldable pub date_parts : Text → Option Date
unfolding digits_value
date_parts (a ∷ b ∷ c ∷ d ∷ h ∷ e ∷ f ∷ k ∷ g ∷ i ∷ []) =
    if all is_digit (a ∷ b ∷ c ∷ d ∷ e ∷ f ∷ g ∷ i ∷ []) && (h == dash) && (k == dash)
    then some record {
      year = digits_value 0 (a ∷ b ∷ c ∷ d ∷ []);
      month = digits_value 0 (e ∷ f ∷ []);
      day = digits_value 0 (g ∷ i ∷ []);
    }
    else none
date_parts _ = none

abbrev pub transaction_date_column : Text
transaction_date_column = codes "transaction_date"

unfoldable pub date_field : ℕ → Text → Option Date × List SalesRowIssue
unfolding date_parts
date_field row raw =
    if is_empty (strip raw)
    then (none, issue row transaction_date_column IssueCode.required_value_missing ∷ [])
    else elim (date_parts (strip raw)) [
      | none ↦ (none, issue row transaction_date_column IssueCode.date_invalid_format ∷ [])
      | some d ↦
          if is_date d && leb d.year 9998
          then (some d, [])
          else (none, issue row transaction_date_column IssueCode.date_invalid_format ∷ [])
    ]

-- The digits at the front of a text, and what follows them.
unfoldable pub split_digits : Text → Text × Text
split_digits [] = ([], [])
split_digits (c ∷ s) =
    let rest = split_digits s in if is_digit c then (c ∷ rest.0, rest.1) else ([], c ∷ s)

abbrev point : ℕ
point = 46

-- What may follow the digits of the whole part: nothing, or a point and more digits.
abbrev pub fraction_of : Text → Option Text
fraction_of [] = some []
fraction_of (c ∷ s) = if (c == point) && not (is_empty s) && all is_digit s then some s else none

unfoldable pub unsigned_decimal : Bool → Text → Option Decimal
unfolding split_digits digits_value
unsigned_decimal minus s =
    let parts = split_digits s in
    if is_empty (parts.0) then none else elim (fraction_of (parts.1)) [
      | none ↦ none
      | some f ↦
          some
            record { minus = minus; coefficient = digits_value 0 (parts.0 ++ f); places = length f }
    ]

-- `_DECIMAL_PATTERN.fullmatch`, and the number that `Decimal` reads there. It reads every text of
-- that pattern, so that `InvalidOperation` is not raised.
unfoldable pub read_decimal : Text → Option Decimal
unfolding unsigned_decimal
read_decimal [] = none
read_decimal (c ∷ s) = if c == dash then unsigned_decimal true s else unsigned_decimal false (c ∷ s)

-- The digits and decimal places of `_QUANTITY_VALIDATOR` and `_REVENUE_VALIDATOR`.
pub record DecimalLimits : Type 0 where
  pub max_digits : ℕ
  pub decimal_places : ℕ

abbrev pub quantity_limits : DecimalLimits
quantity_limits = record { max_digits = 18; decimal_places = 3 }

abbrev pub revenue_limits : DecimalLimits
revenue_limits = record { max_digits = 20; decimal_places = 4 }

unfoldable pub decimal_field :
    Platform → ℕ → Text → DecimalLimits → Text → Option Decimal × List SalesRowIssue
unfolding read_decimal
decimal_field p row column limits raw =
    if is_empty (strip raw)
    then (none, issue row column IssueCode.required_value_missing ∷ [])
    else if ltb 64 (length (strip raw))
    then (none, issue row column IssueCode.decimal_precision_exceeded ∷ [])
    else elim (read_decimal (strip raw)) [
      | none ↦ (none, issue row column IssueCode.decimal_invalid_format ∷ [])
      | some d ↦
          if p.decimal_fits limits.max_digits limits.decimal_places d
          then (some d, [])
          else (none, issue row column IssueCode.decimal_precision_exceeded ∷ [])
    ]
