-- ===== src/Contract/Staged.antt =====
-- What the database asks of a staged row, `SalesImportStagedRow` of sales_imports/models.py, of the
-- columns that come from the file: the CHECK constraints and the widths. `Upper` of PostgreSQL is a
-- parameter, with what is relied on of it and of the contract's own parameters.
use pharma_intel.Base.{
  ℕ, ◌+◌, ◌^◌, ◌≡◌, Bool, true, false, not, ◌&&◌, ◌||◌, Option, none, some, [], leb, ltb, length,
}
use pharma_intel.Base.Text.{Text, text_eq, is_empty}
use pharma_intel.Queue.Checks.{equals_trim}
use pharma_intel.Contract.Fields.{Decimal, Platform}
use pharma_intel.Contract.Row.{
  SalesRowV1, RowResult, is_currency, is_zero, is_positive, is_below_zero,
}

-- `sales_staged_measures_valid`, over the two measures.
unfoldable pub measures_valid : Decimal → Decimal → Bool
measures_valid quantity revenue =
    not (is_zero quantity)
    && ((is_positive quantity && not (is_below_zero revenue))
        || (is_below_zero quantity && not (is_positive revenue)))

-- Whether a number lies between `-10 ** digits` and `10 ** digits`: what a column of so many digits
-- before the point takes.
abbrev pub is_below : ℕ → Decimal → Bool
is_below digits d = ltb d.coefficient (10 ^ (digits + d.places))

-- One code of `sales_staged_required_codes_valid` or `sales_staged_optional_codes_valid`, and its
-- width.
unfoldable pub code_checked : (Text → Text) → Text → Bool
code_checked db_upper code =
    text_eq code (db_upper code) && equals_trim code && leb (length code) 64

-- A code that is not given is stored as the empty text.
abbrev pub optional_checked : (Text → Text) → Option Text → Bool
optional_checked db_upper none = code_checked db_upper []
optional_checked db_upper (some code) = code_checked db_upper code

unfoldable pub staged_row_checked : (Text → Text) → ℕ → SalesRowV1 → Bool
unfolding measures_valid code_checked
staged_row_checked db_upper row r =
    leb 2 row
    && equals_trim r.source_record_id
    && not (is_empty r.source_record_id)
    && leb (length r.source_record_id) 255
    && code_checked db_upper r.product_code
    && not (is_empty r.product_code)
    && code_checked db_upper r.territory_code
    && not (is_empty r.territory_code)
    && optional_checked db_upper r.hospital_code
    && optional_checked db_upper r.sales_representative_code
    && is_currency r.currency_code
    && measures_valid r.quantity r.revenue_amount
    && is_below 15 r.quantity
    && is_below 16 r.revenue_amount

-- The same for what is yielded, where it has a row.
unfoldable pub result_checked : (Text → Text) → RowResult → Bool
unfolding staged_row_checked
result_checked db_upper r = elim (RowResult.row r) [
  | none ↦ true
  | some x ↦ staged_row_checked db_upper r.row_number x
]

-- What is relied on: upper case leaves no text empty and adds no blank at an end, PostgreSQL finds
-- nothing to change in a text that Python has put into upper case, and the validators of decimals
-- keep to their numbers of digits.
pub record Agrees (p : Platform) (db_upper : Text → Text) : Type 0 where
  pub upper_full : (s : Text) → is_empty s ≡ false → is_empty (p.upper s) ≡ false
  pub upper_trimmed : (s : Text) → equals_trim s ≡ true → equals_trim (p.upper s) ≡ true
  pub upper_same : (s : Text) → text_eq (p.upper s) (db_upper (p.upper s)) ≡ true
  pub empty_same : text_eq [] (db_upper []) ≡ true
  pub quantity_below : (d : Decimal) → p.decimal_fits 18 3 d ≡ true → is_below 15 d ≡ true
  pub revenue_below : (d : Decimal) → p.decimal_fits 20 4 d ≡ true → is_below 16 d ≡ true
