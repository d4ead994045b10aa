-- ===== src/Contract/Row.antt =====
-- `SalesRowsV1Validator` of sales_imports/contracts.py.
pub mod Laws
use pharma_intel.Base.{
  ℕ, suc, ◌==◌, Bool, true, false, not, ◌&&◌, ◌||◌, Option, none, some, List, [], ◌∷◌, ◌++◌, all,
  leb, ltb, length, if◌then◌else◌, Result, ok, err, ◌>>=◌, ◌>>◌, raise_if, or_raise,
}
use pharma_intel.Base.Text.{Text, codes, text_eq, strip}
use pharma_intel.Base.Date.{Date}
use pharma_intel.Contract.Headers.{FileError, key_error, file_row_limit_exceeded, is_member}
use pharma_intel.Contract.Cells.{Cells, cells_of}
use pharma_intel.Contract.Fields.{
  Decimal, Platform, IssueCode, SalesRowIssue, issue, issue_if, text_field, date_field,
  decimal_field, quantity_limits, revenue_limits,
}

pub record SalesRowV1 : Type 0 where
  pub source_record_id : Text
  pub transaction_date : Date
  pub product_code : Text
  pub territory_code : Text
  pub hospital_code : Option Text
  pub sales_representative_code : Option Text
  pub quantity : Decimal
  pub revenue_amount : Decimal
  pub currency_code : Text

-- `SalesRowValidationResult`
pub record RowResult : Type 0 where
  pub row_number : ℕ
  pub row : Option SalesRowV1
  pub issues : List SalesRowIssue

abbrev no_issues : List SalesRowIssue → Bool
no_issues [] = true
no_issues (i ∷ is) = false

abbrev has_row : Option SalesRowV1 → Bool
has_row none = false
has_row (some r) = true

unfoldable pub is_valid : RowResult → Bool
is_valid r = has_row r.row && no_issues r.issues

-- The state of a validator, with the set of the identifiers as a list.
pub record Validator : Type 0 where
  pub max_rows : ℕ
  pub row_count : ℕ
  pub source_record_ids : List Text

-- `note_row`; the validator is not used again once this has raised.
unfoldable pub note_row : Validator → Result FileError Validator
note_row v = do
  let counted = suc v.row_count
  raise_if (ltb v.max_rows counted) file_row_limit_exceeded
  ok (record v { row_count = counted })

-- `str.isascii`
abbrev pub is_ascii : Text → Bool
is_ascii s = all (λ c. ltb c 128) s

-- `[A-Z]`, and `_CURRENCY_PATTERN.fullmatch`.
abbrev pub is_capital : ℕ → Bool
is_capital c = leb 65 c && leb c 90

unfoldable pub is_currency : Text → Bool
is_currency s = (length s == 3) && all is_capital s

unfoldable pub currency_issues : ℕ → Text → Option Text → List SalesRowIssue
unfolding is_currency
currency_issues row raw none = []
currency_issues row raw (some code) =
    issue_if (not (is_ascii raw) || not (is_currency code))
      (issue row (codes "currency_code") IssueCode.currency_code_invalid)

-- `d == 0`, `d > 0` and `d < 0`
abbrev pub is_zero : Decimal → Bool
is_zero d = d.coefficient == 0

abbrev pub is_positive : Decimal → Bool
is_positive d = not d.minus && ltb 0 d.coefficient

abbrev pub is_below_zero : Decimal → Bool
is_below_zero d = d.minus && ltb 0 d.coefficient

unfoldable pub zero_issues : ℕ → Option Decimal → List SalesRowIssue
zero_issues row none = []
zero_issues row (some q) =
    issue_if (is_zero q) (issue row (codes "quantity") IssueCode.quantity_zero)

-- Whether quantity and revenue have opposite signs.
unfoldable pub signs_differ : Decimal → Decimal → Bool
signs_differ q r = (is_positive q && is_below_zero r) || (is_below_zero q && is_positive r)

unfoldable pub sign_issues : ℕ → Option Decimal → Option Decimal → List SalesRowIssue
unfolding signs_differ
sign_issues row (some q) (some r) =
    issue_if (signs_differ q r) (issue row (codes "revenue_amount") IssueCode.measure_sign_mismatch)
sign_issues row _ _ = []

-- The issue of an identifier that was there before, and the identifiers from then on.
unfoldable pub note_id : ℕ → Option Text → List Text → List SalesRowIssue × List Text
note_id row none ids = ([], ids)
note_id row (some id) ids =
    if is_member id ids
    then (issue row (codes "source_record_id") IssueCode.duplicate_source_record_id ∷ [], ids)
    else ([], id ∷ ids)

-- What the nine cells are read as, each with the issues of its own.
pub record Parsed : Type 0 where
  pub source_record_id : Option Text × List SalesRowIssue
  pub transaction_date : Option Date × List SalesRowIssue
  pub product_code : Option Text × List SalesRowIssue
  pub territory_code : Option Text × List SalesRowIssue
  pub hospital_code : Option Text × List SalesRowIssue
  pub representative_code : Option Text × List SalesRowIssue
  pub quantity : Option Decimal × List SalesRowIssue
  pub revenue_amount : Option Decimal × List SalesRowIssue
  pub currency_code : Option Text × List SalesRowIssue

unfoldable pub parse_cells : Platform → ℕ → Cells → Parsed
parse_cells p row cells = record {
  source_record_id =
      text_field p row (codes "source_record_id") true 255 false cells.source_record_id;
  transaction_date = date_field row cells.transaction_date;
  product_code = text_field p row (codes "product_code") true 64 true cells.product_code;
  territory_code = text_field p row (codes "territory_code") true 64 true cells.territory_code;
  hospital_code = text_field p row (codes "hospital_code") false 64 true cells.hospital_code;
  representative_code =
      text_field p row (codes "sales_representative_code") false 64 true
        cells.sales_representative_code;
  quantity = decimal_field p row (codes "quantity") quantity_limits cells.quantity;
  revenue_amount = decimal_field p row (codes "revenue_amount") revenue_limits cells.revenue_amount;
  currency_code = text_field p row (codes "currency_code") true 3 true (strip cells.currency_code);
}

-- What is appended to `issues`, in the order of the code.
abbrev pub issue_parts : ℕ → Text → Parsed → List Text → List (List SalesRowIssue)
issue_parts row raw_currency f ids =
    f.source_record_id.1
    ∷ f.transaction_date.1
    ∷ f.product_code.1
    ∷ f.territory_code.1
    ∷ f.hospital_code.1
    ∷ f.representative_code.1
    ∷ f.quantity.1
    ∷ f.revenue_amount.1
    ∷ f.currency_code.1
    ∷ currency_issues row raw_currency (f.currency_code.0)
    ∷ zero_issues row (f.quantity.0)
    ∷ sign_issues row (f.quantity.0) (f.revenue_amount.0)
    ∷ (note_id row (f.source_record_id.0) ids).0
    ∷ []

unfoldable pub append_all : List (List SalesRowIssue) → List SalesRowIssue
append_all [] = []
append_all (is ∷ parts) = is ++ append_all parts

-- The row of the values, where every one that the contract requires is there.
unfoldable pub parsed_row :
    Option Text
    → Option Date
    → Option Text
    → Option Text
    → Option Text
    → Option Text
    → Option Decimal
    → Option Decimal
    → Option Text
    → Option SalesRowV1
parsed_row (some id) (some date) (some product) (some territory) hospital representative
      (some quantity) (some revenue) (some currency) =
    some record {
      source_record_id = id;
      transaction_date = date;
      product_code = product;
      territory_code = territory;
      hospital_code = hospital;
      sales_representative_code = representative;
      quantity = quantity;
      revenue_amount = revenue;
      currency_code = currency;
    }
parsed_row _ _ _ _ _ _ _ _ _ = none

unfoldable pub row_of : Parsed → Option SalesRowV1
unfolding parsed_row
row_of f =
    parsed_row (f.source_record_id.0) (f.transaction_date.0) (f.product_code.0) (f.territory_code.0)
      (f.hospital_code.0) (f.representative_code.0) (f.quantity.0) (f.revenue_amount.0)
      (f.currency_code.0)

abbrev pub row_unless : List SalesRowIssue → Option SalesRowV1 → Option SalesRowV1
row_unless [] r = r
row_unless (i ∷ is) r = none

unfoldable pub issues_of : Platform → ℕ → Cells → List Text → List SalesRowIssue
unfolding append_all parse_cells
issues_of p row cells ids =
    append_all (issue_parts row (strip cells.currency_code) (parse_cells p row cells) ids)

-- `validate` past the count of the row.
unfoldable pub validate_cells : Platform → ℕ → Cells → Validator → RowResult × Validator
unfolding issues_of row_of note_id
validate_cells p row cells v =
    let issues = issues_of p row cells v.source_record_ids in
    let f = parse_cells p row cells in
    (
      record { row_number = row; row = row_unless issues (row_of f); issues = issues },
      record v { source_record_ids = (note_id row (f.source_record_id.0) v.source_record_ids).1 },
    )

-- `validate`
unfoldable pub validate :
    Platform → ℕ → List (Text × Text) → Validator → Result FileError (RowResult × Validator)
unfolding note_row cells_of validate_cells
validate p row values v = do
  counted ← note_row v
  cells ← cells_of values
  ok (validate_cells p row cells counted)
