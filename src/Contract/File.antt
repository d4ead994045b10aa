-- ===== src/Contract/File.antt =====
-- `iter_sales_rows_v1_csv` of sales_imports/contracts.py. The CSV reader is the list of what it
-- gives: rows with its `line_num` after each, or the error that ends it. The limit on rows is a
-- natural number, and the results are those that the generator yields before it ends or raises.
pub mod Laws
pub mod Rows
pub mod Results
use pharma_intel.Base.{
  ℕ, suc, ◌==◌, Bool, true, false, not, ◌&&◌, ◌||◌, Option, none, some, List, [], ◌∷◌, all, leb,
  ltb, length, if◌then◌else◌, Result, ok, err,
}
use pharma_intel.Base.Text.{Text, codes, is_empty, strip}
use pharma_intel.Contract.Headers.{
  FileError, csv_malformed, file_no_data_rows, max_rows_not_positive, validate_sales_headers,
}
use pharma_intel.Contract.Fields.{Platform, IssueCode, issue}
use pharma_intel.Contract.Cells.{zip_cells}
use pharma_intel.Contract.Row.{RowResult, Validator, note_row, validate}

pub data Read : Type 0 where
  line : List Text → ℕ → Read
  malformed : Read

-- `not raw_row or all(not value.strip() for value in raw_row)`
unfoldable pub is_blank_row : List Text → Bool
is_blank_row cells = all (λ c. is_empty (strip c)) cells

-- What the body of the loop does with one row.
pub data Turn : Type 0 where
  skipped : Turn
  raised : FileError → Turn
  yielded : RowResult → Validator → Turn

abbrev pub mismatch : ℕ → RowResult
mismatch row = record {
  row_number = row;
  row = none;
  issues = issue row (codes "__row__") IssueCode.row_column_count_mismatch ∷ [];
}

-- A row whose number of cells is not that of the headers.
unfoldable pub mismatch_turn : ℕ → Validator → Turn
mismatch_turn row v = elim (note_row v) [ err e ↦ raised e | ok v' ↦ yielded (mismatch row) v' ]

unfoldable pub validate_turn : Platform → ℕ → List (Text × Text) → Validator → Turn
validate_turn p row values v = elim (validate p row values v) [
  | err e ↦ raised e
  | ok r ↦ yielded (r.0) (r.1)
]

unfoldable pub turn : Platform → List Text → ℕ → List Text → Validator → Turn
unfolding is_blank_row mismatch_turn validate_turn
turn p headers row cells v =
    if is_blank_row cells
    then skipped
    else if not (length cells == length headers)
    then mismatch_turn row v
    else validate_turn p row (zip_cells headers cells) v

-- The `while` loop, where the reader stands at the line `at`.
unfoldable pub rows_from :
    Platform → List Text → ℕ → List Read → Validator → List RowResult × Option FileError
unfolding turn
rows_from p headers at [] v = ([], if v.row_count == 0 then some file_no_data_rows else none)
rows_from p headers at (malformed ∷ reads) v = ([], some csv_malformed)
rows_from p headers at (line cells after ∷ reads) v = elim (turn p headers (suc at) cells v) [
  | skipped ↦ rows_from p headers after reads v
  | raised e ↦ ([], some e)
  | yielded r v' ↦ let rest = rows_from p headers after reads v' in (r ∷ rest.0, rest.1)
]

abbrev pub new_validator : ℕ → Validator
new_validator max_rows = record { max_rows = max_rows; row_count = 0; source_record_ids = [] }

unfoldable pub iter_sales_rows_v1_csv : Platform → ℕ → List Read → List RowResult × Option FileError
unfolding rows_from
iter_sales_rows_v1_csv p max_rows [] = ([], some file_no_data_rows)
iter_sales_rows_v1_csv p max_rows (malformed ∷ reads) = ([], some csv_malformed)
iter_sales_rows_v1_csv p max_rows (line cells after ∷ reads) = elim (validate_sales_headers cells) [
  | err e ↦ ([], some e)
  | ok headers ↦
      if ltb max_rows 1
      then ([], some max_rows_not_positive)
      else rows_from p headers after reads (new_validator max_rows)
]
