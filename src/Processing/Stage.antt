-- ===== src/Processing/Stage.antt =====
-- `_stage_csv` and `_record_parse_batch` of sales_imports/processing.py: the rows of a file are
-- staged in batches, each in a transaction of its own behind the lease fence. Between two batches
-- other transactions change the queue's tables: `meanwhile n` before the batch `n`, which runs at
-- the time `clock n`. The unique constraints on staged rows and issues are left out.
pub mod Loop
pub mod Turns
pub mod Laws
use pharma_intel.Base.{
  ℕ, suc, ◌+◌, ◌%◌, Bool, true, false, not, ◌&&◌, ◌||◌, Option, none, some, List, [], ◌∷◌, ◌++◌,
  ◌==◌, ltb, if◌then◌else◌, Result, ok, err, ◌>>=◌, ◌>>◌, raise_if,
}
use pharma_intel.Base.Int.{pos}
use pharma_intel.Base.Text.{Text, codes}
use pharma_intel.Contract.Headers.{
  FileError, csv_malformed, schema_missing_column, schema_duplicate_column, schema_unknown_column,
  file_no_data_rows, file_row_limit_exceeded, key_error, max_rows_not_positive,
}
use pharma_intel.Contract.Fields.{Platform, IssueCode, SalesRowIssue}
use pharma_intel.Contract.Row.{SalesRowV1, RowResult, is_valid}
use pharma_intel.Contract.File.{Read, iter_sales_rows_v1_csv}
use pharma_intel.Queue.Counts.{Counts}
use pharma_intel.Queue.Rows.{Job, Attempt, Phase, Issue, contract, Db, QueueError, claim_lost}
use pharma_intel.Queue.Claim.{SalesImportClaim}
use pharma_intel.Queue.Lease.{locked_live_claim, save_both}
use pharma_intel.Processing.Issues.{IssueCollector, Report, new_collector, add, drained, persisted}
use pharma_intel.Processing.Facts.{StagedRow, StagedOutcome}

-- The settings that are read, and the messages of sales_imports/contracts.py.
pub record Settings : Type 0 where
  pub db_batch_size : ℕ
  pub max_issues : ℕ
  pub max_rows : ℕ
  pub lease_duration : ℕ
  pub issue_message : SalesRowIssue → Text
  pub error_message : FileError → Text

-- `_Progress`
pub record Progress : Type 0 where
  pub total_rows : ℕ
  pub valid_rows : ℕ
  pub invalid_rows : ℕ
  pub issue_count : ℕ

-- `_Progress.counts`
abbrev pub counts_of : Progress → ℕ → ℕ → Counts
counts_of p inserted reused = record {
  total_rows = pos p.total_rows;
  valid_rows = pos p.valid_rows;
  invalid_rows = pos p.invalid_rows;
  issue_count = pos p.issue_count;
  inserted_rows = pos inserted;
  reused_rows = pos reused;
}

-- What the loop raises beyond what the queue raises: an error of the file that is no
-- `SalesFileContractError`.
pub data StageError : Type 0 where
  queue_error : QueueError → StageError
  uncaught : FileError → StageError

pub record Tables : Type 0 where
  pub queue : Db
  pub staged : List StagedRow

-- `_claim_matches`
abbrev pub claim_matches : Attempt → SalesImportClaim → Result QueueError (Unit {0})
claim_matches a claim = raise_if (not (a.id == claim.attempt_id)) claim_lost

-- The counters that `_record_parse_batch` writes; the others stay.
abbrev pub parse_counts : Progress → Counts → Counts
parse_counts p c = record c {
  total_rows = pos p.total_rows;
  valid_rows = pos p.valid_rows;
  invalid_rows = pos p.invalid_rows;
  issue_count = pos p.issue_count;
}

abbrev pub batch_job : ℕ → ℕ → Progress → Job → Job
batch_job now lease p j = record j {
  counts = parse_counts p j.counts;
  heartbeat_at = some now;
  lease_expires_at = some (now + lease);
}

abbrev pub batch_attempt : ℕ → Progress → Attempt → Attempt
batch_attempt now p a = record a {
  counts = parse_counts p a.counts;
  heartbeat_at = now;
  phase = Phase.parse;
}

unfoldable pub record_parse_batch :
    Settings
    → SalesImportClaim
    → List StagedRow
    → List Issue
    → Progress
    → ℕ
    → Tables
    → Result QueueError Tables
record_parse_batch settings claim staged_rows issues progress now tables = do
  found ← locked_live_claim claim.job_id (some claim.lease_token) now tables.queue
  claim_matches (found.1) claim
  let j = batch_job now settings.lease_duration progress (found.0)
  let db = record (tables.queue) { issues = (Tables.queue tables).issues ++ issues }
  ok record {
    queue = save_both j (batch_attempt now progress (found.1)) db;
    staged = tables.staged ++ staged_rows;
  }

-- `str(issue.code)`
abbrev pub issue_code : IssueCode → Text
issue_code IssueCode.row_column_count_mismatch = codes "ROW_COLUMN_COUNT_MISMATCH"
issue_code IssueCode.required_value_missing = codes "REQUIRED_VALUE_MISSING"
issue_code IssueCode.value_too_long = codes "VALUE_TOO_LONG"
issue_code IssueCode.invalid_control_character = codes "INVALID_CONTROL_CHARACTER"
issue_code IssueCode.date_invalid_format = codes "DATE_INVALID_FORMAT"
issue_code IssueCode.decimal_invalid_format = codes "DECIMAL_INVALID_FORMAT"
issue_code IssueCode.decimal_precision_exceeded = codes "DECIMAL_PRECISION_EXCEEDED"
issue_code IssueCode.quantity_zero = codes "QUANTITY_ZERO"
issue_code IssueCode.measure_sign_mismatch = codes "MEASURE_SIGN_MISMATCH"
issue_code IssueCode.currency_code_invalid = codes "CURRENCY_CODE_INVALID"
issue_code IssueCode.duplicate_source_record_id = codes "DUPLICATE_SOURCE_RECORD_ID"

-- `str(error.code)` of a `SalesFileContractError`.
abbrev pub file_error_code : FileError → Option Text
file_error_code csv_malformed = some (codes "CSV_MALFORMED")
file_error_code schema_missing_column = some (codes "SCHEMA_MISSING_COLUMN")
file_error_code schema_duplicate_column = some (codes "SCHEMA_DUPLICATE_COLUMN")
file_error_code schema_unknown_column = some (codes "SCHEMA_UNKNOWN_COLUMN")
file_error_code file_no_data_rows = some (codes "FILE_NO_DATA_ROWS")
file_error_code file_row_limit_exceeded = some (codes "FILE_ROW_LIMIT_EXCEEDED")
file_error_code key_error = none
file_error_code max_rows_not_positive = none

abbrev or_empty : Option Text → Text
or_empty none = []
or_empty (some t) = t

abbrev pub staged_row : ℕ → ℕ → SalesRowV1 → StagedRow
staged_row attempt number row = record {
  attempt = attempt;
  row_number = number;
  source_record_id = row.source_record_id;
  transaction_date = row.transaction_date;
  product_code = row.product_code;
  territory_code = row.territory_code;
  hospital_code = or_empty row.hospital_code;
  sales_representative_code = or_empty row.sales_representative_code;
  quantity = row.quantity;
  revenue_amount = row.revenue_amount;
  currency_code = row.currency_code;
  calendar_date = none;
  product = none;
  territory = none;
  hospital = none;
  sales_representative = none;
  outcome = StagedOutcome.staged;
  sales_transaction = none;
}

abbrev pub issue_report : Settings → SalesRowIssue → Report
issue_report settings i = record {
  row_number = i.row_number;
  column = i.column;
  code = issue_code i.code;
  message = settings.issue_message i;
  phase = contract;
}

unfoldable pub add_issues : Settings → List SalesRowIssue → IssueCollector → IssueCollector
add_issues settings [] c = c
add_issues settings (i ∷ is) c = add_issues settings is (add (issue_report settings i) c)

-- The row of a valid result, as `result.row` is read where `result.is_valid` holds.
unfoldable pub valid_row : RowResult → Option SalesRowV1
unfolding is_valid
valid_row r = if is_valid r then r.row else none

-- The variables of the loop.
pub record Staging : Type 0 where
  pub progress : Progress
  pub collector : IssueCollector
  pub pending_rows : List StagedRow

-- The body of the loop before a batch is recorded.
unfoldable pub note_result : Settings → RowResult → Staging → Staging
unfolding add_issues valid_row
note_result settings r s =
    let p = s.progress in
    let c = add_issues settings r.issues s.collector in
    elim (valid_row r) [
      | some row ↦ record s {
        progress = record p { total_rows = suc p.total_rows; valid_rows = suc p.valid_rows };
        pending_rows =
            s.pending_rows
            ++ staged_row (IssueCollector.attempt_id s.collector) r.row_number row ∷ [];
      }
      | none ↦ record s {
        progress = record p {
          total_rows = suc p.total_rows;
          invalid_rows = suc p.invalid_rows;
          issue_count = c.total;
        };
        collector = c;
      }
    ]
