-- ===== src/Processing/Stage/Loop.antt =====
-- The loop of `_stage_csv` over the results of a file, and what follows it. A file that is not
-- UTF-8 throughout raises when the reader comes to the end of what could be decoded.
use pharma_intel.Base.{
  ℕ, suc, ◌%◌, Bool, true, false, ◌||◌, Option, none, some, List, [], ◌∷◌, ◌==◌, ltb, Result, ok,
  err, ◌>>=◌,
}
use pharma_intel.Base.Text.{Text, codes}
use pharma_intel.Contract.Headers.{FileError, file_no_data_rows}
use pharma_intel.Contract.Fields.{Platform}
use pharma_intel.Contract.Row.{RowResult}
use pharma_intel.Contract.File.{Read, iter_sales_rows_v1_csv}
use pharma_intel.Queue.Rows.{Db, QueueError, contract}
use pharma_intel.Queue.Claim.{SalesImportClaim}
use pharma_intel.Processing.Issues.{IssueCollector, Report, new_collector, add, drained, persisted}
use pharma_intel.Processing.Stage.{
  Settings, Progress, StageError, queue_error, uncaught, Tables, record_parse_batch,
  file_error_code, Staging, note_result,
}

-- The other transactions, and the clock.
pub record Surroundings : Type 0 where
  pub meanwhile : ℕ → Db → Db
  pub clock : ℕ → ℕ

abbrev pub seen_by : Surroundings → ℕ → Tables → Tables
seen_by around n t = record t { queue = around.meanwhile n t.queue }

-- How the iteration ends, where `decodable` tells whether all of the file is UTF-8.
pub data Ending : Type 0 where
  finished not_utf8 : Ending
  file_error : FileError → Ending

abbrev pub ending_of : Bool → Option FileError → Ending
ending_of true none = finished
ending_of true (some e) = file_error e
ending_of false none = not_utf8
ending_of false (some file_no_data_rows) = not_utf8
ending_of false (some e) = file_error e

abbrev file_report : Text → Text → Report
file_report code message = record {
  row_number = none;
  column = codes "__file__";
  code = code;
  message = message;
  phase = contract;
}

abbrev pub of_queue {ℓ} : {A : Type ℓ} → Result QueueError A → Result StageError A
of_queue (ok a) = ok a
of_queue (err e) = err (queue_error e)

module _ (settings : Settings) (claim : SalesImportClaim) (around : Surroundings) where
  -- The loop from the batch `n` on.
  unfoldable pub stage_results :
      ℕ → List RowResult → Staging → Tables → Result QueueError (ℕ × Staging × Tables)
  unfolding note_result record_parse_batch
  stage_results n [] s t = ok (n, s, t)
  stage_results n (r ∷ rs) s t =
      let s' = note_result settings r s in
      elim ((Staging.progress s').total_rows % settings.db_batch_size == 0) [
        | false ↦ stage_results n rs s' t
        | true ↦
            record_parse_batch settings claim s'.pending_rows (Staging.collector s').issues
              s'.progress (around.clock n) (seen_by around n t)
            >>= λ t'.
                stage_results (suc n) rs
                  (record s' { collector = drained s'.collector; pending_rows = [] }) t'
      ]

  -- The `except` clauses: the collector, and whether the file is rejected.
  unfoldable pub close_file : Ending → IssueCollector → Result StageError (IssueCollector × Bool)
  close_file finished c = ok (c, false)
  close_file not_utf8 c = ok (
    add
        (file_report (codes "FILE_ENCODING_INVALID")
          (codes "The CSV must contain valid UTF-8 text."))
        c,
    true,
  )
  close_file (file_error e) c = elim (file_error_code e) [
    | none ↦ err (uncaught e)
    | some code ↦ ok (add (file_report code (settings.error_message e)) c, true)
  ]

  abbrev pub start : Staging
  start = record {
    progress = record { total_rows = 0; valid_rows = 0; invalid_rows = 0; issue_count = 0 };
    collector = new_collector claim.attempt_id settings.max_issues;
    pending_rows = [];
  }

  -- What follows the iteration.
  unfoldable pub close_stage :
      Bool → Option FileError → ℕ × Staging × Tables → Result StageError (Progress × Bool × Tables)
  unfolding close_file record_parse_batch persisted
  close_stage decodable error (n, s, t) = do
    closed ← close_file (ending_of decodable error) s.collector
    let progress = record (s.progress) { issue_count = IssueCollector.total (closed.0) }
    t' ← of_queue (
        record_parse_batch settings claim s.pending_rows ((persisted closed.0).0) progress
          (around.clock n) (seen_by around n t))
    ok (progress, closed.1 || ltb 0 progress.invalid_rows, t')

  unfoldable pub stage_csv :
      Platform → List Read → Bool → Tables → Result StageError (Progress × Bool × Tables)
  unfolding stage_results close_stage
  stage_csv p reads decodable t = do
    let read = iter_sales_rows_v1_csv p settings.max_rows reads
    reached ← of_queue (stage_results 0 (read.0) start t)
    close_stage decodable (read.1) reached
