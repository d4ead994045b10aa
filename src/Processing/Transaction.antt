-- ===== src/Processing/Transaction.antt =====
-- The publication transaction of sales_imports/processing.py: `_publish_once` with
-- `_finish_locked_job`, and its single repetition by `_publish_staged_rows`. The source lock,
-- which is taken before, is not part of it.
pub mod Once
pub mod Laws
use pharma_intel.Base.{
  ℕ, suc, Bool, true, false, ◌&&◌, ◌||◌, Option, none, some, List, [], ◌∷◌, ◌++◌, ◌==◌, leb, ltb,
  map, find, filter, length, if◌then◌else◌, Result, ok, err, ◌>>=◌, ◌>>◌, or_raise,
}
use pharma_intel.Base.Int.{ℤ, pos, sub_ℕ}
use pharma_intel.Base.Text.{Text, codes}
use pharma_intel.Base.Table.{get, put}
use pharma_intel.Intake.Row.{SalesImport, intake_key}
use pharma_intel.Queue.Counts.{Status, Counts}
use pharma_intel.Queue.Rows.{
  Job, Attempt, Phase, Outcome, Db, Issue, QueueError, does_not_exist, clear_job_lease,
}
use pharma_intel.Queue.Claim.{SalesImportClaim}
use pharma_intel.Queue.Lease.{locked_live_claim, save_both}
use pharma_intel.Queue.Finish.{checked_counts, phase_after}
use pharma_intel.Processing.Issues.{IssueCollector, new_collector, persisted}
use pharma_intel.Processing.Facts.{StagedRow, Fact}
use pharma_intel.Processing.Publish.{
  Store, PublishError, rejected, source_not_unique, Linked, batched, publish_rows,
}
use pharma_intel.Processing.Resolve.{Master}
use pharma_intel.Processing.Resolve.Whole.{Validation, validate_chunks}
use pharma_intel.Processing.Stage.{Settings, Tables, claim_matches}

-- The two statuses that `_finish_locked_job` is called with, and the outcomes of its dictionary.
pub data Verdict : Type 0 where
  as_published as_rejected : Verdict

abbrev pub status_of : Verdict → Status
status_of as_published = Status.published
status_of as_rejected = Status.rejected

abbrev pub outcome_of : Verdict → Outcome
outcome_of as_published = Outcome.published
outcome_of as_rejected = Outcome.rejected

abbrev pub ended_job : ℕ → Verdict → Counts → Text → Text → Job → Job
ended_job at verdict counts code message j = record (clear_job_lease j) {
  counts = counts;
  status = status_of verdict;
  finished_at = some at;
  last_error_code = code;
  last_error_message = message;
}

abbrev pub ended_attempt : ℕ → Verdict → Counts → Text → Text → Attempt → Attempt
ended_attempt at verdict counts code message a = record a {
  counts = counts;
  outcome = outcome_of verdict;
  finished_at = some at;
  error_code = code;
  error_message = message;
  phase = phase_after (status_of verdict) a.phase;
}

unfoldable pub finish_locked_job :
    Job → Attempt → Verdict → Counts → Text → Text → ℕ → Db → Result QueueError Db
finish_locked_job j a verdict counts code message at db = do
  checked_counts (status_of verdict) counts
  ok (
      save_both (ended_job at verdict counts code message j)
        (ended_attempt at verdict counts code message a) db)

-- What the transaction reads and writes: the queue with the staged rows, and the facts.
pub record State : Type 0 where
  pub tables : Tables
  pub store : Store

pub record ProcessingResult : Type 0 where
  pub job_id : ℕ
  pub status : Status
  pub counts : Counts

pub data PublicationError : Type 0 where
  queue_error : QueueError → PublicationError
  integrity_error : PublishError → PublicationError

abbrev pub from_queue : {A : Type 0} → Result QueueError A → Result PublicationError A
from_queue (ok a) = ok a
from_queue (err e) = err (queue_error e)

-- `order_by("row_number")` of the rows of an attempt
unfoldable pub insert_row : StagedRow → List StagedRow → List StagedRow
insert_row row [] = row ∷ []
insert_row row (r ∷ rows) =
    let rest = insert_row row rows in
    if leb row.row_number r.row_number then row ∷ r ∷ rows else r ∷ rest

unfoldable pub rows_of_attempt : ℕ → List StagedRow → List StagedRow
unfolding insert_row
rows_of_attempt attempt [] = []
rows_of_attempt attempt (r ∷ rows) =
    let rest = rows_of_attempt attempt rows in
    if r.attempt == attempt then insert_row r rest else rest

-- `bulk_update`: the rows of a table that are among those saved are replaced.
abbrev same_row : StagedRow → StagedRow → Bool
same_row a b = (a.attempt == b.attempt) && (a.row_number == b.row_number)

abbrev row_or : Option StagedRow → StagedRow → StagedRow
row_or none row = row
row_or (some r) row = r

unfoldable pub save_rows : List StagedRow → List StagedRow → List StagedRow
save_rows saved table = map (λ row. row_or (find (same_row row) saved) row) table

-- The counters of an attempt that is rejected with some invalid rows; Python's difference.
abbrev pub rejected_counts : ℕ → ℕ → ℕ → Counts
rejected_counts total invalid issues = record {
  total_rows = pos total;
  valid_rows = sub_ℕ total invalid;
  invalid_rows = pos invalid;
  issue_count = pos issues;
  inserted_rows = pos 0;
  reused_rows = pos 0;
}

abbrev pub published_counts : ℕ → ℕ → ℕ → Counts
published_counts total inserted reused = record {
  total_rows = pos total;
  valid_rows = pos total;
  invalid_rows = pos 0;
  issue_count = pos 0;
  inserted_rows = pos inserted;
  reused_rows = pos reused;
}

-- The end of the transaction: the issues are stored, the job and its attempt are finished.
unfoldable pub conclude :
    ℕ
    → Job
    → Attempt
    → Verdict
    → Counts
    → Text
    → Text
    → List Issue
    → List StagedRow
    → Store
    → Db
    → Result PublicationError (State × ProcessingResult)
unfolding finish_locked_job
conclude at j a verdict counts code message issues staged store db = do
  let noted = record db { issues = db.issues ++ issues }
  db' ← from_queue (finish_locked_job j a verdict counts code message at noted)
  ok (
    record { tables = record { queue = db'; staged = staged }; store = store },
    record { job_id = j.sales_import; status = status_of verdict; counts = counts },
  )

-- What follows the loop that publishes; the outer transaction keeps what validation saved.
unfoldable pub conclude_publication :
    Settings
    → ℕ
    → Job
    → Attempt
    → ℕ
    → List Issue
    → List StagedRow
    → Store
    → Db
    → Result PublishError (Linked × IssueCollector)
    → Result PublicationError (State × ProcessingResult)
unfolding conclude persisted save_rows
conclude_publication settings at j a total stored staged store db (ok (out, c)) =
    conclude at j (record a { phase = Phase.publish }) as_published
      (published_counts total out.inserted out.reused) (codes "") (codes "") stored
      (save_rows out.rows staged) out.store db
conclude_publication settings at j a total stored staged store db (err (rejected c)) =
    conclude at j (record a { phase = Phase.publish }) as_rejected
      (rejected_counts total c.total c.total) (codes "SOURCE_RECORD_CONFLICT")
      (codes "One or more source record IDs conflict with immutable facts.")
      (stored ++ (persisted c).0) staged store db
conclude_publication settings at j a total stored staged store db (err e) = err (integrity_error e)
