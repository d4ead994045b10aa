-- ===== src/Processing/Failure.antt =====
-- What `process_claim` of sales_imports/processing.py does with the exceptions of an attempt:
-- `_complete_failure`, `_complete_stored_object_failure` and `_schedule_processing_retry`.
pub mod Laws
use pharma_intel.Base.{ℕ, Option, some, Result, ok, err, ◌>>=◌, or_raise}
use pharma_intel.Base.Int.{pos}
use pharma_intel.Base.Text.{Text, codes}
use pharma_intel.Base.Table.{get}
use pharma_intel.Intake.Row.{SalesImport, FailureCode, object_missing, verification_failed}
use pharma_intel.Intake.Transitions.{TransitionError, mark_stored_object_failed}
use pharma_intel.Queue.Counts.{Status, Counts}
use pharma_intel.Queue.Rows.{Job, Db, QueueError, does_not_exist, job_key}
use pharma_intel.Queue.Claim.{SalesImportClaim}
use pharma_intel.Queue.Finish.{schedule_retry, complete_job}

-- What is caught: the errors of sales_imports/storage.py, the most specific class first and with
-- their texts, a lost claim, and an error of the database.
pub data Trouble : Type 0 where
  download_error kms_provenance_error not_found_error : Text → Trouble
  verification_error storage_error : Text → Trouble
  lost database_error : Trouble

-- What the handling itself may raise.
pub data HandlingError : Type 0 where
  queue_error : QueueError → HandlingError
  intake_error : TransitionError → HandlingError

abbrev pub of_queue : {A : Type 0} → Result QueueError A → Result HandlingError A
of_queue (ok a) = ok a
of_queue (err e) = err (queue_error e)

abbrev pub of_intake : {A : Type 0} → Result TransitionError A → Result HandlingError A
of_intake (ok a) = ok a
of_intake (err e) = err (intake_error e)

-- `_current_counts`
unfoldable pub current_counts : ℕ → Db → Result QueueError Counts
current_counts job_id db = do j ← or_raise (get job_key job_id db.jobs) does_not_exist; ok j.counts

unfoldable pub complete_failure :
    SalesImportClaim → Text → Text → ℕ → Db → Result QueueError (Db × Job)
unfolding current_counts complete_job
complete_failure claim code message now db = do
  counts ← current_counts claim.job_id db
  complete_job claim.job_id (some claim.lease_token) Status.failed (some counts) code message now db

-- Both changes are one transaction.
unfoldable pub complete_stored_object_failure :
    SalesImportClaim → FailureCode → Text → Text → ℕ → Db → Result HandlingError (Db × Job)
unfolding complete_failure mark_stored_object_failed
complete_stored_object_failure claim intake_code job_code message now db = do
  imports ← of_intake (mark_stored_object_failed claim.sales_import_id intake_code now db.imports)
  of_queue (complete_failure claim job_code message now (record db { imports = imports }))

-- `DEFAULT_RETRY_BASE_DELAY` and `DEFAULT_RETRY_MAX_DELAY` of sales_imports/queue.py.
abbrev pub base_delay : ℕ
base_delay = 30_000_000

abbrev pub max_delay : ℕ
max_delay = 900_000_000

unfoldable pub schedule_processing_retry :
    SalesImportClaim → Text → Text → ℕ → Db → Result QueueError (Db × Job)
unfolding schedule_retry
schedule_processing_retry claim code message now db =
    schedule_retry claim.job_id (some claim.lease_token) code message (pos base_delay)
      (pos max_delay) now db

-- The `except` clauses of `process_claim`.
unfoldable pub handle : SalesImportClaim → Trouble → ℕ → Db → Result HandlingError (Db × Job)
unfolding complete_failure complete_stored_object_failure schedule_processing_retry
handle claim (download_error message) now db =
    of_queue (schedule_processing_retry claim (codes "S3_DOWNLOAD_RETRYABLE") message now db)
handle claim (kms_provenance_error message) now db =
    of_queue (complete_failure claim (codes "KMS_PROVENANCE_MISSING") message now db)
handle claim (not_found_error message) now db =
    complete_stored_object_failure claim object_missing (codes "S3_VERSION_NOT_FOUND") message now
      db
handle claim (verification_error message) now db =
    complete_stored_object_failure claim verification_failed (codes "S3_VERIFICATION_FAILED")
      message now db
handle claim (storage_error message) now db =
    of_queue (complete_failure claim (codes "S3_CONFIGURATION_ERROR") message now db)
handle claim lost now db = err (queue_error QueueError.claim_lost)
handle claim database_error now db = of_queue (
    schedule_processing_retry claim (codes "DATABASE_RETRYABLE")
      (codes "A transient database error interrupted processing.") now db)
