-- ===== src/Queue/Enqueue.antt =====
-- `enqueue_import` and `requeue_job` of sales_imports/queue.py.
use pharma_intel.Base.{
  ℕ, ◌+◌, max, Bool, true, false, not, ◌&&◌, ◌||◌, none, some, List, [], ◌∷◌, ◌++◌, Result, ok,
  ◌>>=◌, ◌>>◌, raise_if, or_raise, ltb, if◌then◌else◌, any, ◌==◌,
}
use pharma_intel.Base.Table.{get, put}
use pharma_intel.Base.Text.{Text, codes, text_eq}
use pharma_intel.Base.Int.{ℤ, pos, ltb_ℤ, pos_part}
use pharma_intel.Intake.Row.{
  SalesImport, IntakeStatus, receiving, received, is_csv, is_received, intake_key,
}
use pharma_intel.Queue.Counts.{Status, no_counts, is_rejected}
use pharma_intel.Queue.Rows.{
  Job, Attempt, Issue, Db, QueueError, queue_state, does_not_exist, value_error, job_key,
  clear_job_lease,
}

abbrev pub maximum_supported : ℕ
maximum_supported = 32_767

unfoldable pub desired_status : SalesImport → Status
desired_status s = elim (SalesImport.status s) [
  | receiving ↦ Status.waiting_for_file
  | received ↦ (if is_csv s.file_format then Status.queued else Status.awaiting_parser)
  | IntakeStatus.failed ↦ Status.failed
]

abbrev pub is_waiting_for_file : Status → Bool
is_waiting_for_file Status.waiting_for_file = true
is_waiting_for_file _ = false

abbrev pub is_failed : Status → Bool
is_failed Status.failed = true
is_failed _ = false

-- `status in (QUEUED, AWAITING_PARSER)`
abbrev pub is_parked : Status → Bool
is_parked Status.queued = true
is_parked Status.awaiting_parser = true
is_parked _ = false

-- The row that `get_or_create` creates, with the model's defaults.
unfoldable pub new_job : ℕ → ℕ → Status → ℕ → ℕ → Job
new_job id max_attempts status now clock = record {
  sales_import = id;
  status = status;
  available_at = now;
  attempt_count = 0;
  max_attempts = max_attempts;
  lease_token = none;
  leased_by = codes "";
  lease_expires_at = none;
  heartbeat_at = none;
  first_started_at = none;
  finished_at = if is_failed status then some now else none;
  counts = no_counts;
  last_error_code = codes "";
  last_error_message = codes "";
  created_at = clock;
}

-- What becomes of a row that is there already.
unfoldable pub advanced_job : Status → ℕ → Job → Job
advanced_job desired now j =
    if is_waiting_for_file j.status && is_parked desired
    then record j { status = desired; available_at = now }
    else if is_waiting_for_file j.status && is_failed desired
    then record j {
      status = Status.failed;
      finished_at = some now;
      last_error_code = codes "INTAKE_STORAGE_FAILED";
      last_error_message = codes "The original file was not stored successfully.";
    }
    else j

-- `clock` is the time that `auto_now_add` takes, and `now` the time that the call works with.
unfoldable pub enqueue_import : ℕ → ℤ → ℕ → ℕ → Db → Result QueueError (Db × Job)
unfolding desired_status new_job advanced_job
enqueue_import id max_attempts now clock db = do
  raise_if (ltb_ℤ max_attempts (pos 1) || ltb_ℤ (pos maximum_supported) max_attempts) value_error
  intake ← or_raise (get intake_key id db.imports) does_not_exist
  let status = desired_status intake
  elim (get job_key id db.jobs) [
    | none ↦
        let j = new_job id (pos_part max_attempts) status now clock in
        ok (record db { jobs = db.jobs ++ j ∷ [] }, j)
    | some job ↦
        let j = advanced_job status now job in ok (record db { jobs = put job_key j db.jobs }, j)
  ]

-- The code of a conflict with an immutable fact.
abbrev pub source_record_conflict : Text
source_record_conflict = codes "SOURCE_RECORD_CONFLICT"

unfoldable pub is_conflict_code : Text → Bool
is_conflict_code code = text_eq code source_record_conflict

-- Whether an attempt with this key belongs to the job `k`.
unfoldable pub attempt_of : ℕ → ℕ → List Attempt → Bool
attempt_of k id attempts = any (λ a. (a.id == id) && (a.job == k)) attempts

unfoldable pub has_conflict : ℕ → Db → Bool
unfolding attempt_of is_conflict_code
has_conflict k db =
    any (λ i. attempt_of k (Issue.attempt i) db.attempts && is_conflict_code (Issue.code i))
      db.issues

abbrev pub is_retryable : Status → Bool
is_retryable Status.failed = true
is_retryable Status.rejected = true
is_retryable _ = false

unfoldable pub requeued_job : ℕ → ℕ → Job → Job
requeued_job now max_attempts j = record (clear_job_lease j) {
  status = Status.queued;
  available_at = now;
  max_attempts = max_attempts;
  finished_at = none;
  last_error_code = codes "";
  last_error_message = codes "";
  counts = no_counts;
}

-- `additional_attempts` is an integer: other values are refused by the same test.
unfoldable pub requeue_job : ℕ → ℤ → ℕ → Db → Result QueueError (Db × Job)
requeue_job job_id additional_attempts now db = do
  raise_if (ltb_ℤ additional_attempts (pos 1)) value_error
  job ← or_raise (get job_key job_id db.jobs) does_not_exist
  intake ← or_raise (get intake_key (Job.sales_import job) db.imports) does_not_exist
  raise_if (not (is_retryable (Job.status job))) queue_state
  raise_if (not (is_received (SalesImport.status intake))) queue_state
  raise_if (not (is_csv (SalesImport.file_format intake))) queue_state
  raise_if
      (is_rejected (Job.status job)
        && (is_conflict_code (Job.last_error_code job) || has_conflict (Job.sales_import job) db))
      queue_state
  let new_max_attempts =
      max (Job.max_attempts job) (Job.attempt_count job) + pos_part additional_attempts
  raise_if (ltb maximum_supported new_max_attempts) value_error
  let j = requeued_job now new_max_attempts job
  ok (record db { jobs = put job_key j db.jobs }, j)
