-- ===== src/Queue/Rows.antt =====
-- The tables that the queue works on, with the columns of sales_imports/models.py, and the reads
-- and writes of them. Tokens and keys (UUIDs) are numbers, times are microseconds since an epoch.
-- A transaction is a function on the whole of `Db` that returns the new tables, or an error in
-- which case nothing is written. `updated_at`, which no code reads, is left out.
use pharma_intel.Base.{ℕ, Bool, true, false, ◌&&◌, Option, none, some, List, ◌==◌, leb, ltb}
use pharma_intel.Base.Text.{Text, codes}
use pharma_intel.Queue.Counts.{Status, processing, queued, retry_wait, Counts}
use pharma_intel.Intake.Row.{SalesImport}

pub record Job : Type 0 where
  pub sales_import : ℕ
  pub status : Status
  pub available_at : ℕ
  pub attempt_count : ℕ
  pub max_attempts : ℕ
  pub lease_token : Option ℕ
  pub leased_by : Text
  pub lease_expires_at : Option ℕ
  pub heartbeat_at : Option ℕ
  pub first_started_at : Option ℕ
  pub finished_at : Option ℕ
  pub counts : Counts
  pub last_error_code : Text
  pub last_error_message : Text
  pub created_at : ℕ

-- `SalesImportAttempt.Phase`
pub data Phase : Type 0 where
  claimed download parse validate publish complete : Phase

-- `SalesImportAttempt.Outcome`
pub data Outcome : Type 0 where
  running published rejected retryable_failure permanent_failure lease_expired cancelled : Outcome

pub record Attempt : Type 0 where
  pub id : ℕ
  pub job : ℕ
  pub attempt_number : ℕ
  pub lease_token : ℕ
  pub worker_id : Text
  pub phase : Phase
  pub outcome : Outcome
  pub started_at : ℕ
  pub heartbeat_at : ℕ
  pub finished_at : Option ℕ
  pub counts : Counts
  pub error_code : Text
  pub error_message : Text

-- `SalesImportIssue.Phase`
pub data IssuePhase : Type 0 where
  contract master_data idempotency : IssuePhase

pub record Issue : Type 0 where
  pub attempt : ℕ
  pub row_number : Option ℕ
  pub column : Text
  pub code : Text
  pub message : Text
  pub phase : IssuePhase

pub record Db : Type 0 where
  pub imports : List SalesImport
  pub jobs : List Job
  pub attempts : List Attempt
  pub issues : List Issue

-- The exceptions of the queue, the `ValueError`s by what they complain of.
pub data QueueError : Type 0 where
  claim_lost queue_state does_not_exist : QueueError
  value_error integrity_error overflow_error : QueueError

abbrev pub job_key : Job → ℕ
job_key j = j.sales_import

abbrev pub attempt_key : Attempt → ℕ
attempt_key a = a.id

abbrev pub is_processing : Status → Bool
is_processing processing = true
is_processing _ = false

-- `status__in=(QUEUED, RETRY_WAIT)`
abbrev pub is_pending : Status → Bool
is_pending queued = true
is_pending retry_wait = true
is_pending _ = false

abbrev pub is_running : Outcome → Bool
is_running running = true
is_running _ = false

-- `column = value`, which fails on a null column.
abbrev pub is_token : Option ℕ → ℕ → Bool
is_token none t = false
is_token (some s) t = s == t

-- `column <= now`, which fails on a null column.
abbrev pub has_passed : Option ℕ → ℕ → Bool
has_passed none now = false
has_passed (some t) now = leb t now

-- `column > now`, which fails on a null column.
abbrev pub is_ahead : Option ℕ → ℕ → Bool
is_ahead none now = false
is_ahead (some t) now = ltb now t

-- The attempts of one job, its running attempts, and those that run under a given token.
abbrev pub of_job : ℕ → Attempt → Bool
of_job k a = a.job == k

abbrev pub runs_for : ℕ → Attempt → Bool
runs_for k a = (a.job == k) && is_running a.outcome

abbrev pub runs_under : ℕ → Option ℕ → Attempt → Bool
runs_under k token a = (a.job == k) && is_token token a.lease_token && is_running a.outcome

-- `_clear_job_lease`
abbrev pub clear_job_lease : Job → Job
clear_job_lease j = record j {
  lease_token = none;
  leased_by = codes "";
  lease_expires_at = none;
  heartbeat_at = none;
}
