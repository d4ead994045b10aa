-- ===== src/Queue/Finish.antt =====
-- `schedule_retry` and `complete_job` of sales_imports/queue.py: how a worker ends its attempt.
use pharma_intel.Base.{
  ℕ, ◌+◌, Option, none, some, Result, ok, err, ◌>>=◌, ◌>>◌, or_raise, leb, if◌then◌else◌, take,
}
use pharma_intel.Base.Text.{Text, strip}
use pharma_intel.Base.Int.{ℤ, pos}
use pharma_intel.Queue.Counts.{Status, Counts, validate_for}
use pharma_intel.Queue.Delay.{retry_delay}
use pharma_intel.Queue.Rows.{
  Job, Attempt, Phase, Outcome, Db, QueueError, value_error, clear_job_lease,
}
use pharma_intel.Queue.Lease.{locked_live_claim, save_both}

-- `_bounded_text`, at the lengths 64 and 1000 of the columns for codes and messages.
unfoldable pub bounded_text : ℕ → Text → Text
bounded_text max_length value = take max_length (strip value)

abbrev pub code_length : ℕ
code_length = 64

abbrev pub message_length : ℕ
message_length = 1000

-- The checks and the delay of other modules, which raise `ValueError`.
unfoldable pub checked_counts : Status → Counts → Result QueueError (Unit {0})
unfolding validate_for
checked_counts s c = elim (validate_for s c) [ ok u ↦ ok u | err e ↦ err value_error ]

unfoldable pub checked_delay : ℕ → ℤ → ℤ → Result QueueError ℕ
unfolding retry_delay
checked_delay n base maximum = elim (retry_delay (pos n) base maximum) [
  | ok t ↦ ok t
  | err e ↦ err value_error
]

unfoldable pub retried_attempt : ℕ → Text → Text → Counts → Attempt → Attempt
retried_attempt now code message counts a = record a {
  counts = counts;
  outcome = Outcome.retryable_failure;
  finished_at = some now;
  error_code = bounded_text code_length code;
  error_message = bounded_text message_length message;
}

-- The job row without its lease, and with the error.
abbrev pub noted_job : Text → Text → Job → Job
noted_job code message job = record (clear_job_lease job) {
  last_error_code = bounded_text code_length code;
  last_error_message = bounded_text message_length message;
}

abbrev pub failed_job : ℕ → Job → Job
failed_job now j = record j { status = Status.failed; finished_at = some now }

abbrev pub waiting_job : ℕ → ℕ → Job → Job
waiting_job now delay j = record j {
  status = Status.retry_wait;
  available_at = now + delay;
  finished_at = none;
}

-- The job row after a retryable failure: failed at the limit, and otherwise due after the delay.
unfoldable pub retried_job : ℕ → Text → Text → ℤ → ℤ → Job → Result QueueError Job
unfolding checked_delay
retried_job now code message base maximum job =
    let j = noted_job code message job in
    if leb j.max_attempts j.attempt_count
    then ok (failed_job now j)
    else (checked_delay j.attempt_count base maximum >>= λ delay. ok (waiting_job now delay j))

unfoldable pub schedule_retry :
    ℕ → Option ℕ → Text → Text → ℤ → ℤ → ℕ → Db → Result QueueError (Db × Job)
schedule_retry job_id lease_token code message base maximum now db = do
  found ← locked_live_claim job_id lease_token now db
  let counts = Job.counts (found.0)
  checked_counts Status.failed counts
  j ← retried_job now code message base maximum (found.0)
  ok (save_both j (retried_attempt now code message counts (found.1)) db, j)

-- `_TERMINAL_OUTCOMES`
abbrev pub terminal_outcome : Status → Option Outcome
terminal_outcome Status.published = some Outcome.published
terminal_outcome Status.rejected = some Outcome.rejected
terminal_outcome Status.failed = some Outcome.permanent_failure
terminal_outcome Status.cancelled = some Outcome.cancelled
terminal_outcome _ = none

abbrev pub phase_after : Status → Phase → Phase
phase_after Status.published p = Phase.complete
phase_after _ p = p

unfoldable pub completed_job : ℕ → Status → Counts → Text → Text → Job → Job
completed_job now status counts code message j = record (clear_job_lease j) {
  counts = counts;
  status = status;
  finished_at = some now;
  last_error_code = bounded_text code_length code;
  last_error_message = bounded_text message_length message;
}

unfoldable pub completed_attempt : ℕ → Status → Outcome → Counts → Text → Text → Attempt → Attempt
completed_attempt now status outcome counts code message a = record a {
  counts = counts;
  outcome = outcome;
  finished_at = some now;
  error_code = bounded_text code_length code;
  error_message = bounded_text message_length message;
  phase = phase_after status a.phase;
}

abbrev pub given_or {ℓ} : {A : Type ℓ} → Option A → A → A
given_or none a = a
given_or (some b) a = b

unfoldable pub complete_job :
    ℕ → Option ℕ → Status → Option Counts → Text → Text → ℕ → Db → Result QueueError (Db × Job)
complete_job job_id lease_token status counts code message now db = do
  outcome ← or_raise (terminal_outcome status) value_error
  found ← locked_live_claim job_id lease_token now db
  let terminal_counts = given_or counts (Job.counts (found.0))
  checked_counts status terminal_counts
  let j = completed_job now status terminal_counts code message (found.0)
  let a = completed_attempt now status outcome terminal_counts code message (found.1)
  ok (save_both j a db, j)
