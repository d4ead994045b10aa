-- ===== src/Queue/Checks/Rows.antt =====
-- Every job row that the queue writes passes the CHECK constraints of the database.
use mathlib.Core.List.{reverse, [], ◌∷◌}
use pharma_intel.Base.Text.{Text, space_first, is_trimmed, is_empty}
use pharma_intel.Base.{ℕ, ◌+◌, ◌<◌, ◌≡◌, refl, true, false, ◌||◌, none, some, ok, arith, max}
use pharma_intel.Base.Int.{ℤ, ◌+ℤ◌}
use pharma_intel.Queue.Counts.{Status, Counts, no_counts, counts_checked, is_published, is_rejected}
use pharma_intel.Queue.Rows.{Job, is_processing}
use pharma_intel.Queue.Claim.{lease_out, mark_exhausted, is_eligible}
use pharma_intel.Queue.Finish.{retried_job, completed_job, terminal_outcome}
use pharma_intel.Queue.Enqueue.{
  new_job, advanced_job, requeued_job, is_failed, is_waiting_for_file, is_parked,
}
use pharma_intel.Queue.Checks.{job_checked, equals_trim, blank_first}
use mathlib.Core.Logic.{◌≢◌}

counts_checked-no_counts : (s : Status) → is_rejected s ≡ false → counts_checked s no_counts ≡ true
unfolding counts_checked ◌+ℤ◌
counts_checked-no_counts Status.rejected h = cc
counts_checked-no_counts s h = refl

-- Counters of a row that is not published also suit any status that asks for no issue.
counts_checked-failed :
    (s : Status) (c : Counts)
    → counts_checked s c ≡ true
    → is_published s ≡ false
    → counts_checked Status.failed c ≡ true
unfolding counts_checked
counts_checked-failed Status.published c h p = cc
counts_checked-failed s c h p = ground arith

counts_checked-processing :
    (s : Status) (c : Counts)
    → counts_checked s c ≡ true
    → is_processing s ≡ true
    → (counts_checked Status.failed c ≡ true) × (counts_checked Status.retry_wait c ≡ true)
unfolding counts_checked
counts_checked-processing Status.published c h p = cc
counts_checked-processing s c h p = ground arith

counts_checked-waiting :
    (desired s : Status) (c : Counts)
    → counts_checked s c ≡ true
    → is_waiting_for_file s ≡ true
    → is_parked desired ≡ true
    → counts_checked desired c ≡ true
unfolding counts_checked
counts_checked-waiting Status.published s c h w p = cc
counts_checked-waiting desired s c h w p = ground arith

pub mark_exhausted-job_checked :
    (now : ℕ) (j : Job)
    → job_checked j ≡ true
    → is_published j.status ≡ false
    → job_checked (mark_exhausted now j) ≡ true
unfolding job_checked mark_exhausted
mark_exhausted-job_checked now j h p = ground (arith, counts_checked-failed j.status j.counts)

pub lease_out-job_checked :
    (now until : ℕ) (worker : Text) (token : ℕ) (j : Job)
    → job_checked j ≡ true
    → is_eligible now j ≡ true
    → is_empty worker ≡ false
    → equals_trim worker ≡ true
    → job_checked (lease_out now until worker token j) ≡ true
unfolding job_checked lease_out is_eligible
lease_out-job_checked now until worker token j h e w t =
    ground (arith, counts_checked-no_counts Status.processing)

pub completed_job-job_checked :
    (now : ℕ) (s : Status) (c : Counts) (code message : Text) (j : Job)
    → job_checked j ≡ true
    → terminal_outcome s ≢ none
    → counts_checked s c ≡ true
    → job_checked (completed_job now s c code message j) ≡ true
unfolding job_checked completed_job
completed_job-job_checked now s c code message j h t k = ground arith

-- A retryable failure of a leased job.
pub retried_job-job_checked :
    (now : ℕ) (code message : Text) (base maximum : ℤ) (j j' : Job)
    → job_checked j ≡ true
    → is_processing j.status ≡ true
    → retried_job now code message base maximum j ≡ ok j'
    → job_checked j' ≡ true
unfolding job_checked retried_job
retried_job-job_checked now code message base maximum j j' h p e =
    ground (arith, counts_checked-processing j.status j.counts)

-- A heartbeat renews a lease that is there.
pub heartbeat-job_checked :
    (now until : ℕ) (j : Job)
    → job_checked j ≡ true
    → is_processing j.status ≡ true
    → job_checked (record j { heartbeat_at = some now; lease_expires_at = some until }) ≡ true
unfolding job_checked
heartbeat-job_checked now until j h p = ground arith

pub requeued_job-job_checked :
    (now more : ℕ) (j : Job)
    → job_checked j ≡ true
    → 0 < more
    → job_checked (requeued_job now (max j.max_attempts j.attempt_count + more) j) ≡ true
unfolding job_checked requeued_job
requeued_job-job_checked now more j h m = ground (arith, counts_checked-no_counts Status.queued)

pub new_job-job_checked :
    (id attempts : ℕ) (s : Status) (now clock : ℕ)
    → 0 < attempts
    → (is_waiting_for_file s || is_parked s || is_failed s) ≡ true
    → job_checked (new_job id attempts s now clock) ≡ true
unfolding job_checked new_job
new_job-job_checked id attempts Status.waiting_for_file now clock m k =
    ground (arith, counts_checked-no_counts Status.waiting_for_file)
new_job-job_checked id attempts s now clock m k = ground (arith, counts_checked-no_counts s)

pub advanced_job-job_checked :
    (desired : Status) (now : ℕ) (j : Job)
    → job_checked j ≡ true
    → job_checked (advanced_job desired now j) ≡ true
unfolding job_checked advanced_job
advanced_job-job_checked desired now j h = ground (
  arith,
  counts_checked-waiting desired j.status j.counts,
  counts_checked-failed j.status j.counts,
)

-- A text that Python's `strip` leaves alone is left alone by PostgreSQL's `TRIM`.
blank_is_space : (t : Text) → space_first t ≡ false → blank_first t ≡ false
blank_is_space [] h = refl
blank_is_space (c ∷ t) h = ground arith

pub equals_trim_of_trimmed : (s : Text) → is_trimmed s ≡ true → equals_trim s ≡ true
equals_trim_of_trimmed s h = ground (arith, h, blank_is_space s, blank_is_space (reverse s))
