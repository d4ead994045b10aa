-- ===== src/Queue/Lease.antt =====
-- The lease fence of sales_imports/queue.py: `_locked_live_claim`, and the two calls that renew a
-- lease and move the phase of its attempt.
use pharma_intel.Base.{
  ℕ, ◌+◌, Bool, ◌&&◌, Option, none, some, Result, ok, err, ◌>>=◌, or_raise, find, if◌then◌else◌,
}
use pharma_intel.Base.Table.{get, put}
use pharma_intel.Base.Int.{ℤ}
use pharma_intel.Queue.Rows.{
  Job, Attempt, Phase, Db, QueueError, claim_lost, queue_state, value_error, job_key, attempt_key,
  is_processing, is_token, is_ahead, runs_under,
}
use pharma_intel.Queue.Claim.{positive_duration}

-- Whether the row `j` is leased out under `token` and the lease still runs.
abbrev pub is_live : ℕ → ℕ → Job → Bool
is_live now token j =
    is_processing j.status && is_token j.lease_token token && is_ahead j.lease_expires_at now

-- `_as_token`: `none` stands for a text that is no UUID.
abbrev pub as_token : Option ℕ → Result QueueError ℕ
as_token none = err claim_lost
as_token (some t) = ok t

-- `.filter(pk=..., status=..., ...).first()`
unfoldable pub live_job : ℕ → ℕ → ℕ → Db → Option Job
live_job job_id token now db = elim (get job_key job_id db.jobs) [
  | none ↦ none
  | some j ↦ if is_live now token j then some j else none
]

unfoldable pub locked_live_claim : ℕ → Option ℕ → ℕ → Db → Result QueueError (Job × Attempt)
unfolding live_job
locked_live_claim job_id lease_token now db = do
  token ← as_token lease_token
  j ← or_raise (live_job job_id token now db) claim_lost
  a ← or_raise (find (runs_under j.sales_import (some token)) db.attempts) queue_state
  ok (j, a)

-- `job.save()` and `attempt.save()`
abbrev pub save_both : Job → Attempt → Db → Db
save_both j a db = record db {
  jobs = put job_key j db.jobs;
  attempts = put attempt_key a db.attempts;
}

unfoldable pub heartbeat_job : ℕ → Option ℕ → ℤ → ℕ → Db → Result QueueError (Db × ℕ)
heartbeat_job job_id lease_token lease_duration now db = do
  lease ← positive_duration lease_duration
  found ← locked_live_claim job_id lease_token now db
  let j = record (found.0) { heartbeat_at = some now; lease_expires_at = some (now + lease) }
  ok (save_both j (record (found.1) { heartbeat_at = now }) db, now + lease)

-- `phase` is `none` for a text that names no phase.
unfoldable pub advance_attempt_phase : ℕ → Option ℕ → Option Phase → ℕ → Db → Result QueueError Db
advance_attempt_phase job_id lease_token phase now db = do
  p ← or_raise phase value_error
  found ← locked_live_claim job_id lease_token now db
  ok (record db { attempts = put attempt_key (record (found.1) { phase = p }) db.attempts })
