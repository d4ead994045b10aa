-- ===== src/Queue/Claim.antt =====
-- `claim_next_job` of sales_imports/queue.py and what it calls.
pub mod Selection
pub mod Batch
use pharma_intel.Base.{
  ℕ, suc, ◌+◌, ◌≡◌, Bool, true, false, not, ◌&&◌, ◌||◌, Option, none, some, List, [], ◌∷◌, ◌++◌,
  map, Result, ok, err, ◌>>=◌, ◌>>◌, raise_if, or_raise, ◌==◌, leb, ltb, if◌then◌else◌, filter,
  count, take, length, is_none,
}
use pharma_intel.Base.Table.{get, put}
use pharma_intel.Base.Text.{Text, codes, strip, is_empty}
use pharma_intel.Base.Int.{ℤ}
use pharma_intel.Queue.Counts.{Status, no_counts}
use pharma_intel.Queue.Delay.{validate_duration, ArgumentError}
use pharma_intel.Queue.Rows.{
  Job, Attempt, Phase, Outcome, Db, QueueError, claim_lost, queue_state, value_error,
  integrity_error, job_key, attempt_key, is_processing, is_pending, is_running, has_passed,
  runs_under, clear_job_lease,
}

-- The fencing values that a worker presents for every state change.
pub record SalesImportClaim : Type 0 where
  pub job_id : ℕ
  pub sales_import_id : ℕ
  pub attempt_id : ℕ
  pub attempt_number : ℕ
  pub lease_token : ℕ
  pub worker_id : Text
  pub lease_expires_at : ℕ

abbrev pub exhausted_cleanup_batch_size : ℕ
exhausted_cleanup_batch_size = 100

-- A duration checked by the queue's own helper.
unfoldable pub positive_duration : ℤ → Result QueueError ℕ
unfolding validate_duration
positive_duration d = elim (validate_duration d) [ ok t ↦ ok t | err e ↦ err value_error ]

-- `_worker_id`; the column `leased_by` holds 255 characters.
unfoldable pub normalized_worker_id : Text → Result QueueError Text
normalized_worker_id value = do
  let normalized = strip value
  raise_if (is_empty normalized) value_error
  raise_if (ltb 255 (length normalized)) value_error
  ok normalized

-- Waiting and due, or leased out and past its lease.
abbrev pub is_ready : ℕ → Job → Bool
is_ready now j =
    (is_pending j.status && leb j.available_at now)
    || (is_processing j.status && has_passed j.lease_expires_at now)

unfoldable pub is_eligible : ℕ → Job → Bool
is_eligible now j = ltb j.attempt_count j.max_attempts && is_ready now j

unfoldable pub is_exhausted : ℕ → Job → Bool
is_exhausted now j = leb j.max_attempts j.attempt_count && is_ready now j

-- The order of `order_by("available_at", "created_at", "pk")`.
unfoldable pub comes_before : Job → Job → Bool
comes_before j k =
    ltb j.available_at k.available_at
    || ((j.available_at == k.available_at)
        && (ltb j.created_at k.created_at
            || ((j.created_at == k.created_at) && leb j.sales_import k.sales_import)))

pub insert_job : Job → List Job → List Job
insert_job j [] = j ∷ []
insert_job j (k ∷ ks) =
    let rest = insert_job j ks in if comes_before j k then j ∷ k ∷ ks else k ∷ rest

-- The rows of a queryset in that order.
unfoldable pub ordered : List Job → List Job
unfolding insert_job
ordered [] = []
ordered (j ∷ js) = insert_job j (ordered js)

-- `_finish_expired_attempt`: the update, and its check that it met one row.
abbrev pub expire : ℕ → Attempt → Attempt
expire now a = record a {
  outcome = Outcome.lease_expired;
  finished_at = some now;
  error_code = codes "LEASE_EXPIRED";
  error_message = codes "The worker did not renew its lease before expiry.";
}

abbrev pub expire_if : ℕ → ℕ → Option ℕ → Attempt → Attempt
expire_if now k token a = if runs_under k token a then expire now a else a

unfoldable pub finish_expired_attempt : ℕ → Job → List Attempt → Result QueueError (List Attempt)
finish_expired_attempt now j attempts = do
  raise_if (not (count (runs_under j.sales_import j.lease_token) attempts == 1)) queue_state
  ok (map (expire_if now j.sales_import j.lease_token) attempts)

-- The same, where the job was leased out.
unfoldable pub finish_if_processing : ℕ → Job → List Attempt → Result QueueError (List Attempt)
unfolding finish_expired_attempt
finish_if_processing now j attempts =
    if is_processing j.status then finish_expired_attempt now j attempts else ok attempts

-- `_mark_exhausted`
unfoldable pub mark_exhausted : ℕ → Job → Job
mark_exhausted now j = record (clear_job_lease j) {
  status = Status.failed;
  finished_at = some now;
  last_error_code = codes "ATTEMPT_LIMIT_EXHAUSTED";
  last_error_message = codes "The sales import exhausted its worker attempts.";
}

unfoldable pub mark_exhausted_one : ℕ → Job → Db → Result QueueError Db
unfolding finish_if_processing mark_exhausted
mark_exhausted_one now j db = do
  attempts ← finish_if_processing now j db.attempts
  ok (record db { jobs = put job_key (mark_exhausted now j) db.jobs; attempts = attempts })

unfoldable pub mark_exhausted_all : ℕ → List Job → Db → Result QueueError Db
unfolding mark_exhausted_one
mark_exhausted_all now [] db = ok db
mark_exhausted_all now (j ∷ js) db = mark_exhausted_one now j db >>= mark_exhausted_all now js

-- `_mark_exhausted_batch`. `locked` tells the rows that other transactions hold, which
-- `skip_locked` passes over.
-- The rows that the cleanup and the claim may take: no other transaction holds them.
abbrev pub is_cleanable : ℕ → (ℕ → Bool) → Job → Bool
is_cleanable now locked j = not (locked j.sales_import) && is_exhausted now j

abbrev pub is_claimable : ℕ → (ℕ → Bool) → Job → Bool
is_claimable now locked j = not (locked j.sales_import) && is_eligible now j

unfoldable pub exhausted_batch : ℕ → (ℕ → Bool) → List Job → List Job
exhausted_batch now locked jobs =
    take exhausted_cleanup_batch_size (ordered (filter (is_cleanable now locked) jobs))

unfoldable pub mark_exhausted_batch : ℕ → (ℕ → Bool) → Db → Result QueueError (Db × ℕ)
unfolding exhausted_batch mark_exhausted_all
mark_exhausted_batch now locked db = do
  let jobs = exhausted_batch now locked db.jobs
  db' ← mark_exhausted_all now jobs db
  ok (db', length jobs)

abbrev pub first_job : List Job → Option Job
first_job [] = none
first_job (j ∷ js) = some j

unfoldable pub next_job : ℕ → (ℕ → Bool) → List Job → Option Job
next_job now locked jobs = first_job (ordered (filter (is_claimable now locked) jobs))

abbrev pub or_now : ℕ → Option ℕ → Option ℕ
or_now now none = some now
or_now now (some t) = some t

-- The job row under its new lease.
unfoldable pub lease_out : ℕ → ℕ → Text → ℕ → Job → Job
lease_out now until worker_id token j = record j {
  status = Status.processing;
  attempt_count = j.attempt_count + 1;
  lease_token = some token;
  leased_by = worker_id;
  lease_expires_at = some until;
  heartbeat_at = some now;
  first_started_at = or_now now j.first_started_at;
  finished_at = none;
  last_error_code = codes "";
  last_error_message = codes "";
  counts = no_counts;
}

-- `SalesImportAttempt.objects.create`, with the model's defaults.
unfoldable pub new_attempt : ℕ → Text → ℕ → ℕ → Job → Attempt
new_attempt now worker_id token id j = record {
  id = id;
  job = j.sales_import;
  attempt_number = j.attempt_count + 1;
  lease_token = token;
  worker_id = worker_id;
  phase = Phase.claimed;
  outcome = Outcome.running;
  started_at = now;
  heartbeat_at = now;
  finished_at = none;
  counts = no_counts;
  error_code = codes "";
  error_message = codes "";
}
