-- ===== src/Queue/Claiming.antt =====
-- The claim transaction of sales_imports/queue.py, and `claim_next_job` as a whole: a cleanup
-- transaction, whose writes stay, and the claim.
use pharma_intel.Base.{
  ℕ, ◌+◌, Bool, ◌&&◌, Option, none, some, List, [], ◌∷◌, ◌++◌, Result, ok, err, ◌>>=◌, ◌>>◌,
  raise_if, ◌==◌, count, is_some, ltb, leb, if◌then◌else◌,
}
use pharma_intel.Base.Table.{get, put}
use pharma_intel.Base.Text.{Text}
use pharma_intel.Base.Int.{ℤ}
use pharma_intel.Queue.Rows.{
  Job, Attempt, Db, QueueError, integrity_error, overflow_error, job_key, attempt_key, runs_for,
}
use pharma_intel.Queue.Claim.{
  SalesImportClaim, positive_duration, normalized_worker_id, finish_if_processing, next_job,
  lease_out, new_attempt, mark_exhausted_batch,
}

-- The unique constraints on the attempts: the primary key, `sales_attempt_number_unique` and
-- `sales_attempt_one_running`.
abbrev pub same_number : Attempt → Attempt → Bool
same_number a b = (b.job == a.job) && (b.attempt_number == a.attempt_number)

unfoldable pub insert_attempt : Attempt → List Attempt → Result QueueError (List Attempt)
insert_attempt a attempts = do
  raise_if (is_some (get attempt_key a.id attempts)) integrity_error
  raise_if (ltb 0 (count (same_number a) attempts)) integrity_error
  raise_if (ltb 0 (count (runs_for a.job) attempts)) integrity_error
  ok (attempts ++ a ∷ [])

-- What the worker gets.
abbrev pub claim_of : ℕ → Text → ℕ → ℕ → Job → SalesImportClaim
claim_of until worker_id token id j = record {
  job_id = j.sales_import;
  sales_import_id = j.sales_import;
  attempt_id = id;
  attempt_number = j.attempt_count + 1;
  lease_token = token;
  worker_id = worker_id;
  lease_expires_at = until;
}

-- The writes of a claim of the job `j`, and what it returns.
unfoldable pub claim_job :
    ℕ → ℕ → Text → ℕ → ℕ → Job → Db → Result QueueError (Db × Option SalesImportClaim)
unfolding finish_if_processing lease_out new_attempt insert_attempt
claim_job now until worker_id token id j db = do
  attempts ← finish_if_processing now j db.attempts
  attempts' ← insert_attempt (new_attempt now worker_id token id j) attempts
  ok (
    record db {
      jobs = put job_key (lease_out now until worker_id token j) db.jobs;
      attempts = attempts';
    },
    some (claim_of until worker_id token id j),
  )

unfoldable pub claim_transaction :
    ℕ → ℕ → Text → ℕ → ℕ → (ℕ → Bool) → Db → Result QueueError (Db × Option SalesImportClaim)
unfolding next_job claim_job
claim_transaction now until worker_id token id locked db = elim (next_job now locked db.jobs) [
  | none ↦ ok (db, none)
  | some j ↦ claim_job now until worker_id token id j db
]

-- `datetime.max`, in microseconds since 1970.
abbrev pub latest_time : ℕ
latest_time = 253_402_300_799_999_999

-- The transaction under a lease of some length: `claimed_at + lease_duration` raises an
-- `OverflowError` past the last year, where a job is found.
unfoldable pub claim_for :
    ℕ → ℕ → Text → ℕ → ℕ → (ℕ → Bool) → Db → Result QueueError (Db × Option SalesImportClaim)
unfolding next_job claim_transaction finish_if_processing
claim_for now lease worker_id token id locked db =
    if leb (now + lease) latest_time
    then claim_transaction now (now + lease) worker_id token id locked db
    else elim (next_job now locked db.jobs) [
      | none ↦ ok (db, none)
      | some j ↦ finish_if_processing now j db.attempts >>= λ attempts. err overflow_error
    ]

-- A call that raises writes nothing in the transaction that it raises in.
abbrev pub after : Db → Result QueueError (Db × Option SalesImportClaim) → Db
after db (ok (db', claim)) = db'
after db (err e) = db

abbrev pub outcome :
    Result QueueError (Db × Option SalesImportClaim) → Result QueueError (Option SalesImportClaim)
outcome (ok (db', claim)) = ok claim
outcome (err e) = err e

-- `token` and `id` are the two UUIDs that the call draws; `locked` and `locked'` are the rows
-- that other transactions hold during the cleanup and during the claim.
unfoldable pub claim_next_job :
    Text
    → ℤ
    → ℕ
    → ℕ
    → ℕ
    → (ℕ → Bool)
    → (ℕ → Bool)
    → Db
    → Result QueueError (Option SalesImportClaim) × Db
unfolding claim_for mark_exhausted_batch
claim_next_job worker lease_duration now token id locked locked' db =
    elim (normalized_worker_id worker) [
      | err e ↦ (err e, db)
      | ok worker_id ↦ elim (positive_duration lease_duration) [
        | err e ↦ (err e, db)
        | ok lease ↦ elim (mark_exhausted_batch now locked db) [
          | err e ↦ (err e, db)
          | ok (db', n) ↦
              let r = claim_for now lease worker_id token id locked' db' in (outcome r, after db' r)
        ]
      ]
    ]
