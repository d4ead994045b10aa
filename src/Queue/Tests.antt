-- ===== src/Queue/Tests.antt =====
-- Concrete tables of the queue: an import that is queued, leased out and taken over, and the
-- theorems of the queue at these tables.
use pharma_intel.Base.{
  ℕ, ◌≡◌, ◌≢◌, ◌≤◌, ◌<◌, ◌↔◌, ◌⊎◌, refl, Bool, true, false, Option, none, some, [], ◌∷◌, arith,
  Result, ok, err, All,
}
use pharma_intel.Base.Int.{pos}
use pharma_intel.Base.Text.{Text, codes, strip}
use pharma_intel.Base.Table.{get}
use pharma_intel.Intake.Row.{SalesImport, csv, IntakeStatus, FailureCode}
use pharma_intel.Queue.Counts.{Status, no_counts, validate_for, counts_checked}
use pharma_intel.Queue.Counts.Laws.{validate_for_iff}
use pharma_intel.Queue.Delay.{retry_delay}
use pharma_intel.Queue.Delay.Laws.{retry_delay-eq}
use pharma_intel.Queue.Rows.{Job, Attempt, Phase, Outcome, Db, QueueError, claim_lost, job_key}
use pharma_intel.Queue.Claim.{
  SalesImportClaim, is_claimable, comes_before, next_job, ordered, positive_duration, new_attempt,
  normalized_worker_id, lease_out, is_eligible,
}
use pharma_intel.Queue.Claim.Selection.{next_job_first}
use pharma_intel.Queue.Claiming.{claim_transaction, claim_next_job, claim_of}
use pharma_intel.Queue.Lease.{live_job, heartbeat_job, advance_attempt_phase, locked_live_claim}
use pharma_intel.Queue.Audit.{renewed, worker_calls_pass}
use pharma_intel.Queue.Checks.{attempt_guard}
use pharma_intel.Queue.Finish.{schedule_retry, complete_job, retried_job}
use pharma_intel.Queue.Enqueue.{enqueue_import, new_job}
use pharma_intel.Queue.Invariant.{IsConsistent}
use pharma_intel.Queue.Steps.{
  enqueued, claimed, Reach, here, next, Reach-IsConsistent, claim_next_job-total,
}
use pharma_intel.Queue.Fence.{takeover_refuses, takeover_revokes, live_lease_kept}
use pharma_intel.Queue.Outcomes.{retried_job_lem, enqueue_import_again}

abbrev csv_import : SalesImport
csv_import = record {
  id = 1;
  data_contract = codes "sales_v1";
  row_contract = codes "sales_rows_v1";
  source_system = codes "DEMO-ERP";
  original_filename = codes "a.csv";
  content_type = codes "";
  file_format = csv;
  size_bytes = 10;
  sha256 = codes "00";
  storage_bucket = codes "b";
  storage_kms_key_arn = some (codes "k");
  storage_key = codes "o";
  storage_version_id = codes "v1";
  uploaded_by = 1;
  status = IntakeStatus.received;
  failure_code = FailureCode.no_failure;
  received_at = some 50;
  failed_at = none;
  created_at = 40;
}

abbrev empty_db : Db
empty_db = record { imports = csv_import ∷ []; jobs = []; attempts = []; issues = [] }

abbrev worker : Text
worker = codes "w1"

abbrev nobody : ℕ → Bool
nobody k = false

-- The job as `enqueue_import` creates it.
queued_job : Job
unfolding new_job
queued_job = new_job 1 5 Status.queued 100 100

queued_db : Db
unfolding queued_job
queued_db = record empty_db { jobs = queued_job ∷ [] }

enqueue_first : enqueue_import 1 (pos 5) 100 100 empty_db ≡ ok (queued_db, queued_job)
unfolding enqueue_import queued_db
enqueue_first = refl

empty-IsConsistent : IsConsistent empty_db
empty-IsConsistent = record { job_keys = tt; attempt_ids = tt; checked = tt; linked = λ k. refl }

to_queued : Reach empty_db queued_db
to_queued = next here (enqueued 1 (pos 5) 100 100 enqueue_first)

queued-IsConsistent : IsConsistent queued_db
queued-IsConsistent = Reach-IsConsistent to_queued empty-IsConsistent

-- The claim of that job by the first worker, until 500.
first_claim : SalesImportClaim
unfolding queued_job
first_claim = claim_of 500 worker 7 10 queued_job

leased_db : Db
unfolding queued_db claim_transaction ordered
leased_db = get_db (claim_transaction 200 500 worker 7 10 nobody queued_db)
  where
    get_db : Result QueueError (Db × Option SalesImportClaim) → Db
    get_db (ok (db, c)) = db
    get_db (err e) = empty_db

claim_first :
    claim_transaction 200 500 worker 7 10 nobody queued_db ≡ ok (leased_db, some first_claim)
unfolding leased_db first_claim is_eligible
claim_first = refl

Reach-IsConsistent_example : IsConsistent leased_db
unfolding queued_db normalized_worker_id strip
Reach-IsConsistent_example =
    Reach-IsConsistent
      (next to_queued (claimed 200 500 worker worker 7 10 nobody refl refl claim_first))
      empty-IsConsistent

claim_next_job-total_example :
    (c : Option SalesImportClaim) × (db' : Db) × (claim_next_job worker
        (pos 300)
        200
        7
        10
        nobody
        nobody
        queued_db
      ≡ (ok c, db'))
    × IsConsistent db'
unfolding queued_db normalized_worker_id strip positive_duration
claim_next_job-total_example =
    claim_next_job-total worker worker (pos 300) 300 200 7 10 nobody nobody queued_db
      queued-IsConsistent refl refl (omega arith) refl

takeover_revokes_example : live_job 1 6 250 leased_db ≡ none
unfolding queued_db first_claim
takeover_revokes_example =
    takeover_revokes 200 500 worker 7 10 nobody queued_db leased_db first_claim 6 250
      queued-IsConsistent.job_keys claim_first (ground arith)

takeover_refuses_example :
    (heartbeat_job 1 (some 6) (pos 300) 250 leased_db ≡ err claim_lost)
    × (advance_attempt_phase 1 (some 6) (some Phase.download) 250 leased_db ≡ err claim_lost)
    × (schedule_retry 1 (some 6) (codes "E") (codes "m") (pos 10) (pos 20) 250 leased_db
        ≡ err claim_lost)
    × (complete_job 1 (some 6) Status.rejected none (codes "E") (codes "m") 250 leased_db
        ≡ err claim_lost)
unfolding queued_db first_claim positive_duration
takeover_refuses_example =
    takeover_refuses 200 500 worker 7 10 nobody queued_db leased_db first_claim 6 250
      queued-IsConsistent.job_keys claim_first (ground arith) (pos 300) (pos 10) (pos 20) 300
      Phase.download Status.rejected Outcome.rejected none (codes "E") (codes "m") refl refl

-- A second import's job, which is due while the first is leased out.
second_job : Job
unfolding new_job
second_job = new_job 2 5 Status.queued 150 150

-- The row of the first job under the first worker's lease.
leased_job : Job
unfolding queued_job
leased_job = lease_out 200 500 worker 7 queued_job

busy_db : Db
unfolding leased_job second_job
busy_db = record empty_db { jobs = leased_job ∷ second_job ∷ [] }

second_claim : SalesImportClaim
unfolding second_job
second_claim = claim_of 600 worker 8 11 second_job

claimed_busy_db : Db
unfolding busy_db claim_transaction ordered
claimed_busy_db = get_db (claim_transaction 250 600 worker 8 11 nobody busy_db)
  where
    get_db : Result QueueError (Db × Option SalesImportClaim) → Db
    get_db (ok (db, c)) = db
    get_db (err e) = empty_db

claim_second :
    claim_transaction 250 600 worker 8 11 nobody busy_db ≡ ok (claimed_busy_db, some second_claim)
unfolding claimed_busy_db second_claim is_eligible lease_out
claim_second = refl

live_lease_kept_example :
    (second_claim.job_id ≢ 1) × (get job_key 1 claimed_busy_db.jobs ≡ some leased_job)
unfolding busy_db second_claim lease_out
live_lease_kept_example =
    live_lease_kept 250 600 worker 8 11 nobody busy_db claimed_busy_db second_claim 7 leased_job
      (ground arith) refl refl claim_second

validate_for_iff_example :
    (validate_for Status.queued no_counts ≡ ok tt) ↔ (counts_checked Status.queued no_counts ≡ true)
validate_for_iff_example = validate_for_iff Status.queued no_counts

retry_delay-eq_example : retry_delay (pos 6) (pos 30_000_000) (pos 900_000_000) ≡ ok 900_000_000
retry_delay-eq_example = retry_delay-eq 5 30_000_000 900_000_000 (omega arith) (omega arith)

next_job_first_example :
    ((j : Job) × (next_job 250 nobody (leased_job ∷ second_job ∷ []) ≡ some j)
      × (is_claimable 250 nobody j ≡ true)
      × All
          (λ k. is_claimable 250 nobody k ≡ true → comes_before j k ≡ true)
          (leased_job ∷ second_job ∷ []))
    ⊎ ((next_job 250 nobody (leased_job ∷ second_job ∷ []) ≡ none)
        × All (λ k. is_claimable 250 nobody k ≡ false) (leased_job ∷ second_job ∷ []))
next_job_first_example = next_job_first 250 nobody (leased_job ∷ second_job ∷ [])

retried_job_example :
    (r : Job) × (retried_job 300 (codes "E") (codes "m") (pos 10) (pos 15) leased_job ≡ ok r)
    × (r.lease_token ≡ none)
    × (((1 < 5) × (r.status ≡ Status.retry_wait) × (r.available_at ≡ 310) × (r.finished_at ≡ none))
        ⊎ ((5 ≤ 1)
            × (r.status ≡ Status.failed)
            × (r.available_at ≡ 100)
            × (r.finished_at ≡ some 300)))
unfolding leased_job lease_out
retried_job_example =
    retried_job_lem 300 0 10 15 (codes "E") (codes "m") leased_job refl (omega arith) (omega arith)

leased-IsConsistent : IsConsistent leased_db
unfolding queued_db normalized_worker_id strip
leased-IsConsistent =
    Reach-IsConsistent
      (next to_queued (claimed 200 500 worker worker 7 10 nobody refl refl claim_first))
      empty-IsConsistent

-- The first attempt, before and after a renewal of its lease.
claimed_attempt : Attempt
unfolding queued_job new_attempt
claimed_attempt = new_attempt 200 worker 7 10 queued_job

renewed_attempt : Attempt
unfolding claimed_attempt
renewed_attempt = record claimed_attempt { heartbeat_at = 250 }

renewed_db : Db
unfolding leased_db
renewed_db = get_db (heartbeat_job 1 (some 7) (pos 300) 250 leased_db)
  where
    get_db : Result QueueError (Db × ℕ) → Db
    get_db (ok (db, t)) = db
    get_db (err e) = empty_db

renew_first : heartbeat_job 1 (some 7) (pos 300) 250 leased_db ≡ ok (renewed_db, 550)
unfolding leased_db renewed_db is_eligible heartbeat_job locked_live_claim positive_duration
renew_first = refl

worker_calls_pass_example :
    (renewed_attempt ≡ claimed_attempt) ⊎ (attempt_guard claimed_attempt renewed_attempt ≡ ok tt)
unfolding leased_db renewed_db claimed_attempt renewed_attempt is_eligible heartbeat_job
    locked_live_claim positive_duration
worker_calls_pass_example =
    worker_calls_pass leased_db renewed_db 10 claimed_attempt renewed_attempt
      (renewed 1 (some 7) (pos 300) 250 renew_first) leased-IsConsistent refl refl

enqueue_import_again_example :
    enqueue_import 1 (pos 9) 300 300 queued_db ≡ ok (queued_db, queued_job)
enqueue_import_again_example =
    enqueue_import_again 1 5 9 100 100 300 300 empty_db queued_db queued_job tt (omega arith)
      (omega arith) enqueue_first
