-- ===== src/Queue/Steps.antt =====
-- The transactions of sales_imports/queue.py as steps on the tables, in any order and by any number
-- of workers. Row locks make each transaction one step; the rows that others hold at that moment
-- are the `locked` of a step.
use pharma_intel.Base.{
  ℕ, ◌+◌, ◌≡◌, Bool, true, false, not, Option, none, some, arith, ok, >>=-eq-ok, raise_if, inl, inr,
  Option-cases, ltb, leb, length, &&-split, ◌≤◌,
}
use mathlib.Core.Path.{subst}
use pharma_intel.Base.Int.{ℤ}
use pharma_intel.Base.Text.{Text, strip, strip-IsTrimmed, is_empty}
use pharma_intel.Base.Table.{get, All-stored}
use pharma_intel.Queue.Counts.{Status, Counts}
use pharma_intel.Queue.Rows.{Job, Phase, Db, job_key, attempt_key, value_error}
use pharma_intel.Queue.Claim.{
  SalesImportClaim, normalized_worker_id, positive_duration, mark_exhausted_batch, next_job,
  is_eligible,
}
use pharma_intel.Queue.Claim.Selection.{next_job-All}
use pharma_intel.Queue.Claiming.{
  claim_transaction, claim_for, claim_next_job, claim_of, latest_time,
}
use pharma_intel.Queue.Lease.{heartbeat_job, advance_attempt_phase}
use pharma_intel.Queue.Finish.{schedule_retry, complete_job}
use pharma_intel.Queue.Enqueue.{enqueue_import, requeue_job}
use pharma_intel.Queue.Checks.{equals_trim}
use pharma_intel.Queue.Checks.Rows.{equals_trim_of_trimmed}
use pharma_intel.Queue.Invariant.{IsConsistent}
use pharma_intel.Queue.Invariant.Claims.{claim_job-IsConsistent, claimed_db}
use pharma_intel.Queue.Invariant.Cleanup.{mark_exhausted_batch-IsConsistent}
use pharma_intel.Queue.Invariant.Requests.{enqueue_import-IsConsistent, requeue_job-IsConsistent}
use pharma_intel.Queue.Invariant.Workers.{
  heartbeat_job-IsConsistent, advance_attempt_phase-IsConsistent, schedule_retry-IsConsistent,
  complete_job-IsConsistent,
}

-- A worker's name is not blank and has no blank at an end.
normalized_worker_id-named :
    (raw worker : Text)
    → normalized_worker_id raw ≡ ok worker
    → (is_empty worker ≡ false) × (equals_trim worker ≡ true)
unfolding normalized_worker_id
normalized_worker_id-named raw worker h =
    let (u, e, h₁) = >>=-eq-ok (raise_if (is_empty (strip raw)) value_error) _ h in
    let (w, g, h₂) = >>=-eq-ok (raise_if (ltb 255 (length (strip raw))) value_error) _ h₁ in
    let same : strip raw ≡ worker = ground (arith, h₂) in
    subst (λ t. (is_empty t ≡ false) × (equals_trim t ≡ true)) same
      (ground (arith, e), equals_trim_of_trimmed (strip raw) (strip-IsTrimmed raw))

module _ (now until : ℕ) (raw worker : Text) (token id : ℕ) (locked : ℕ → Bool) (db : Db)
    (v : IsConsistent db) (named : normalized_worker_id raw ≡ ok worker)
    (fresh : get attempt_key id db.attempts ≡ none) where
  -- The claim transaction succeeds, with a claim or without.
  claim_transaction-IsConsistent :
      (db' : Db) × (c : Option SalesImportClaim) × (claim_transaction now until worker token id
          locked db
        ≡ ok (db', c))
      × IsConsistent db'
  unfolding claim_transaction
  claim_transaction-IsConsistent = elim (Option-cases (next_job now locked db.jobs)) [
    | inl e ↦ (db, none, ground (arith, e), v)
    | inr (j, e) ↦
        let (stored, can) =
          next_job-All (λ r. get job_key r.sales_import db.jobs ≡ some r) now locked db.jobs j
            (All-stored job_key db.jobs v.job_keys) e in
        let good : is_eligible now j ≡ true =
          (&&-split (not (locked j.sales_import)) (is_eligible now j) can).1 in
        let (full, trimmed) = normalized_worker_id-named raw worker named in
        let (ys, c, w) =
          claim_job-IsConsistent now until worker token id db j v stored good full trimmed fresh in
        (
          claimed_db now until worker token id db j v stored good full trimmed fresh ys,
          some (claim_of until worker token id j),
          ground (arith, e, c),
          w,
        )
  ]

-- One transaction of the queue.
pub data Step : Db → Db → Type 0 where
  cleaned :
      {db db' : Db} {n : ℕ} (now : ℕ) (locked : ℕ → Bool)
      → mark_exhausted_batch now locked db ≡ ok (db', n)
      → Step db db'
  claimed :
      {db db' : Db} {c : Option SalesImportClaim} (now until : ℕ) (raw worker : Text) (token id : ℕ)
      (locked : ℕ → Bool)
      → normalized_worker_id raw ≡ ok worker
      → get attempt_key id db.attempts ≡ none
      → claim_transaction now until worker token id locked db ≡ ok (db', c)
      → Step db db'
  renewed :
      {db db' : Db} {t : ℕ} (id : ℕ) (token : Option ℕ) (duration : ℤ) (now : ℕ)
      → heartbeat_job id token duration now db ≡ ok (db', t)
      → Step db db'
  advanced :
      {db db' : Db} (id : ℕ) (token : Option ℕ) (phase : Option Phase) (now : ℕ)
      → advance_attempt_phase id token phase now db ≡ ok db'
      → Step db db'
  retried :
      {db db' : Db} {j : Job} (id : ℕ) (token : Option ℕ) (code message : Text) (base maximum : ℤ)
      (now : ℕ)
      → schedule_retry id token code message base maximum now db ≡ ok (db', j)
      → Step db db'
  completed :
      {db db' : Db} {j : Job} (id : ℕ) (token : Option ℕ) (s : Status) (counts : Option Counts)
      (code message : Text) (now : ℕ)
      → complete_job id token s counts code message now db ≡ ok (db', j)
      → Step db db'
  enqueued :
      {db db' : Db} {j : Job} (id : ℕ) (attempts : ℤ) (now clock : ℕ)
      → enqueue_import id attempts now clock db ≡ ok (db', j)
      → Step db db'
  requeued :
      {db db' : Db} {j : Job} (id : ℕ) (additional : ℤ) (now : ℕ)
      → requeue_job id additional now db ≡ ok (db', j)
      → Step db db'

pub data Reach (start : Db) : Db → Type 0 where
  here : Reach start start
  next : {db db' : Db} → Reach start db → Step db db' → Reach start db'

Step-IsConsistent : {db db' : Db} → Step db db' → IsConsistent db → IsConsistent db'
Step-IsConsistent {db} {db'} (cleaned {n = n} now locked h) v =
    let (d, e, w, _) = mark_exhausted_batch-IsConsistent now locked db v in
    let same : d ≡ db' = ground (arith, e, h) in subst IsConsistent same w
Step-IsConsistent {db} {db'} (claimed now until raw worker token id locked n f h) v =
    let (d, c, e, w) =
      claim_transaction-IsConsistent now until raw worker token id locked db v n f in
    let same : d ≡ db' = ground (arith, e, h) in subst IsConsistent same w
Step-IsConsistent {db} {db'} (renewed {t = t} id token duration now h) v =
    heartbeat_job-IsConsistent id token duration now db db' t v h
Step-IsConsistent {db} {db'} (advanced id token phase now h) v =
    advance_attempt_phase-IsConsistent id token phase now db db' v h
Step-IsConsistent {db} {db'} (retried {j = j} id token code message base maximum now h) v =
    schedule_retry-IsConsistent id token code message base maximum now db db' j v h
Step-IsConsistent {db} {db'} (completed {j = j} id token s counts code message now h) v =
    complete_job-IsConsistent id token s counts code message now db db' j v h
Step-IsConsistent {db} {db'} (enqueued {j = j} id attempts now clock h) v =
    enqueue_import-IsConsistent id attempts now clock db db' j v h
Step-IsConsistent {db} {db'} (requeued {j = j} id additional now h) v =
    requeue_job-IsConsistent id additional now db db' j v h

-- Whatever transactions of the queue follow one another from consistent tables, the tables stay
-- consistent: every job row passes the CHECK constraints, each job has as many attempts as its
-- count says and none numbered above it, and exactly the leased jobs have a running attempt, one
-- each, under the lease token of the row.
pub Reach-IsConsistent : {start db : Db} → Reach start db → IsConsistent start → IsConsistent db
Reach-IsConsistent here v = v
Reach-IsConsistent (next r s) v = Step-IsConsistent s (Reach-IsConsistent r v)

-- From consistent tables `claim_next_job` returns without an error for every worker name and lease
-- duration that it accepts and a fresh attempt key, if the lease ends by the last time that Python
-- has, with a claim or with none, and leaves the tables consistent. A name is taken to be a text that
-- the database stores, without the character NUL.
pub claim_next_job-total :
    (raw worker : Text) (duration : ℤ) (lease now token id : ℕ) (locked locked' : ℕ → Bool)
    (db : Db)
    → IsConsistent db
    → normalized_worker_id raw ≡ ok worker
    → positive_duration duration ≡ ok lease
    → now + lease ≤ latest_time
    → get attempt_key id db.attempts ≡ none
    → (c : Option SalesImportClaim) × (db' : Db) × (claim_next_job raw duration now token id locked
          locked' db
        ≡ (ok c, db'))
      × IsConsistent db'
unfolding claim_next_job claim_for
claim_next_job-total raw worker duration lease now token id locked locked' db v n d l f =
    let (db₁, e, w, k) = mark_exhausted_batch-IsConsistent now locked db v in
    let (db₂, c, e₂, w₂) =
      claim_transaction-IsConsistent now (now + lease) raw worker token id locked' db₁ w n
        (k id f) in
    let early : leb (now + lease) latest_time ≡ true = ground (arith, l) in
    (c, db₂, ground (arith, n, d, e, e₂, early), w₂)
