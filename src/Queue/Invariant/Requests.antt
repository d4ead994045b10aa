-- ===== src/Queue/Invariant/Requests.antt =====
-- Queueing and requeueing keep the tables consistent.
use pharma_intel.Base.{
  ℕ, ◌+◌, ◌≡◌, ◌<◌, refl, true, false, not, none, some, [], ◌∷◌, ◌||◌, arith, ok, raise_if,
  or_raise, or_raise-ok, >>=-eq-ok, inl, inr, ◌⊎◌, Option-cases, sym, ◌++◌, max,
}
use mathlib.Core.Path.{subst}
use pharma_intel.Base.Int.{ℤ, pos, negsuc, ltb_ℤ, pos_part}
use pharma_intel.Base.Table.{get, put, get-key}
use pharma_intel.Intake.Row.{SalesImport, intake_key}
use pharma_intel.Queue.Rows.{
  Job, Db, job_key, does_not_exist, value_error, queue_state, is_processing,
}
use pharma_intel.Queue.Counts.{Status}
use pharma_intel.Queue.Enqueue.{
  enqueue_import, requeue_job, new_job, advanced_job, desired_status, requeued_job,
  is_waiting_for_file, is_parked, is_failed, maximum_supported, is_retryable,
}
use pharma_intel.Queue.Checks.{job_checked}
use pharma_intel.Queue.Checks.Rows.{
  new_job-job_checked, advanced_job-job_checked, requeued_job-job_checked,
}
use pharma_intel.Queue.Invariant.{IsConsistent, IsLinked, LinkedTo}
use pharma_intel.Queue.Invariant.Saving.{save-IsLinked, insert-IsLinked}
use pharma_intel.Queue.Invariant.Takeover.{stored-LinkedTo, stored-checked, same-SameFor}
use pharma_intel.Queue.Invariant.Owned.{runs_under-none}

desired_status-kind :
    (s : SalesImport)
    → (is_waiting_for_file (desired_status s)
        || is_parked (desired_status s)
        || is_failed (desired_status s))
      ≡ true
unfolding desired_status
desired_status-kind s = ground arith

-- A row that is saved alone keeps its attempts, its attempt count and whether it is leased out.
resave-IsConsistent :
    (db : Db) (j j' : Job)
    → IsConsistent db
    → get job_key j.sales_import db.jobs ≡ some j
    → j'.sales_import ≡ j.sales_import
    → j'.attempt_count ≡ j.attempt_count
    → is_processing j'.status ≡ is_processing j.status
    → (j'.lease_token ≡ j.lease_token)
      ⊎ ((is_processing j'.status ≡ false) × (j'.lease_token ≡ none))
    → job_checked j' ≡ true
    → IsLinked (put job_key j' db.jobs) db.attempts
resave-IsConsistent db j j' v e k c p t x =
    save-IsLinked db.jobs db.attempts db.attempts j' j v
      (subst (λ (n : ℕ). get job_key n db.jobs ≡ some j) (sym k) e) x v.attempt_ids
      (subst (λ (n : ℕ). LinkedTo n (some j') db.attempts) (sym k) linked)
      (λ n h. same-SameFor n db.attempts)
  where
    old : LinkedTo j.sales_import (some j) db.attempts
    old = stored-LinkedTo 0 db j v e

    linked : LinkedTo j.sales_import (some j') db.attempts
    linked = (
      ground (arith, old, c),
      rw c (old.1),
      ground (arith, old, p),
      elim t [
        | inl q ↦ rw (q, p) (old.3)
        | inr (f, q) ↦ rw (q, f) (runs_under-none j.sales_import db.attempts)
      ],
    )

advanced_same :
    (desired : Status) (now : ℕ) (j : Job)
    → ((advanced_job desired now j).sales_import ≡ j.sales_import)
      × ((advanced_job desired now j).attempt_count ≡ j.attempt_count)
      × ((advanced_job desired now j).lease_token ≡ j.lease_token)
      × (is_processing (advanced_job desired now j).status ≡ is_processing j.status)
unfolding advanced_job
advanced_same desired now j = ground arith

module _ (id : ℕ) (now clock n : ℕ) (s : SalesImport) (db : Db) (v : IsConsistent db)
    (positive : 0 < n) where
  insert-IsConsistent :
      get job_key id db.jobs ≡ none
      → IsLinked (db.jobs ++ new_job id n (desired_status s) now clock ∷ []) db.attempts
  unfolding new_job
  insert-IsConsistent e =
      insert-IsLinked db.jobs db.attempts (new_job id n (desired_status s) now clock) v e
        (new_job-job_checked id n (desired_status s) now clock positive (desired_status-kind s))
        refl (let k = desired_status-kind s in ground (arith, k))

  advance-IsConsistent :
      (j : Job)
      → get job_key j.sales_import db.jobs ≡ some j
      → IsLinked (put job_key (advanced_job (desired_status s) now j) db.jobs) db.attempts
  advance-IsConsistent j e =
      let (k, c, t, p) = advanced_same (desired_status s) now j in
      resave-IsConsistent db j (advanced_job (desired_status s) now j) v e k c p (inl t)
        (advanced_job-job_checked (desired_status s) now j (stored-checked now db j v e))

-- Queueing succeeds on an import that is there, and keeps the tables consistent.
pub enqueue_import-IsConsistent :
    (id : ℕ) (max_attempts : ℤ) (now clock : ℕ) (db db' : Db) (j : Job)
    → IsConsistent db
    → enqueue_import id max_attempts now clock db ≡ ok (db', j)
    → IsConsistent db'
unfolding enqueue_import
enqueue_import-IsConsistent id (negsuc n) now clock db db' j v h = absurd (ground (arith, h))
enqueue_import-IsConsistent id (pos n) now clock db db' j v h =
    let (_, g, h₁) =
      >>=-eq-ok
        (raise_if (ltb_ℤ (pos n) (pos 1) || ltb_ℤ (pos maximum_supported) (pos n)) value_error) _
        h in
    let (s, _, h₂) = >>=-eq-ok (or_raise (get intake_key id db.imports) does_not_exist) _ h₁ in
    elim (Option-cases (get job_key id db.jobs)) [
      | inl e ↦
          let same : record db { jobs = db.jobs ++ new_job id n (desired_status s) now clock ∷ [] }
              ≡ db' =
            ground (arith, h₂, e) in
          subst IsConsistent same (insert-IsConsistent id now clock n s db v (ground (arith, g)) e)
      | inr (k, e) ↦
          let key : k.sales_import ≡ id = get-key job_key id k db.jobs e in
          let same : record db {
            jobs = put job_key (advanced_job (desired_status s) now k) db.jobs;
          }
              ≡ db' =
            ground (arith, h₂, e) in
          subst IsConsistent same (
            advance-IsConsistent id now clock n s db v (ground (arith, g)) k
              (subst (λ (m : ℕ). get job_key m db.jobs ≡ some k) (sym key) e))
    ]

requeued-IsConsistent :
    (now more : ℕ) (k : Job) (db : Db)
    → IsConsistent db
    → get job_key k.sales_import db.jobs ≡ some k
    → is_processing k.status ≡ false
    → 0 < more
    → IsLinked
        (put job_key (requeued_job now (max k.max_attempts k.attempt_count + more) k) db.jobs)
        db.attempts
unfolding requeued_job
requeued-IsConsistent now more k db v e p m =
    resave-IsConsistent db k (requeued_job now (max k.max_attempts k.attempt_count + more) k) v e
      refl refl (sym p) (inr (refl, refl))
      (requeued_job-job_checked now more k (stored-checked now db k v e) m)

-- The row of the job that is requeued.
requeue_read :
    (id : ℕ) (additional : ℤ) (now : ℕ) (db db' : Db) (j : Job)
    → requeue_job id additional now db ≡ ok (db', j)
    → (k : Job) × (get job_key id db.jobs ≡ some k)
      × (is_processing k.status ≡ false)
      × (0 < pos_part additional)
      × (record db {
        jobs =
            put job_key
              (requeued_job now (max k.max_attempts k.attempt_count + pos_part additional) k)
              db.jobs;
      }
          ≡ db')
unfolding requeue_job
requeue_read id additional now db db' j h =
    let (u, g, h₁) = >>=-eq-ok (raise_if (ltb_ℤ additional (pos 1)) value_error) _ h in
    let (k, e, h₂) = >>=-eq-ok (or_raise (get job_key id db.jobs) does_not_exist) _ h₁ in
    let (s, i, h₃) =
      >>=-eq-ok (or_raise (get intake_key k.sales_import db.imports) does_not_exist) _ h₂ in
    let (w, r, h₄) = >>=-eq-ok (raise_if (not (is_retryable k.status)) queue_state) _ h₃ in
    (k, or_raise-ok _ _ _ e, ground (arith, r), ground (arith, g), ground (arith, h₄))

-- Requeueing a terminal job keeps the tables consistent.
pub requeue_job-IsConsistent :
    (id : ℕ) (additional : ℤ) (now : ℕ) (db db' : Db) (j : Job)
    → IsConsistent db
    → requeue_job id additional now db ≡ ok (db', j)
    → IsConsistent db'
requeue_job-IsConsistent id additional now db db' j v h =
    let (k, e, p, m, same) = requeue_read id additional now db db' j h in
    let key : k.sales_import ≡ id = get-key job_key id k db.jobs e in
    let e' : get job_key k.sales_import db.jobs ≡ some k =
      subst (λ (n : ℕ). get job_key n db.jobs ≡ some k) (sym key) e in
    subst IsConsistent same (requeued-IsConsistent now (pos_part additional) k db v e' p m)
