-- ===== src/Processing/Failure/Laws.antt =====
-- How the attempts end whose errors `process_claim` catches.
use pharma_intel.Base.{
  ℕ, suc, ◌-◌, ◌≡◌, ◌≤◌, ◌<◌, ◌⊎◌, refl, Bool, true, false, none, some, List, arith, ok, is_some,
  inl, inr, ◌∙◌, ap, sym, leb, Bool-cases, Result-cases,
}
use mathlib.Core.Path.{subst}
use pharma_intel.Base.Text.{Text, codes}
use pharma_intel.Base.Table.{get, put, All-get, get-put_self, get-of_find}
use pharma_intel.Base.Int.{pos}
use pharma_intel.Intake.Row.{
  SalesImport, FailureCode, object_missing, verification_failed, intake_key, is_received,
}
use pharma_intel.Intake.Guard.{row_checked}
use pharma_intel.Intake.Transitions.{
  is_stored_failure, stored_failed_row, mark_stored_object_failed,
}
use pharma_intel.Intake.Transitions.Laws.{received_marked}
use pharma_intel.Queue.Counts.{Status, Counts, validate_for, counts_checked}
use pharma_intel.Queue.Counts.Laws.{validate_for_iff}
use pharma_intel.Queue.Rows.{
  Job, Attempt, Outcome, Db, job_key, attempt_key, is_processing, is_running, runs_under,
}
use pharma_intel.Queue.Checks.{job_checked}
use pharma_intel.Queue.Claim.{SalesImportClaim}
use pharma_intel.Queue.Lease.{locked_live_claim, save_both}
use pharma_intel.Queue.Finish.{
  schedule_retry, complete_job, retried_job, retried_attempt, completed_job, completed_attempt,
  checked_counts, checked_delay,
}
use pharma_intel.Queue.Invariant.{IsConsistent, LinkedTo}
use pharma_intel.Queue.Invariant.Saving.{counts_le}
use pharma_intel.Queue.Invariant.Owned.{Owns, locked_live_claim-Owns}
use pharma_intel.Queue.Outcomes.{retried_job_lem}
use pharma_intel.Processing.Failure.{
  Trouble, download_error, kms_provenance_error, not_found_error, verification_error, storage_error,
  lost, database_error, complete_stored_object_failure, of_queue, complete_failure,
  schedule_processing_retry, handle, base_delay, max_delay,
}

-- The counters of a job that is worked on pass the checks of a failed one.
processing_counts :
    (j : Job)
    → job_checked j ≡ true
    → is_processing j.status ≡ true
    → validate_for Status.failed j.counts ≡ ok tt
unfolding job_checked counts_checked
processing_counts j h p =
    let k : counts_checked j.status j.counts ≡ true = ground (arith, h) in
    (validate_for_iff Status.failed j.counts).1 (as_failed j.status j.counts k p)
  where
    as_failed :
        (s : Status) (c : Counts)
        → counts_checked s c ≡ true
        → is_processing s ≡ true
        → counts_checked Status.failed c ≡ true
    as_failed Status.processing c h p = ground (arith, h)
    as_failed s c h p = absurd (ground (arith, p))

-- What a worker with a live claim knows of the job's row.
record Worked (id token now : ℕ) (db : Db) (j : Job) (a : Attempt) : Type 0 where
  owned : Owns id token now db j a
  accepted : validate_for Status.failed j.counts ≡ ok tt
  previous : ℕ
  started : j.attempt_count ≡ suc previous

positive : (n : ℕ) → 0 < n → (m : ℕ) × (n ≡ suc m)
positive n h = (n - 1, omega (arith, h))

locked-Worked :
    (id token now : ℕ) (db : Db) (j : Job) (a : Attempt)
    → IsConsistent db
    → locked_live_claim id (some token) now db ≡ ok (j, a)
    → Worked id token now db j a
locked-Worked id token now db j a v h =
    let o = locked_live_claim-Owns id token now db j a h in
    let c = All-get job_key (λ r. job_checked r ≡ true) id j db.jobs o.stored v.checked in
    let p : is_processing j.status ≡ true = let l = o.live in ground (arith, l) in
    let l = subst (λ r. LinkedTo id r db.attempts) o.stored (v.linked id) in
    let n = counts_le id 0 none db.attempts in
    let (m, e) = positive j.attempt_count (ground (arith, l, n, p)) in
    record { owned = o; accepted = processing_counts j c p; previous = m; started = e }

-- The row that a failure leaves, and where the tables keep it.
complete_failure-eq :
    (claim : SalesImportClaim) (code message : Text) (now : ℕ) (db : Db) (j : Job) (a : Attempt)
    → get job_key claim.job_id db.jobs ≡ some j
    → locked_live_claim claim.job_id (some claim.lease_token) now db ≡ ok (j, a)
    → validate_for Status.failed j.counts ≡ ok tt
    → complete_failure claim code message now db
      ≡ ok (
        save_both
            (completed_job now Status.failed j.counts code message j)
            (completed_attempt now Status.failed Outcome.permanent_failure j.counts code message a)
            db,
        completed_job now Status.failed j.counts code message j,
      )
unfolding complete_failure complete_job checked_counts
complete_failure-eq claim code message now db j a s l c = ground (arith, s, l, c)

retry-eq :
    (claim : SalesImportClaim) (code message : Text) (now : ℕ) (db : Db) (j r : Job) (a : Attempt)
    → locked_live_claim claim.job_id (some claim.lease_token) now db ≡ ok (j, a)
    → validate_for Status.failed j.counts ≡ ok tt
    → retried_job now code message (pos base_delay) (pos max_delay) j ≡ ok r
    → schedule_processing_retry claim code message now db
      ≡ ok (save_both r (retried_attempt now code message j.counts a) db, r)
unfolding schedule_processing_retry schedule_retry checked_counts
retry-eq claim code message now db j r a l c e = ground (arith, l, c, e)

object_failure-eq :
    (claim : SalesImportClaim) (intake_code : FailureCode) (code message : Text) (now : ℕ) (db : Db)
    (imports : List SalesImport)
    → mark_stored_object_failed claim.sales_import_id intake_code now db.imports ≡ ok imports
    → complete_stored_object_failure claim intake_code code message now db
      ≡ of_queue (complete_failure claim code message now (record db { imports = imports }))
unfolding complete_stored_object_failure
object_failure-eq claim intake_code code message now db imports h = rw h refl

locked_same :
    (id token now : ℕ) (db : Db) (imports : List SalesImport)
    → locked_live_claim id (some token) now (record db { imports = imports })
      ≡ locked_live_claim id (some token) now db
unfolding locked_live_claim
locked_same id token now db imports = refl

completed-failed :
    (now : ℕ) (c : Counts) (code message : Text) (j : Job)
    → ((completed_job now Status.failed c code message j).lease_token ≡ none)
      × ((completed_job now Status.failed c code message j).status ≡ Status.failed)
unfolding completed_job
completed-failed now c code message j = (refl, refl)

-- The errors that are tried again, and those that fail the intake record as well.
abbrev pub is_retried : Trouble → Bool
is_retried (download_error message) = true
is_retried database_error = true
is_retried _ = false

abbrev pub is_lost : Trouble → Bool
is_lost lost = true
is_lost _ = false

-- How a job stands after an error: waiting for another attempt, or failed.
abbrev pub Ends : Trouble → Job → Job → Type 0
Ends e j r =
    (r.lease_token ≡ none)
    × (((is_retried e ≡ true) × (j.attempt_count < j.max_attempts) × (r.status ≡ Status.retry_wait))
        ⊎ (((is_retried e ≡ false) ⊎ (j.max_attempts ≤ j.attempt_count))
            × (r.status ≡ Status.failed)))

-- The tables hold the row of the job, and the attempt no longer runs.
abbrev pub IsSaved : ℕ → ℕ → Db → Job → Type 0
IsSaved id attempt db r =
    (get job_key id db.jobs ≡ some r)
    × ((b : Attempt) × (get attempt_key attempt db.attempts ≡ some b)
        × (is_running b.outcome ≡ false))

save_both-IsSaved :
    (id token now : ℕ) (db : Db) (j r : Job) (a b : Attempt)
    → IsConsistent db
    → Owns id token now db j a
    → r.sales_import ≡ j.sales_import
    → b.id ≡ a.id
    → is_running b.outcome ≡ false
    → IsSaved id a.id (save_both r b db) r
save_both-IsSaved id token now db j r a b v o same mine over =
    let key : r.sales_import ≡ id = same ∙ o.keyed in
    let old =
      get-of_find attempt_key (runs_under id (some token)) a db.attempts v.attempt_ids o.found in
    (
      subst (λ (n : ℕ). get job_key n (put job_key r db.jobs) ≡ some r) key
          (get-put_self job_key r j db.jobs
            (subst (λ (n : ℕ). get job_key n db.jobs ≡ some j) (sym key) o.stored)),
      (
        b,
        subst (λ (n : ℕ). get attempt_key n (put attempt_key b db.attempts) ≡ some b) mine
            (get-put_self attempt_key b a db.attempts
              (subst (λ (n : ℕ). get attempt_key n db.attempts ≡ some a) (sym mine) old)),
        over,
      ),
    )

-- The rows that end an attempt keep their keys.
completed_same :
    (now : ℕ) (c : Counts) (code message : Text) (j : Job) (a : Attempt)
    → ((completed_job now Status.failed c code message j).sales_import ≡ j.sales_import)
      × ((completed_attempt now Status.failed Outcome.permanent_failure c code message a).id ≡ a.id)
      × (is_running
            (completed_attempt now Status.failed Outcome.permanent_failure c code message a).outcome
          ≡ false)
unfolding completed_job completed_attempt
completed_same now c code message j a = (refl, refl, refl)

retried_same :
    (now : ℕ) (code message : Text) (j r : Job) (a : Attempt)
    → retried_job now code message (pos base_delay) (pos max_delay) j ≡ ok r
    → (r.sales_import ≡ j.sales_import)
      × ((retried_attempt now code message j.counts a).id ≡ a.id)
      × (is_running (retried_attempt now code message j.counts a).outcome ≡ false)
unfolding retried_job retried_attempt
retried_same now code message j r a h = elim (Bool-cases (leb j.max_attempts j.attempt_count)) [
  | inl e ↦ (ground (arith, e, h), refl, refl)
  | inr e ↦ elim (Result-cases (checked_delay j.attempt_count (pos base_delay) (pos max_delay))) [
    | inr (x, f) ↦ absurd (ground (arith, e, f, h))
    | inl (d, f) ↦ (ground (arith, e, f, h), refl, refl)
  ]
]

module _ (claim : SalesImportClaim) (now : ℕ) (db : Db) (j : Job) (a : Attempt)
    (v : IsConsistent db)
    (live : locked_live_claim claim.job_id (some claim.lease_token) now db ≡ ok (j, a)) where
  failure-Ends :
      (e : Trouble) (code message : Text) (imports : List SalesImport)
      → is_retried e ≡ false
      → (db' : Db) × (r : Job) × (complete_failure claim code message now
            (record db { imports = imports })
          ≡ ok (db', r))
        × IsSaved claim.job_id a.id db' r
        × Ends e j r
  failure-Ends e code message imports k =
      let w = locked-Worked claim.job_id claim.lease_token now db j a v live in
      let (free, failed) = completed-failed now j.counts code message j in
      let (same, mine, over) = completed_same now j.counts code message j a in
      (
        _,
        _,
        complete_failure-eq claim code message now (record db { imports = imports }) j a
            (Owns.stored w.owned) (locked_same claim.job_id claim.lease_token now db imports ∙ live)
            w.accepted,
        save_both-IsSaved claim.job_id claim.lease_token now db j
            (completed_job now Status.failed j.counts code message j) a
            (completed_attempt now Status.failed Outcome.permanent_failure j.counts code message a)
            v w.owned same mine over,
        (free, inr (inl k, failed)),
      )

  retry-Ends :
      (e : Trouble) (code message : Text)
      → is_retried e ≡ true
      → (db' : Db) × (r : Job) × (schedule_processing_retry claim code message now db ≡ ok (db', r))
        × IsSaved claim.job_id a.id db' r
        × Ends e j r
  retry-Ends e code message k =
      let w = locked-Worked claim.job_id claim.lease_token now db j a v live in
      let (r, q, free, how) =
        retried_job_lem now w.previous base_delay max_delay code message j w.started (omega arith)
          (omega arith) in
      let (same, mine, over) = retried_same now code message j r a q in
      (
        _,
        r,
        retry-eq claim code message now db j r a live w.accepted q,
        save_both-IsSaved claim.job_id claim.lease_token now db j r a
            (retried_attempt now code message j.counts a) v w.owned same mine over,
        (free, elim how [ inl x ↦ inl (k, x.0, x.1) | inr x ↦ inr (inr (x.0), x.1) ]),
      )

  object-Ends :
      (e : Trouble) (intake_code : FailureCode) (code message : Text) (s : SalesImport)
      → is_retried e ≡ false
      → get intake_key claim.sales_import_id db.imports ≡ some s
      → is_received s.status ≡ true
      → is_some s.storage_kms_key_arn ≡ true
      → row_checked s ≡ true
      → is_stored_failure intake_code ≡ true
      → (db' : Db) × (r : Job) × (complete_stored_object_failure claim intake_code code message now
            db
          ≡ ok (db', r))
        × IsSaved claim.job_id a.id db' r
        × Ends e j r
  object-Ends e intake_code code message s n there r k c f =
      let (m, _) =
        received_marked claim.sales_import_id now db.imports s there c intake_code k r f in
      let (db', x, q, z, w) =
        failure-Ends e code message
          (put intake_key (stored_failed_row intake_code now s) db.imports) n in
      (
        db',
        x,
        object_failure-eq claim intake_code code message now db
              (put intake_key (stored_failed_row intake_code now s) db.imports) m
            ∙ ap of_queue q,
        z,
        w,
      )

  -- Every error of a class that `process_claim` catches, but a lost claim, ends the lease, and the
  -- handling itself does not raise, where the claim is live, the tables are consistent and the import
  -- is a received one with a key that passes its constraints. The job waits for another attempt
  -- after a failed download or an error of the database while its budget lasts, and has failed in
  -- every other case; the tables hold its row, and the attempt no longer runs.
  pub handle-Ends :
      (e : Trouble) (s : SalesImport)
      → is_lost e ≡ false
      → get intake_key claim.sales_import_id db.imports ≡ some s
      → is_received s.status ≡ true
      → is_some s.storage_kms_key_arn ≡ true
      → row_checked s ≡ true
      → (db' : Db) × (r : Job) × (handle claim e now db ≡ ok (db', r))
        × IsSaved claim.job_id a.id db' r
        × Ends e j r
  unfolding handle
  handle-Ends (download_error message) s h there r k c =
      let (db', x, q, z, w) =
        retry-Ends (download_error message) (codes "S3_DOWNLOAD_RETRYABLE") message refl in
      (db', x, ap of_queue q, z, w)
  handle-Ends (kms_provenance_error message) s h there r k c =
      let (db', x, q, z, w) =
        failure-Ends (kms_provenance_error message) (codes "KMS_PROVENANCE_MISSING") message
          db.imports refl in
      (db', x, ap of_queue q, z, w)
  handle-Ends (not_found_error message) s h there r k c =
      object-Ends (not_found_error message) object_missing (codes "S3_VERSION_NOT_FOUND") message s
        refl there r k c refl
  handle-Ends (verification_error message) s h there r k c =
      object-Ends (verification_error message) verification_failed (codes "S3_VERIFICATION_FAILED")
        message s refl there r k c refl
  handle-Ends (storage_error message) s h there r k c =
      let (db', x, q, z, w) =
        failure-Ends (storage_error message) (codes "S3_CONFIGURATION_ERROR") message db.imports
          refl in
      (db', x, ap of_queue q, z, w)
  handle-Ends lost s h there r k c = absurd (ground (arith, h))
  handle-Ends database_error s h there r k c =
      let (db', x, q, z, w) =
        retry-Ends database_error (codes "DATABASE_RETRYABLE")
          (codes "A transient database error interrupted processing.") refl in
      (db', x, ap of_queue q, z, w)
