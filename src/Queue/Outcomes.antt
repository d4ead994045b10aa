-- ===== src/Queue/Outcomes.antt =====
-- What the calls of the queue do: the retry after a failure, and queueing twice.
use pharma_intel.Base.{
  ℕ, suc, ◌+◌, ◌*◌, ◌^◌, min, ◌≡◌, ◌≤◌, ◌<◌, refl, none, some, [], ◌∷◌, ◌++◌, ◌||◌, arith, ok, sym,
  inl, inr, Option-cases, Bool-cases, ◌∙◌, leb, ◌⊎◌, >>=-eq-ok, or_raise, or_raise-ok, raise_if,
}
use mathlib.Core.Path.{subst, subst₂}
use pharma_intel.Base.Int.{pos, ltb_ℤ}
use pharma_intel.Base.Text.{Text}
use pharma_intel.Base.Table.{
  get, put, Unique, get-put_self, put-get_self, get-append_new, get-key, put-Unique,
  Unique-append_new,
}
use pharma_intel.Intake.Row.{SalesImport, intake_key}
use pharma_intel.Queue.Counts.{Status}
use pharma_intel.Queue.Delay.Laws.{retry_delay-eq}
use pharma_intel.Queue.Rows.{Job, Db, value_error, does_not_exist, job_key}
use pharma_intel.Queue.Finish.{retried_job, checked_delay, failed_job, noted_job, waiting_job}
use pharma_intel.Queue.Delay.{retry_delay}
use pharma_intel.Queue.Enqueue.{
  enqueue_import, desired_status, advanced_job, new_job, maximum_supported,
}

-- A retryable failure of an attempt within the budget, with positive delays, sends the job to wait:
-- it is due again after `base * 2 ** (attempt - 1)` microseconds, capped at the maximum. At the
-- budget's end the job fails for good, and its due time stays. Either way the lease is given up.
pub retried_job_lem :
    (now n b m : ℕ) (code message : Text) (j : Job)
    → j.attempt_count ≡ suc n
    → 0 < b
    → 0 < m
    → (r : Job) × (retried_job now code message (pos b) (pos m) j ≡ ok r)
      × (r.lease_token ≡ none)
      × (((j.attempt_count < j.max_attempts)
            × (r.status ≡ Status.retry_wait)
            × (r.available_at ≡ now + min (b * 2 ^ n) m)
            × (r.finished_at ≡ none))
          ⊎ ((j.max_attempts ≤ j.attempt_count)
              × (r.status ≡ Status.failed)
              × (r.available_at ≡ j.available_at)
              × (r.finished_at ≡ some now)))
unfolding retried_job checked_delay
retried_job_lem now n b m code message j e hb hm =
    elim (Bool-cases (leb j.max_attempts j.attempt_count)) [
      | inl over ↦ (
        failed_job now (noted_job code message j),
        ground (arith, over),
        refl,
        inr (ground (arith, over), refl, refl, refl),
      )
      | inr within ↦
          let d =
            subst (λ (k : ℕ). retry_delay (pos k) (pos b) (pos m) ≡ ok (min (b * 2 ^ n) m)) (sym e)
              (retry_delay-eq n b m hb hm) in
          (
            waiting_job now (min (b * 2 ^ n) m) (noted_job code message j),
            ground (arith, within, d),
            refl,
            inl (ground (arith, within), refl, refl, refl),
          )
    ]

-- A job that was put to its import's status stays as it is.
advanced_job_again :
    (s : SalesImport) (now later : ℕ) (j : Job)
    → advanced_job (desired_status s) later (advanced_job (desired_status s) now j)
      ≡ advanced_job (desired_status s) now j
unfolding advanced_job desired_status
advanced_job_again s now later j = ground arith

new_job_again :
    (s : SalesImport) (id n now clock later : ℕ)
    → advanced_job (desired_status s) later (new_job id n (desired_status s) now clock)
      ≡ new_job id n (desired_status s) now clock
unfolding advanced_job desired_status new_job
new_job_again s id n now clock later = ground arith

-- What queueing leaves behind: the row of the import's job, which further queueing leaves alone.
record Settled (id : ℕ) (db : Db) (j : Job) : Type 0 where
  intake : SalesImport
  present : get intake_key id db.imports ≡ some intake
  row : get job_key id db.jobs ≡ some j
  keyed : j.sales_import ≡ id
  steady : (later : ℕ) → advanced_job (desired_status intake) later j ≡ j
  keys : Unique job_key db.jobs

insert-Settled :
    (id n now clock : ℕ) (db : Db) (s : SalesImport)
    → Unique job_key db.jobs
    → get intake_key id db.imports ≡ some s
    → get job_key id db.jobs ≡ none
    → let j = new_job id n (desired_status s) now clock in
      Settled id (record db { jobs = db.jobs ++ j ∷ [] }) j
unfolding new_job
insert-Settled id n now clock db s u i e = record {
  intake = s;
  present = i;
  row =
      ground
        (arith, e, get-append_new job_key id (new_job id n (desired_status s) now clock) db.jobs);
  keyed = refl;
  steady = λ later. new_job_again s id n now clock later;
  keys = Unique-append_new job_key _ db.jobs u e;
}

advanced_key :
    (d : Status) (now : ℕ) (j : Job) → (advanced_job d now j).sales_import ≡ j.sales_import
unfolding advanced_job
advanced_key d now j = ground arith

advance-Settled :
    (id now : ℕ) (db : Db) (s : SalesImport) (k : Job)
    → Unique job_key db.jobs
    → get intake_key id db.imports ≡ some s
    → get job_key id db.jobs ≡ some k
    → let j = advanced_job (desired_status s) now k in
      Settled id (record db { jobs = put job_key j db.jobs }) j
advance-Settled id now db s k u i e =
    let j = advanced_job (desired_status s) now k in
    let same : j.sales_import ≡ id =
      advanced_key (desired_status s) now k ∙ get-key job_key id k db.jobs e in
    let old : get job_key j.sales_import db.jobs ≡ some k =
      subst (λ (n : ℕ). get job_key n db.jobs ≡ some k) (sym same) e in
    record {
      intake = s;
      present = i;
      row =
          subst (λ (n : ℕ). get job_key n (put job_key j db.jobs) ≡ some j) same
            (get-put_self job_key j k db.jobs old);
      keyed = same;
      steady = λ later. advanced_job_again s now later k;
      keys = put-Unique job_key j db.jobs u;
    }

enqueue_import-Settled :
    (id n now clock : ℕ) (db db' : Db) (j : Job)
    → Unique job_key db.jobs
    → enqueue_import id (pos n) now clock db ≡ ok (db', j)
    → Settled id db' j
unfolding enqueue_import
enqueue_import-Settled id n now clock db db' j u h =
    let (_, g, h₁) =
      >>=-eq-ok
        (raise_if (ltb_ℤ (pos n) (pos 1) || ltb_ℤ (pos maximum_supported) (pos n)) value_error) _
        h in
    let (s, i, h₂) = >>=-eq-ok (or_raise (get intake_key id db.imports) does_not_exist) _ h₁ in
    let i' : get intake_key id db.imports ≡ some s = or_raise-ok _ _ _ i in
    elim (Option-cases (get job_key id db.jobs)) [
      | inl e ↦
          let j₀ = new_job id n (desired_status s) now clock in
          let d : record db { jobs = db.jobs ++ j₀ ∷ [] } ≡ db' = ground (arith, h₂, e) in
          let r : j₀ ≡ j = ground (arith, h₂, e) in
          subst₂ (Settled id) d r (insert-Settled id n now clock db s u i' e)
      | inr (k, e) ↦
          let j₀ = advanced_job (desired_status s) now k in
          let d : record db { jobs = put job_key j₀ db.jobs } ≡ db' = ground (arith, h₂, e) in
          let r : j₀ ≡ j = ground (arith, h₂, e) in
          subst₂ (Settled id) d r (advance-Settled id now db s k u i' e)
    ]

-- Queueing an import twice, while its status stays, gives the same job and the same tables as
-- queueing it once, whatever the times and the second attempt limit are.
pub enqueue_import_again :
    (id n m now clock later clock' : ℕ) (db db' : Db) (j : Job)
    → Unique job_key db.jobs
    → 0 < m
    → m ≤ 32_767
    → enqueue_import id (pos n) now clock db ≡ ok (db', j)
    → enqueue_import id (pos m) later clock' db' ≡ ok (db', j)
unfolding enqueue_import
enqueue_import_again id n m now clock later clock' db db' j u p q h =
    let x = enqueue_import-Settled id n now clock db db' j u h in
    let keep : put job_key j db'.jobs ≡ db'.jobs =
      put-get_self job_key j db'.jobs x.keys
        (subst (λ (k : ℕ). get job_key k db'.jobs ≡ some j) (sym x.keyed) x.row) in
    ground (arith, x.present, x.row, x.steady later, keep)
