-- ===== src/Queue/Invariant/Claims.antt =====
-- A claim keeps the tables consistent, and never fails on them.
use pharma_intel.Base.{ℕ, ◌≡◌, true, false, none, some, List, [], ◌∷◌, ◌++◌, arith, ok}
use pharma_intel.Base.Text.{Text, is_empty}
use pharma_intel.Base.Table.{get, put, Unique-append_new}
use pharma_intel.Queue.Rows.{Job, Attempt, Db, job_key, attempt_key}
use pharma_intel.Queue.Claim.{is_eligible, lease_out, new_attempt}
use pharma_intel.Queue.Claiming.{claim_job, claim_of}
use pharma_intel.Queue.Checks.{equals_trim}
use pharma_intel.Queue.Checks.Rows.{lease_out-job_checked}
use pharma_intel.Queue.Invariant.{IsConsistent}
use pharma_intel.Queue.Invariant.Counting.{SameFor, append-SameFor}
use pharma_intel.Queue.Invariant.Saving.{save-IsLinked}
use pharma_intel.Queue.Invariant.Takeover.{
  Ended, finish_if_processing-Ended, stored-LinkedTo, stored-checked, insert_attempt-passes,
  lease_out-LinkedTo,
}

both-SameFor :
    (k : ℕ) (xs ys zs : List Attempt) → SameFor k xs ys → SameFor k ys zs → SameFor k xs zs
both-SameFor k xs ys zs s t = record {
  owned = omega (arith, s.owned, t.owned);
  numbered = λ n. omega (arith, s.numbered n, t.numbered n);
  running = omega (arith, s.running, t.running);
  held = λ u. omega (arith, s.held u, t.held u);
}

module _ (now until : ℕ) (worker : Text) (token id : ℕ) (db : Db) (j : Job) (v : IsConsistent db)
    (stored : get job_key j.sales_import db.jobs ≡ some j) (eligible : is_eligible now j ≡ true)
    (named : is_empty worker ≡ false) (trimmed : equals_trim worker ≡ true)
    (fresh : get attempt_key id db.attempts ≡ none) where
  -- The tables after the claim of the job `j`.
  abbrev pub claimed_db : List Attempt → Db
  claimed_db ys = record db {
    jobs = put job_key (lease_out now until worker token j) db.jobs;
    attempts = ys ++ new_attempt now worker token id j ∷ [];
  }

  pub claimed-IsConsistent :
      (ys : List Attempt) → Ended j db.attempts ys → IsConsistent (claimed_db ys)
  unfolding lease_out new_attempt
  claimed-IsConsistent ys d =
      save-IsLinked db.jobs db.attempts _ (lease_out now until worker token j) j v stored
        (lease_out-job_checked now until worker token j (stored-checked now db j v stored) eligible
          named trimmed)
        (Unique-append_new attempt_key _ ys d.ids (d.fresh id fresh))
        (lease_out-LinkedTo now until worker token id j db.attempts ys d)
        (λ k h.
          both-SameFor k db.attempts ys _ (d.others k h)
            (append-SameFor k (new_attempt now worker token id j) ys (λ e. ground arith)))

  -- The claim of an eligible stored job succeeds: it writes the lease and the new attempt.
  pub claim_job-IsConsistent :
      (ys : List Attempt) × (claim_job now until worker token id j db
        ≡ ok (claimed_db ys, some (claim_of until worker token id j)))
      × IsConsistent (claimed_db ys)
  unfolding claim_job
  claim_job-IsConsistent =
      let (ys, e, d) =
        finish_if_processing-Ended now j db.attempts v.attempt_ids
          (stored-LinkedTo now db j v stored) in
      (
        ys,
        ground (arith, e, insert_attempt-passes now until worker token id j db.attempts ys d fresh),
        claimed-IsConsistent ys d,
      )
