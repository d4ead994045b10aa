-- ===== src/Queue/Invariant.antt =====
-- The invariant of the queue's tables: what sales_imports/queue.py relies on between two
-- transactions.
pub mod Counting
pub mod Saving
pub mod Owned
pub mod Takeover
pub mod Claims
pub mod Cleanup
pub mod Requests
pub mod Workers
use pharma_intel.Base.{
  ℕ, ◌+◌, ◌≡◌, Bool, true, Option, none, some, List, ◌&&◌, ◌==◌, ltb, bit, count, All,
}
use pharma_intel.Base.Table.{get, Unique}
use pharma_intel.Queue.Rows.{
  Job, Attempt, Db, job_key, attempt_key, is_processing, of_job, runs_for, runs_under,
}
use pharma_intel.Queue.Checks.{job_checked}

-- The attempts of the job `k` that are numbered above `n`.
abbrev pub above : ℕ → ℕ → Attempt → Bool
above k n a = (a.job == k) && ltb n a.attempt_number

-- What the attempts of the job `k` have to do with its row: one attempt for each number up to the
-- job's count, one running attempt exactly if the job is leased out, and that one under its token.
abbrev pub LinkedTo : ℕ → Option Job → List Attempt → Type 0
LinkedTo k none attempts = count (of_job k) attempts ≡ 0
LinkedTo k (some j) attempts =
    (count (of_job k) attempts ≡ j.attempt_count)
    × (count (above k j.attempt_count) attempts ≡ 0)
    × (count (runs_for k) attempts ≡ bit (is_processing j.status))
    × (count (runs_under k j.lease_token) attempts ≡ bit (is_processing j.status))

pub record IsLinked (jobs : List Job) (attempts : List Attempt) : Type 0 where
  pub job_keys : Unique job_key jobs
  pub attempt_ids : Unique attempt_key attempts
  pub checked : All (λ j. job_checked j ≡ true) jobs
  pub linked : (k : ℕ) → LinkedTo k (get job_key k jobs) attempts

abbrev pub IsConsistent : Db → Type 0
IsConsistent db = IsLinked db.jobs db.attempts
