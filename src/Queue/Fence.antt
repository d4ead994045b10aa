-- ===== src/Queue/Fence.antt =====
-- The lease token as a fence: who may still write once a lease has run out or was taken over.
use pharma_intel.Base.{
  ℕ, ◌≡◌, ◌≢◌, Bool, true, false, Option, none, some, arith, ok, err, sym, inl, inr, Option-cases,
  ◌∙◌,
}
use mathlib.Core.Path.{subst}
use mathlib.Core.Option.{some-injective}
use pharma_intel.Base.Int.{ℤ}
use pharma_intel.Base.Text.{Text}
use pharma_intel.Base.Table.{get, put, Unique, get-put_self, get-put_ne, All-stored}
use pharma_intel.Queue.Counts.{Status, Counts}
use pharma_intel.Queue.Rows.{Job, Phase, Outcome, Db, claim_lost, job_key}
use pharma_intel.Queue.Claim.{
  SalesImportClaim, positive_duration, next_job, is_claimable, is_cleanable, is_eligible,
  is_exhausted, lease_out,
}
use pharma_intel.Queue.Claim.Selection.{next_job-All}
use pharma_intel.Queue.Claiming.{claim_transaction}
use pharma_intel.Queue.Lease.{
  live_job, is_live, locked_live_claim, heartbeat_job, advance_attempt_phase,
}
use pharma_intel.Queue.Finish.{schedule_retry, complete_job, terminal_outcome}

-- What a successful claim leaves in the table.
claimed_row :
    (now until : ℕ) (worker : Text) (token id : ℕ) (locked : ℕ → Bool) (db db' : Db)
    (c : SalesImportClaim)
    → Unique job_key db.jobs
    → claim_transaction now until worker token id locked db ≡ ok (db', some c)
    → (j : Job) × (get job_key j.sales_import db.jobs ≡ some j)
      × (is_claimable now locked j ≡ true)
      × (c.job_id ≡ j.sales_import)
      × (db'.jobs ≡ put job_key (lease_out now until worker token j) db.jobs)
unfolding claim_transaction
claimed_row now until worker token id locked db db' c u h =
    elim (Option-cases (next_job now locked db.jobs)) [
      | inl e ↦ absurd (ground (arith, e, h))
      | inr (j, e) ↦
          let (stored, can) =
            next_job-All (λ r. get job_key r.sales_import db.jobs ≡ some r) now locked db.jobs j
              (All-stored job_key db.jobs u) e in
          (j, stored, can, ground (arith, e, h), ground (arith, e, h))
    ]

-- A claim revokes the lease that it takes over: afterwards no other token is live on the job, at
-- any time, so that no call under such a token passes the fence.
pub takeover_revokes :
    (now until : ℕ) (worker : Text) (token id : ℕ) (locked : ℕ → Bool) (db db' : Db)
    (c : SalesImportClaim) (stale later : ℕ)
    → Unique job_key db.jobs
    → claim_transaction now until worker token id locked db ≡ ok (db', some c)
    → stale ≢ token
    → live_job c.job_id stale later db' ≡ none
unfolding live_job lease_out
takeover_revokes now until worker token id locked db db' c stale later u h n =
    let (j, stored, can, k, w) = claimed_row now until worker token id locked db db' c u h in
    let row : get job_key c.job_id db'.jobs ≡ some (lease_out now until worker token j) =
      rw (k, w) (get-put_self job_key (lease_out now until worker token j) j db.jobs stored) in
    ground (arith, row)

-- The four calls that a worker makes end at the fence where its token holds no live lease.
stale_calls_fail :
    (id token now : ℕ) (db : Db) (duration base maximum : ℤ) (lease : ℕ) (p : Phase) (s : Status)
    (o : Outcome) (counts : Option Counts) (code message : Text)
    → live_job id token now db ≡ none
    → positive_duration duration ≡ ok lease
    → terminal_outcome s ≡ some o
    → (heartbeat_job id (some token) duration now db ≡ err claim_lost)
      × (advance_attempt_phase id (some token) (some p) now db ≡ err claim_lost)
      × (schedule_retry id (some token) code message base maximum now db ≡ err claim_lost)
      × (complete_job id (some token) s counts code message now db ≡ err claim_lost)
unfolding heartbeat_job advance_attempt_phase schedule_retry complete_job locked_live_claim
stale_calls_fail id token now db duration base maximum lease p s o counts code message l d t =
    (ground (arith, l, d), ground (arith, l), ground (arith, l), ground (arith, l, t))

-- After a claim, a worker with another token can no longer renew the lease of that job, move its
-- phase, schedule a retry or complete it: each of these calls raises `SalesImportClaimLost`, at any
-- time, for every lease duration that is positive and every status that is terminal.
pub takeover_refuses :
    (now until : ℕ) (worker : Text) (token id : ℕ) (locked : ℕ → Bool) (db db' : Db)
    (c : SalesImportClaim) (stale later : ℕ)
    → Unique job_key db.jobs
    → claim_transaction now until worker token id locked db ≡ ok (db', some c)
    → stale ≢ token
    → (duration base maximum : ℤ) (lease : ℕ) (p : Phase) (s : Status) (o : Outcome)
      (counts : Option Counts) (code message : Text)
    → positive_duration duration ≡ ok lease
    → terminal_outcome s ≡ some o
    → (heartbeat_job c.job_id (some stale) duration later db' ≡ err claim_lost)
      × (advance_attempt_phase c.job_id (some stale) (some p) later db' ≡ err claim_lost)
      × (schedule_retry c.job_id (some stale) code message base maximum later db' ≡ err claim_lost)
      × (complete_job c.job_id (some stale) s counts code message later db' ≡ err claim_lost)
takeover_refuses now until worker token id locked db db' c stale later u h n duration base maximum
      lease p s o counts code message =
    stale_calls_fail c.job_id stale later db' duration base maximum lease p s o counts code message
      (takeover_revokes now until worker token id locked db db' c stale later u h n)

live_not_claimable :
    (now token : ℕ) (locked : ℕ → Bool) (j : Job)
    → is_live now token j ≡ true
    → (is_claimable now locked j ≡ false) × (is_cleanable now locked j ≡ false)
unfolding is_eligible is_exhausted
live_not_claimable now token locked j h = (ground arith, ground arith)

-- Mutual exclusion: while a lease is live, no claim touches the row of its job, whatever else the
-- claim takes.
pub live_lease_kept :
    (now until : ℕ) (worker : Text) (token id : ℕ) (locked : ℕ → Bool) (db db' : Db)
    (c : SalesImportClaim) (held : ℕ) (j : Job)
    → Unique job_key db.jobs
    → get job_key j.sales_import db.jobs ≡ some j
    → is_live now held j ≡ true
    → claim_transaction now until worker token id locked db ≡ ok (db', some c)
    → (c.job_id ≢ j.sales_import) × (get job_key j.sales_import db'.jobs ≡ some j)
unfolding lease_out
live_lease_kept now until worker token id locked db db' c held j u stored live h =
    let (k, held_row, can, e, w) = claimed_row now until worker token id locked db db' c u h in
    let other : j.sales_import ≢ k.sales_import = λ same.
      let row : k ≡ j =
        some-injective k j
          (sym held_row ∙ subst (λ (n : ℕ). get job_key n db.jobs ≡ some j) same stored) in
      let free : is_claimable now locked j ≡ true =
        subst (λ r. is_claimable now locked r ≡ true) row can in
      cc (free, (live_not_claimable now held locked j live).0) in
    (
      (λ same. other (sym same ∙ e)),
      rw w (
          get-put_ne job_key (lease_out now until worker token k) j.sales_import db.jobs other
          ∙ stored),
    )
