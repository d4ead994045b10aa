-- ===== src/Queue/Invariant/Workers.antt =====
-- The calls of a worker keep the tables consistent.
use pharma_intel.Base.{
  ℕ, ◌+◌, ◌≡◌, refl, true, Option, none, some, arith, ok, >>=-eq-ok, inl, inr, or_raise,
  or_raise-ok, Result-cases,
}
use mathlib.Core.Path.{subst, sym}
use pharma_intel.Base.Int.{ℤ}
use pharma_intel.Base.Text.{Text}
use pharma_intel.Base.Table.{get, put, All-get, put-get_self}
use pharma_intel.Queue.Counts.{Status, Counts, counts_checked, validate_for}
use pharma_intel.Queue.Counts.Laws.{validate_for_iff}
use pharma_intel.Queue.Rows.{Job, Attempt, Phase, Outcome, Db, job_key, attempt_key, value_error}
use pharma_intel.Queue.Checks.{job_checked}
use pharma_intel.Queue.Checks.Rows.{
  heartbeat-job_checked, retried_job-job_checked, completed_job-job_checked,
}
use pharma_intel.Queue.Claim.{positive_duration}
use pharma_intel.Queue.Lease.{locked_live_claim, heartbeat_job, advance_attempt_phase, save_both}
use pharma_intel.Queue.Finish.{
  schedule_retry, complete_job, retried_job, retried_attempt, completed_job, completed_attempt,
  checked_counts, terminal_outcome, given_or,
}
use pharma_intel.Queue.Invariant.{IsLinked, IsConsistent}
use pharma_intel.Queue.Invariant.Owned.{
  Owns, Follows, locked_live_claim-Owns, save_both-IsConsistent,
}

-- Only a token that is a UUID passes the fence.
pub locked_needs_token :
    (id : ℕ) (token : Option ℕ) (now : ℕ) (db : Db) (r : Job × Attempt)
    → locked_live_claim id token now db ≡ ok r
    → (t : ℕ) × (locked_live_claim id (some t) now db ≡ ok r)
unfolding locked_live_claim
locked_needs_token id none now db r h = cc
locked_needs_token id (some t) now db r h = (t, h)

Owns-checked :
    (id token now : ℕ) (db : Db) (j : Job) (a : Attempt)
    → IsConsistent db
    → Owns id token now db j a
    → job_checked j ≡ true
Owns-checked id token now db j a v o =
    All-get job_key (λ r. job_checked r ≡ true) id j db.jobs o.stored v.checked

heartbeat-IsLinked :
    (id token now until : ℕ) (db : Db) (j : Job) (a : Attempt)
    → IsConsistent db
    → Owns id token now db j a
    → IsConsistent (
        save_both
          (record j { heartbeat_at = some now; lease_expires_at = some until })
          (record a { heartbeat_at = now })
          db)
heartbeat-IsLinked id token now until db j a v o =
    save_both-IsConsistent id token now db j a _ _ v o
      (record {
        same_job = refl;
        same_count = refl;
        same_id = refl;
        same_owner = refl;
        same_number = refl;
        same_token = refl;
        status_matches = ground (arith, o.live, o.running);
        lease_matches = inl (ground (arith, o.live), refl);
      })
      (heartbeat-job_checked now until j (Owns-checked id token now db j a v o)
        (ground (arith, o.live)))

pub heartbeat_job-IsConsistent :
    (id : ℕ) (token : Option ℕ) (duration : ℤ) (now : ℕ) (db db' : Db) (until : ℕ)
    → IsConsistent db
    → heartbeat_job id token duration now db ≡ ok (db', until)
    → IsConsistent db'
unfolding heartbeat_job
heartbeat_job-IsConsistent id token duration now db db' until v h =
    let (lease, _, h₁) = >>=-eq-ok (positive_duration duration) _ h in
    let (found, e, h₂) = >>=-eq-ok (locked_live_claim id token now db) _ h₁ in
    let (t, e') = locked_needs_token id token now db found e in
    let o = locked_live_claim-Owns id t now db (found.0) (found.1) e' in
    let (j, a) = found in
    let e : save_both (record j { heartbeat_at = some now; lease_expires_at = some (now + lease) })
          (record a { heartbeat_at = now }) db
        ≡ db' =
      ground (arith, h₂) in
    subst IsConsistent e (heartbeat-IsLinked id t now (now + lease) db (found.0) (found.1) v o)

advance-IsLinked :
    (id token now : ℕ) (p : Phase) (db : Db) (j : Job) (a : Attempt)
    → IsConsistent db
    → Owns id token now db j a
    → IsConsistent (save_both j (record a { phase = p }) db)
advance-IsLinked id token now p db j a v o =
    save_both-IsConsistent id token now db j a _ _ v o
      (record {
        same_job = refl;
        same_count = refl;
        same_id = refl;
        same_owner = refl;
        same_number = refl;
        same_token = refl;
        status_matches = ground (arith, o.live, o.running);
        lease_matches = inl (ground (arith, o.live), refl);
      })
      (Owns-checked id token now db j a v o)

pub advance_attempt_phase-IsConsistent :
    (id : ℕ) (token : Option ℕ) (phase : Option Phase) (now : ℕ) (db db' : Db)
    → IsConsistent db
    → advance_attempt_phase id token phase now db ≡ ok db'
    → IsConsistent db'
unfolding advance_attempt_phase
advance_attempt_phase-IsConsistent id token none now db db' v h = cc
advance_attempt_phase-IsConsistent id token (some p) now db db' v h =
    let (found, e, h₂) = >>=-eq-ok (locked_live_claim id token now db) _ h in
    let (t, e') = locked_needs_token id token now db found e in
    let o = locked_live_claim-Owns id t now db (found.0) (found.1) e' in
    let (j, a) = found in
    let e : record db { attempts = put attempt_key (record a { phase = p }) db.attempts } ≡ db' =
      ground (arith, h₂) in
    let keep : put job_key j db.jobs ≡ db.jobs =
      put-get_self job_key j db.jobs v.job_keys
        (subst (λ (n : ℕ). get job_key n db.jobs ≡ some j) (sym o.keyed) o.stored) in
    subst IsConsistent e (
      subst (λ js. IsLinked js (put attempt_key (record a { phase = p }) db.attempts)) keep
        (advance-IsLinked id t now p db j a v o))

retry-Follows :
    (id token now : ℕ) (code message : Text) (base maximum : ℤ) (db : Db) (j j' : Job) (a : Attempt)
    → Owns id token now db j a
    → retried_job now code message base maximum j ≡ ok j'
    → Follows j a j' (retried_attempt now code message j.counts a)
unfolding retried_job retried_attempt
retry-Follows id token now code message base maximum db j j' a o h = record {
  same_job = ground arith;
  same_count = ground arith;
  same_id = refl;
  same_owner = refl;
  same_number = refl;
  same_token = refl;
  status_matches = ground arith;
  lease_matches = inr (ground arith, ground arith);
}

pub schedule_retry-IsConsistent :
    (id : ℕ) (token : Option ℕ) (code message : Text) (base maximum : ℤ) (now : ℕ) (db db' : Db)
    (j' : Job)
    → IsConsistent db
    → schedule_retry id token code message base maximum now db ≡ ok (db', j')
    → IsConsistent db'
unfolding schedule_retry
schedule_retry-IsConsistent id token code message base maximum now db db' j' v h =
    let (found, e, h₁) = >>=-eq-ok (locked_live_claim id token now db) _ h in
    let (t, e') = locked_needs_token id token now db found e in
    let o = locked_live_claim-Owns id t now db (found.0) (found.1) e' in
    let (j, a) = found in
    let (_, _, h₂) = >>=-eq-ok (checked_counts Status.failed j.counts) _ h₁ in
    let (k, r, h₃) = >>=-eq-ok (retried_job now code message base maximum j) _ h₂ in
    let e : save_both k (retried_attempt now code message j.counts a) db ≡ db' =
      ground (arith, h₃) in
    subst IsConsistent e (
      save_both-IsConsistent id t now db j a _ _ v o
        (retry-Follows id t now code message base maximum db j k a o r)
        (retried_job-job_checked now code message base maximum j k
          (Owns-checked id t now db j a v o) (ground (arith, o.live)) r))

checked_counts_lem :
    (s : Status) (c : Counts) (u : Unit {0}) → checked_counts s c ≡ ok u → counts_checked s c ≡ true
unfolding checked_counts
checked_counts_lem s c u h = elim (Result-cases (validate_for s c)) [
  | inl (w, e) ↦ (validate_for_iff s c).0 e
  | inr (x, e) ↦ absurd (ground (arith, e))
]

complete-Follows :
    (id token now : ℕ) (s : Status) (outcome : Outcome) (c : Counts) (code message : Text) (db : Db)
    (j : Job) (a : Attempt)
    → Owns id token now db j a
    → terminal_outcome s ≡ some outcome
    → Follows j a
        (completed_job now s c code message j)
        (completed_attempt now s outcome c code message a)
unfolding completed_job completed_attempt
complete-Follows id token now s outcome c code message db j a o h = record {
  same_job = ground arith;
  same_count = ground arith;
  same_id = refl;
  same_owner = refl;
  same_number = refl;
  same_token = refl;
  status_matches = ground arith;
  lease_matches = inr (ground arith, ground arith);
}

pub complete_job-IsConsistent :
    (id : ℕ) (token : Option ℕ) (s : Status) (counts : Option Counts) (code message : Text)
    (now : ℕ) (db db' : Db) (j' : Job)
    → IsConsistent db
    → complete_job id token s counts code message now db ≡ ok (db', j')
    → IsConsistent db'
unfolding complete_job
complete_job-IsConsistent id token s counts code message now db db' j' v h =
    let (outcome, q, h₀) = >>=-eq-ok (or_raise (terminal_outcome s) value_error) _ h in
    let (found, e, h₁) = >>=-eq-ok (locked_live_claim id token now db) _ h₀ in
    let (t, e') = locked_needs_token id token now db found e in
    let o = locked_live_claim-Owns id t now db (found.0) (found.1) e' in
    let (j, a) = found in
    let c = given_or counts j.counts in
    let (u, k, h₂) = >>=-eq-ok (checked_counts s c) _ h₁ in
    let known : terminal_outcome s ≡ some outcome =
      or_raise-ok (terminal_outcome s) value_error outcome q in
    let e : save_both (completed_job now s c code message j)
          (completed_attempt now s outcome c code message a) db
        ≡ db' =
      ground (arith, h₂) in
    subst IsConsistent e (
      save_both-IsConsistent id t now db j a _ _ v o
        (complete-Follows id t now s outcome c code message db j a o known)
        (completed_job-job_checked now s c code message j (Owns-checked id t now db j a v o)
          (λ n. cc (known, n)) (checked_counts_lem s c u k)))
