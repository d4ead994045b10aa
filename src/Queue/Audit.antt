-- ===== src/Queue/Audit.antt =====
-- The audit trigger on attempts, against the calls of a worker in sales_imports/queue.py.
use mathlib.Core.Path.{subst}
use mathlib.Core.Option.{some-injective}
use pharma_intel.Base.{
  ℕ, ◌≡◌, ◌⊎◌, ◌==◌, refl, true, Option, some, List, arith, ok, >>=-eq-ok, or_raise, inl, inr,
  Bool-cases, sym, ◌∙◌,
}
use pharma_intel.Base.Int.{ℤ}
use pharma_intel.Base.Text.{Text, text_eq, text_eq_iff}
use pharma_intel.Base.Table.{get, put, get-put_self, get-put_ne, get-of_find}
use pharma_intel.Queue.Counts.{Status, Counts}
use pharma_intel.Queue.Rows.{
  Job, Attempt, Phase, Db, attempt_key, value_error, is_running, runs_under,
}
use pharma_intel.Queue.Claim.{positive_duration}
use pharma_intel.Queue.Checks.{attempt_guard}
use pharma_intel.Queue.Lease.{locked_live_claim, heartbeat_job, advance_attempt_phase}
use pharma_intel.Queue.Finish.{
  schedule_retry, complete_job, retried_job, retried_attempt, completed_attempt, checked_counts,
  terminal_outcome, given_or,
}
use pharma_intel.Queue.Invariant.{IsConsistent}
use pharma_intel.Queue.Invariant.Owned.{locked_live_claim-Owns}
use pharma_intel.Queue.Invariant.Workers.{locked_needs_token}

-- A call of a worker that returns, between the tables before and after it.
pub data WorkerCall : Db → Db → Type 0 where
  renewed :
      {db db' : Db} {t : ℕ} (id : ℕ) (token : Option ℕ) (duration : ℤ) (now : ℕ)
      → heartbeat_job id token duration now db ≡ ok (db', t)
      → WorkerCall db db'
  advanced :
      {db db' : Db} (id : ℕ) (token : Option ℕ) (phase : Option Phase) (now : ℕ)
      → advance_attempt_phase id token phase now db ≡ ok db'
      → WorkerCall db db'
  retried :
      {db db' : Db} {j : Job} (id : ℕ) (token : Option ℕ) (code message : Text) (base maximum : ℤ)
      (now : ℕ)
      → schedule_retry id token code message base maximum now db ≡ ok (db', j)
      → WorkerCall db db'
  completed :
      {db db' : Db} {j : Job} (id : ℕ) (token : Option ℕ) (s : Status) (counts : Option Counts)
      (code message : Text) (now : ℕ)
      → complete_job id token s counts code message now db ≡ ok (db', j)
      → WorkerCall db db'

-- The one attempt that a call writes: a new version of the attempt of its claim, which the trigger
-- lets through.
record Written (db db' : Db) : Type 0 where
  old : Attempt
  new : Attempt
  stored : get attempt_key new.id db.attempts ≡ some old
  saved : put attempt_key new db.attempts ≡ db'.attempts
  passes : attempt_guard old new ≡ ok tt

same_worker : (a : Attempt) → text_eq a.worker_id a.worker_id ≡ true
same_worker a = (text_eq_iff a.worker_id a.worker_id).1 refl

module _ (id now : ℕ) (token : Option ℕ) (db : Db) (j : Job) (a : Attempt) (v : IsConsistent db)
    (locked : locked_live_claim id token now db ≡ ok (j, a)) where
  locked-stored : (get attempt_key a.id db.attempts ≡ some a) × (is_running a.outcome ≡ true)
  locked-stored =
      let (t, e) = locked_needs_token id token now db (j, a) locked in
      let o = locked_live_claim-Owns id t now db j a e in
      (
        get-of_find attempt_key (runs_under id (some t)) a db.attempts v.attempt_ids o.found,
        ground (arith, o.running),
      )

WorkerCall-Written : {db db' : Db} → WorkerCall db db' → IsConsistent db → Written db db'
unfolding heartbeat_job advance_attempt_phase schedule_retry complete_job retried_attempt
    completed_attempt attempt_guard
WorkerCall-Written {db} {db'} (renewed id token duration now h) v =
    let (lease, _, h₁) = >>=-eq-ok (positive_duration duration) _ h in
    let (found, e, h₂) = >>=-eq-ok (locked_live_claim id token now db) _ h₁ in
    let (j, a) = found in
    let (stored, runs) = locked-stored id now token db j a v e in
    record {
      old = a;
      new = record a { heartbeat_at = now };
      stored = stored;
      saved = ground (arith, h₂);
      passes = ground (arith, runs, same_worker a);
    }
WorkerCall-Written {db} {db'} (advanced id token phase now h) v =
    let (p, _, h₁) = >>=-eq-ok (or_raise phase value_error) _ h in
    let (found, e, h₂) = >>=-eq-ok (locked_live_claim id token now db) _ h₁ in
    let (j, a) = found in
    let (stored, runs) = locked-stored id now token db j a v e in
    record {
      old = a;
      new = record a { phase = p };
      stored = stored;
      saved = ground (arith, h₂);
      passes = ground (arith, runs, same_worker a);
    }
WorkerCall-Written {db} {db'} (retried id token code message base maximum now h) v =
    let (found, e, h₁) = >>=-eq-ok (locked_live_claim id token now db) _ h in
    let (j, a) = found in
    let (stored, runs) = locked-stored id now token db j a v e in
    let (_, _, h₂) = >>=-eq-ok (checked_counts Status.failed j.counts) _ h₁ in
    let (k, _, h₃) = >>=-eq-ok (retried_job now code message base maximum j) _ h₂ in
    record {
      old = a;
      new = retried_attempt now code message j.counts a;
      stored = stored;
      saved = ground (arith, h₃);
      passes = ground (arith, runs, same_worker a);
    }
WorkerCall-Written {db} {db'} (completed id token s counts code message now h) v =
    let (outcome, _, h₀) = >>=-eq-ok (or_raise (terminal_outcome s) value_error) _ h in
    let (found, e, h₁) = >>=-eq-ok (locked_live_claim id token now db) _ h₀ in
    let (j, a) = found in
    let (stored, runs) = locked-stored id now token db j a v e in
    let c = given_or counts j.counts in
    let (_, _, h₂) = >>=-eq-ok (checked_counts s c) _ h₁ in
    record {
      old = a;
      new = completed_attempt now s outcome c code message a;
      stored = stored;
      saved = ground (arith, h₂);
      passes = ground (arith, runs, same_worker a);
    }

-- A call of a worker that renews the lease, moves the phase, schedules a retry or completes the job
-- changes no attempt in a way that the audit trigger refuses: from consistent tables, every attempt
-- is as it was or is an update that the trigger lets through.
pub worker_calls_pass :
    (db db' : Db) (k : ℕ) (a b : Attempt)
    → WorkerCall db db'
    → IsConsistent db
    → get attempt_key k db.attempts ≡ some a
    → get attempt_key k db'.attempts ≡ some b
    → (b ≡ a) ⊎ (attempt_guard a b ≡ ok tt)
worker_calls_pass db db' k a b call v before after =
    let w = WorkerCall-Written call v in
    let n : ℕ = (Written.new w).id in
    let after' : get attempt_key k (put attempt_key w.new db.attempts) ≡ some b =
      subst (λ (xs : List Attempt). get attempt_key k xs ≡ some b) (sym w.saved) after in
    elim (Bool-cases (k == n)) [
      | inl e ↦
          let same : k ≡ n = ground (arith, e) in
          let x : w.old ≡ a = some-injective w.old a (
            sym w.stored ∙ subst (λ (m : ℕ). get attempt_key m db.attempts ≡ some a) same before) in
          let y : w.new ≡ b = some-injective w.new b (
            sym (get-put_self attempt_key w.new w.old db.attempts w.stored)
            ∙ subst (λ (m : ℕ). get attempt_key m (put attempt_key w.new db.attempts) ≡ some b) same
                after') in
          inr (
            subst (λ (z : Attempt). attempt_guard a z ≡ ok tt) y
              (subst (λ (z : Attempt). attempt_guard z w.new ≡ ok tt) x w.passes))
      | inr e ↦ inl (
          some-injective b a (
            sym after'
            ∙ get-put_ne attempt_key w.new k db.attempts (λ q. ground (arith, e, q))
            ∙ before))
    ]
