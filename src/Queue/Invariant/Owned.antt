-- ===== src/Queue/Invariant/Owned.antt =====
-- What a worker holds once `_locked_live_claim` has let it through, and what it may write then.
use pharma_intel.Base.{
  ℕ, ◌+◌, ◌≡◌, ◌≢◌, refl, Bool, true, false, none, some, List, [], ◌∷◌, bit, count, arith, find,
  find-holds, inl, inr, ◌⊎◌, Option-cases, ok,
}
use mathlib.Core.Path.{subst, sym, ◌∙◌}
use pharma_intel.Base.Table.{get, put, count-put, put-Unique, get-key, get-of_find}
use pharma_intel.Queue.Rows.{
  Job, Attempt, Db, job_key, attempt_key, is_processing, is_running, of_job, runs_for, runs_under,
}
use pharma_intel.Queue.Checks.{job_checked}
use pharma_intel.Queue.Lease.{live_job, locked_live_claim, is_live}
use pharma_intel.Queue.Invariant.{LinkedTo, IsLinked, IsConsistent, above}
use pharma_intel.Queue.Invariant.Counting.{SameFor, put-SameFor}
use pharma_intel.Queue.Invariant.Saving.{save-IsLinked}

-- The rows that a live claim reads.
pub record Owns (id token now : ℕ) (db : Db) (j : Job) (a : Attempt) : Type 0 where
  pub stored : get job_key id db.jobs ≡ some j
  pub keyed : j.sales_import ≡ id
  pub live : is_live now token j ≡ true
  pub found : find (runs_under id (some token)) db.attempts ≡ some a
  pub running : runs_under id (some token) a ≡ true

live_job-some :
    (id token now : ℕ) (db : Db) (j : Job)
    → live_job id token now db ≡ some j
    → (get job_key id db.jobs ≡ some j) × (is_live now token j ≡ true)
unfolding live_job
live_job-some id token now db j h = elim (Option-cases (get job_key id db.jobs)) [
  | inl e ↦ ground arith
  | inr (k, e) ↦ ground arith
]

live_read :
    (id token now : ℕ) (db : Db) (k j : Job) (a : Attempt)
    → live_job id token now db ≡ some k
    → locked_live_claim id (some token) now db ≡ ok (j, a)
    → (k ≡ j) × (find (runs_under k.sales_import (some token)) db.attempts ≡ some a)
unfolding locked_live_claim
live_read id token now db k j a e h =
    elim (Option-cases (find (runs_under k.sales_import (some token)) db.attempts)) [
      | inl f ↦ ground arith
      | inr (b, f) ↦ ground arith
    ]

Owns-of_read :
    (id token now : ℕ) (db : Db) (k : Job) (a : Attempt)
    → live_job id token now db ≡ some k
    → find (runs_under k.sales_import (some token)) db.attempts ≡ some a
    → Owns id token now db k a
Owns-of_read id token now db k a e f =
    let (st, lv) = live_job-some id token now db k e in
    let key : k.sales_import ≡ id = get-key job_key id k db.jobs st in
    let f' : find (runs_under id (some token)) db.attempts ≡ some a =
      subst (λ (n : ℕ). find (runs_under n (some token)) db.attempts ≡ some a) key f in
    record {
      stored = st;
      keyed = key;
      live = lv;
      found = f';
      running = find-holds (runs_under id (some token)) a db.attempts f';
    }

pub locked_live_claim-Owns :
    (id token now : ℕ) (db : Db) (j : Job) (a : Attempt)
    → locked_live_claim id (some token) now db ≡ ok (j, a)
    → Owns id token now db j a
unfolding locked_live_claim
locked_live_claim-Owns id token now db j a h = elim (Option-cases (live_job id token now db)) [
  | inl e ↦ ground arith
  | inr (k, e) ↦
      let (same, f) = live_read id token now db k j a e h in
      subst (λ x. Owns id token now db x a) same (Owns-of_read id token now db k a e f)
]

pub runs_under-none : (k : ℕ) (xs : List Attempt) → count (runs_under k none) xs ≡ 0
runs_under-none k [] = refl
runs_under-none k (x ∷ xs) = ground (arith, runs_under-none k xs)

-- A row that is written for the job `j`, and for its attempt `a`: the attempt goes on exactly if
-- the job stays leased out, and then under the same token.
pub record Follows (j : Job) (a : Attempt) (j' : Job) (a' : Attempt) : Type 0 where
  pub same_job : j'.sales_import ≡ j.sales_import
  pub same_count : j'.attempt_count ≡ j.attempt_count
  pub same_id : a'.id ≡ a.id
  pub same_owner : a'.job ≡ a.job
  pub same_number : a'.attempt_number ≡ a.attempt_number
  pub same_token : a'.lease_token ≡ a.lease_token
  pub status_matches : is_processing j'.status ≡ is_running a'.outcome
  pub lease_matches :
      ((is_processing j'.status ≡ true) × (j'.lease_token ≡ j.lease_token))
      ⊎ ((is_processing j'.status ≡ false) × (j'.lease_token ≡ none))

module _ (id token now : ℕ) (db : Db) (j : Job) (a : Attempt) (j' : Job) (a' : Attempt)
    (v : IsConsistent db) (o : Owns id token now db j a) (f : Follows j a j' a') where
  row : get attempt_key a'.id db.attempts ≡ some a
  row =
      subst (λ (n : ℕ). get attempt_key n db.attempts ≡ some a) (sym f.same_id)
        (get-of_find attempt_key (runs_under id (some token)) a db.attempts v.attempt_ids o.found)

  old-LinkedTo : LinkedTo id (some j) db.attempts
  old-LinkedTo = subst (λ r. LinkedTo id r db.attempts) o.stored (v.linked id)

  count-put_owned :
      (q : Attempt → Bool)
      → count q (put attempt_key a' db.attempts) + bit (q a) ≡ count q db.attempts + bit (q a')
  count-put_owned q = count-put attempt_key q a' a db.attempts v.attempt_ids row

  -- The written attempt counts under the written lease as it should.
  save-held :
      count (runs_under id j'.lease_token) (put attempt_key a' db.attempts)
      ≡ bit (is_processing j'.status)
  save-held = elim (f.lease_matches) [
    | inl (p, t) ↦ rw t (
        ground
          (arith, old-LinkedTo, o.live, o.running, count-put_owned (runs_under id j.lease_token)))
    | inr (p, t) ↦ rw t (rw (p, runs_under-none id (put attempt_key a' db.attempts)) refl)
  ]

  save-LinkedTo : LinkedTo id (some j') (put attempt_key a' db.attempts)
  save-LinkedTo = (
    ground (arith, old-LinkedTo, count-put_owned (of_job id)),
    ground (arith, old-LinkedTo, count-put_owned (above id j'.attempt_count)),
    ground (arith, old-LinkedTo, count-put_owned (runs_for id)),
    save-held,
  )

  save-SameFor : (k : ℕ) → k ≢ id → SameFor k db.attempts (put attempt_key a' db.attempts)
  save-SameFor k h =
      put-SameFor k a' a db.attempts v.attempt_ids row (λ e. ground arith) (λ e. ground arith)

  -- Saving the two rows that a live claim holds keeps the tables consistent.
  pub save_both-IsConsistent :
      job_checked j' ≡ true → IsLinked (put job_key j' db.jobs) (put attempt_key a' db.attempts)
  save_both-IsConsistent c =
      let e : j'.sales_import ≡ id = f.same_job ∙ o.keyed in
      save-IsLinked db.jobs db.attempts (put attempt_key a' db.attempts) j' j v
        (subst (λ (n : ℕ). get job_key n db.jobs ≡ some j) (sym e) o.stored) c
        (put-Unique attempt_key a' db.attempts v.attempt_ids)
        (subst (λ (n : ℕ). LinkedTo n (some j') (put attempt_key a' db.attempts)) (sym e)
          save-LinkedTo)
        (λ k h. save-SameFor k (λ (q : k ≡ id). h (q ∙ sym e)))
