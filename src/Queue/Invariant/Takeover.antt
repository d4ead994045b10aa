-- ===== src/Queue/Invariant/Takeover.antt =====
-- Ending the attempt of a job whose lease has run out, and the rows written after that.
use pharma_intel.Base.{
  ℕ, ◌+◌, ◌≡◌, ◌≢◌, ◌≤◌, refl, true, Option, none, some, List, [], ◌∷◌, ◌++◌, count, arith, inl,
  inr, Bool-cases, ok, count-append,
}
use mathlib.Core.Path.{subst}
use pharma_intel.Base.Text.{Text}
use pharma_intel.Base.Table.{get, put, Unique, All-get}
use pharma_intel.Queue.Rows.{
  Job, Attempt, Db, job_key, attempt_key, is_processing, of_job, runs_for, runs_under,
}
use pharma_intel.Queue.Claim.{
  finish_if_processing, mark_exhausted, mark_exhausted_one, is_exhausted, lease_out, new_attempt,
}
use pharma_intel.Queue.Claiming.{insert_attempt, same_number}
use pharma_intel.Queue.Checks.{job_checked}
use pharma_intel.Queue.Checks.Rows.{mark_exhausted-job_checked}
use pharma_intel.Queue.Invariant.{LinkedTo, IsLinked, IsConsistent, above}
use pharma_intel.Queue.Invariant.Counting.{
  SameFor, expired, expire-SameFor, expire-Unique, expire-owned, expire-numbered, expire-ended,
  get-expired-none,
}
use pharma_intel.Queue.Invariant.Saving.{save-IsLinked}
use pharma_intel.Queue.Invariant.Owned.{runs_under-none}

-- The attempts after the last one of the job `j` has ended.
pub record Ended (j : Job) (xs ys : List Attempt) : Type 0 where
  pub ids : Unique attempt_key ys
  pub owned : count (of_job j.sales_import) ys ≡ j.attempt_count
  pub numbered : count (above j.sales_import j.attempt_count) ys ≡ 0
  pub idle : count (runs_for j.sales_import) ys ≡ 0
  pub others : (k : ℕ) → k ≢ j.sales_import → SameFor k xs ys
  pub fresh : (i : ℕ) → get attempt_key i xs ≡ none → get attempt_key i ys ≡ none

pub same-SameFor : (k : ℕ) (xs : List Attempt) → SameFor k xs xs
same-SameFor k xs = record { owned = refl; numbered = λ n. refl; running = refl; held = λ t. refl }

-- With consistent tables the check of `_finish_expired_attempt` passes.
pub finish_if_processing-Ended :
    (now : ℕ) (j : Job) (xs : List Attempt)
    → Unique attempt_key xs
    → LinkedTo j.sales_import (some j) xs
    → (ys : List Attempt) × (finish_if_processing now j xs ≡ ok ys) × Ended j xs ys
unfolding finish_if_processing
finish_if_processing-Ended now j xs u l = elim (Bool-cases (is_processing j.status)) [
  | inl p ↦ (
    expired now j.sales_import j.lease_token xs,
    ground (arith, l, p),
    record {
      ids = expire-Unique now j.sales_import j.lease_token xs u;
      owned = ground (arith, l, expire-owned now j.sales_import j.lease_token j.sales_import xs);
      numbered = ground (
        arith,
        l,
        expire-numbered now j.sales_import j.lease_token j.sales_import j.attempt_count xs,
      );
      idle = ground (arith, l, p, expire-ended now j.sales_import j.lease_token xs);
      others = λ k h. expire-SameFor now j.sales_import j.lease_token k xs h;
      fresh = λ i h. get-expired-none now j.sales_import j.lease_token i xs h;
    },
  )
  | inr p ↦ (
    xs,
    ground (arith, p),
    record {
      ids = u;
      owned = l.0;
      numbered = l.1;
      idle = ground (arith, l, p);
      others = λ k h. same-SameFor k xs;
      fresh = λ i h. h;
    },
  )
]

module _ (now : ℕ) (db : Db) (j : Job) (v : IsConsistent db)
    (stored : get job_key j.sales_import db.jobs ≡ some j) where
  pub stored-LinkedTo : LinkedTo j.sales_import (some j) db.attempts
  stored-LinkedTo =
      subst (λ r. LinkedTo j.sales_import r db.attempts) stored (v.linked j.sales_import)

  pub stored-checked : job_checked j ≡ true
  stored-checked =
      All-get job_key (λ r. job_checked r ≡ true) j.sales_import j db.jobs stored v.checked

  -- An exhausted job is failed, and its tables stay consistent.
  pub mark_exhausted_one-IsConsistent :
      is_exhausted now j ≡ true
      → (ys : List Attempt) × (mark_exhausted_one now j db
          ≡ ok (record db { jobs = put job_key (mark_exhausted now j) db.jobs; attempts = ys }))
        × IsLinked (put job_key (mark_exhausted now j) db.jobs) ys
        × ((i : ℕ) → get attempt_key i db.attempts ≡ none → get attempt_key i ys ≡ none)
  unfolding mark_exhausted_one is_exhausted
  mark_exhausted_one-IsConsistent x =
      let (ys, e, d) = finish_if_processing-Ended now j db.attempts v.attempt_ids stored-LinkedTo in
      (
        ys,
        ground (arith, e),
        save-IsLinked db.jobs db.attempts ys (mark_exhausted now j) j v stored
            (mark_exhausted-job_checked now j stored-checked (ground (arith, x))) d.ids
            (d.owned, d.numbered, d.idle, runs_under-none j.sales_import ys) d.others,
        d.fresh,
      )

above_mono : (k n : ℕ) (xs : List Attempt) → count (above k (n + 1)) xs ≤ count (above k n) xs
above_mono k n [] = omega arith
above_mono k n (x ∷ xs) = ground (arith, above_mono k n xs)

same_number-le :
    (a : Attempt) (n : ℕ) (xs : List Attempt)
    → a.attempt_number ≡ n + 1
    → count (same_number a) xs ≤ count (above a.job n) xs
same_number-le a n [] h = omega arith
same_number-le a n (x ∷ xs) h = ground (arith, same_number-le a n xs h)

held-le :
    (k : ℕ) (t : Option ℕ) (xs : List Attempt) → count (runs_under k t) xs ≤ count (runs_for k) xs
held-le k t [] = omega arith
held-le k t (x ∷ xs) = ground (arith, held-le k t xs)

module _ (now until : ℕ) (worker : Text) (token id : ℕ) (j : Job) (xs ys : List Attempt)
    (d : Ended j xs ys) where
  abbrev pub attempt : Attempt
  attempt = new_attempt now worker token id j

  -- The unique constraints let the new attempt in.
  pub insert_attempt-passes :
      get attempt_key id xs ≡ none → insert_attempt attempt ys ≡ ok (ys ++ attempt ∷ [])
  unfolding insert_attempt new_attempt
  insert_attempt-passes f =
      ground (arith, d.fresh id f, d.numbered, d.idle, same_number-le attempt j.attempt_count ys)

  pub lease_out-LinkedTo :
      LinkedTo j.sales_import (some (lease_out now until worker token j)) (ys ++ attempt ∷ [])
  unfolding lease_out new_attempt
  lease_out-LinkedTo = (
    ground (arith, d.owned, count-append (of_job j.sales_import) ys (attempt ∷ [])),
    ground (
      arith,
      d.numbered,
      above_mono j.sales_import j.attempt_count ys,
      count-append (above j.sales_import (j.attempt_count + 1)) ys (attempt ∷ []),
    ),
    ground (arith, d.idle, count-append (runs_for j.sales_import) ys (attempt ∷ [])),
    ground (
      arith,
      d.idle,
      held-le j.sales_import (some token) ys,
      count-append (runs_under j.sales_import (some token)) ys (attempt ∷ []),
    ),
  )
