-- ===== src/Queue/Invariant/Saving.antt =====
-- Saving one job row together with the attempts of that job keeps the tables consistent.
use pharma_intel.Base.{
  ℕ, ◌≡◌, ◌≢◌, true, false, Option, none, some, List, [], ◌∷◌, ◌++◌, ◌==◌, count, arith, ℕ_discrete,
  All-append, inl, inr, Bool-cases, ◌≤◌,
}
use mathlib.Core.Path.{subst, sym}
use pharma_intel.Base.Table.{
  get, put, Unique, put-Unique, All-put, get-put_self, get-put_ne, Unique-append_new,
  get-append_new,
}
use pharma_intel.Queue.Rows.{
  Job, Attempt, job_key, attempt_key, is_processing, of_job, runs_for, runs_under,
}
use pharma_intel.Queue.Checks.{job_checked}
use pharma_intel.Queue.Invariant.{LinkedTo, IsLinked, above}
use pharma_intel.Queue.Invariant.Counting.{SameFor}

transfer-LinkedTo :
    (k : ℕ) (o : Option Job) (xs ys : List Attempt)
    → SameFor k xs ys
    → LinkedTo k o xs
    → LinkedTo k o ys
transfer-LinkedTo k none xs ys s h = ground arith
transfer-LinkedTo k (some j) xs ys s h =
    ground (arith, s.numbered j.attempt_count, s.held j.lease_token)

-- The row of one job is saved, and the attempts change for that job only.
pub save-IsLinked :
    (jobs : List Job) (xs ys : List Attempt) (j' j : Job)
    → IsLinked jobs xs
    → get job_key j'.sales_import jobs ≡ some j
    → job_checked j' ≡ true
    → Unique attempt_key ys
    → LinkedTo j'.sales_import (some j') ys
    → ((k : ℕ) → k ≢ j'.sales_import → SameFor k xs ys)
    → IsLinked (put job_key j' jobs) ys
save-IsLinked jobs xs ys j' j v e c u l s = record {
  job_keys = put-Unique job_key j' jobs v.job_keys;
  attempt_ids = u;
  checked = All-put job_key (λ r. job_checked r ≡ true) j' jobs c v.checked;
  linked = λ k. elim (ℕ_discrete k j'.sales_import) [
    | yes same ↦
        subst (λ n. LinkedTo n (get job_key n (put job_key j' jobs)) ys) (sym same)
          (rw (get-put_self job_key j' j jobs e) l)
    | no other ↦
        rw (get-put_ne job_key j' k jobs other)
          (transfer-LinkedTo k (get job_key k jobs) xs ys (s k other) (v.linked k))
  ];
}

-- A job without attempts has none of any kind.
pub counts_le :
    (k n : ℕ) (t : Option ℕ) (xs : List Attempt)
    → (count (above k n) xs ≤ count (of_job k) xs)
      × (count (runs_for k) xs ≤ count (of_job k) xs)
      × (count (runs_under k t) xs ≤ count (of_job k) xs)
counts_le k n t [] = omega arith
counts_le k n t (x ∷ xs) =
    let h = counts_le k n t xs in (ground (arith, h), ground (arith, h), ground (arith, h))

add-LinkedTo :
    (k : ℕ) (o : Option Job) (j : Job) (xs : List Attempt)
    → j.attempt_count ≡ 0
    → is_processing j.status ≡ false
    → LinkedTo k o xs
    → LinkedTo k (elim o [ none ↦ get job_key k (j ∷ []) | some b ↦ some b ]) xs
add-LinkedTo k (some b) j xs z p h = h
add-LinkedTo k none j xs z p h = elim (Bool-cases (j.sales_import == k)) [
  | inl hit ↦ rw hit (ground (arith, counts_le k j.attempt_count j.lease_token xs))
  | inr miss ↦ rw miss h
]

-- A new job row, of a job that has no attempt.
pub insert-IsLinked :
    (jobs : List Job) (xs : List Attempt) (j : Job)
    → IsLinked jobs xs
    → get job_key j.sales_import jobs ≡ none
    → job_checked j ≡ true
    → j.attempt_count ≡ 0
    → is_processing j.status ≡ false
    → IsLinked (jobs ++ j ∷ []) xs
insert-IsLinked jobs xs j v e c z p = record {
  job_keys = Unique-append_new job_key j jobs v.job_keys e;
  attempt_ids = v.attempt_ids;
  checked = All-append (λ r. job_checked r ≡ true) jobs (j ∷ []) v.checked (c, tt);
  linked = λ k.
      rw (get-append_new job_key k j jobs)
        (add-LinkedTo k (get job_key k jobs) j xs z p (v.linked k));
}
