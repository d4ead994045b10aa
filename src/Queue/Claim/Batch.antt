-- ===== src/Queue/Claim/Batch.antt =====
-- The rows of a cleanup batch are distinct rows of the table.
use pharma_intel.Base.{
  ℕ, suc, zero, ◌≡◌, ◌≢◌, Bool, true, none, some, List, [], ◌∷◌, ◌==◌, sym, arith, inl, inr,
  Bool-cases, All, All-filter, All-take, All-map_of, filter, take,
}
use pharma_intel.Base.Table.{get, Unique, All-stored}
use pharma_intel.Queue.Rows.{Job, job_key}
use pharma_intel.Queue.Claim.{
  insert_job, comes_before, ordered, exhausted_batch, is_cleanable, exhausted_cleanup_batch_size,
}
use pharma_intel.Queue.Claim.Selection.{All-insert_job, All-ordered}

abbrev pub OtherThan : Job → List Job → Type 0
OtherThan j = All (λ k. k.sales_import ≢ j.sales_import)

abbrev pub AreDistinct : List Job → Type 0
AreDistinct [] = Unit
AreDistinct (j ∷ js) = OtherThan j js × AreDistinct js

OtherThan-of_none :
    (j : Job) (js : List Job) → get job_key j.sales_import js ≡ none → OtherThan j js
OtherThan-of_none j [] h = tt
OtherThan-of_none j (k ∷ ks) h = elim (Bool-cases (k.sales_import == j.sales_import)) [
  | inl e ↦ absurd (some_none (rw e at h))
  | inr e ↦ ((λ s. ground arith), OtherThan-of_none j ks (rw e at h))
]
  where
    some_none : some k ≡ none → ⊥
    some_none p = cc

AreDistinct-of_Unique : (js : List Job) → Unique job_key js → AreDistinct js
AreDistinct-of_Unique [] u = tt
AreDistinct-of_Unique (j ∷ js) u = (OtherThan-of_none j js u.0, AreDistinct-of_Unique js u.1)

filter-AreDistinct : (p : Job → Bool) (js : List Job) → AreDistinct js → AreDistinct (filter p js)
filter-AreDistinct p [] d = tt
filter-AreDistinct p (j ∷ js) d = elim (Bool-cases (p j)) [
  | inl e ↦ rw e (
    All-map_of (λ k. (k.sales_import ≢ j.sales_import) × (p k ≡ true)) _ (filter p js) (λ k h. h.0)
        (All-filter (λ k. k.sales_import ≢ j.sales_import) p js d.0),
    filter-AreDistinct p js d.1,
  )
  | inr e ↦ rw e (filter-AreDistinct p js d.1)
]

insert_job-AreDistinct :
    (j : Job) (js : List Job) → OtherThan j js → AreDistinct js → AreDistinct (insert_job j js)
unfolding insert_job
insert_job-AreDistinct j [] o d = (tt, tt)
insert_job-AreDistinct j (k ∷ ks) o d = elim (Bool-cases (comes_before j k)) [
  | inl e ↦ rw e (o, d)
  | inr e ↦ rw e (
    All-insert_job (λ b. b.sales_import ≢ k.sales_import) j ks (λ s. o.0 (sym s)) d.0,
    insert_job-AreDistinct j ks o.1 d.1,
  )
]

ordered-AreDistinct : (js : List Job) → AreDistinct js → AreDistinct (ordered js)
unfolding ordered
ordered-AreDistinct [] d = tt
ordered-AreDistinct (j ∷ js) d =
    insert_job-AreDistinct j (ordered js) (All-ordered _ js d.0) (ordered-AreDistinct js d.1)

take-AreDistinct : (n : ℕ) (js : List Job) → AreDistinct js → AreDistinct (take n js)
take-AreDistinct zero js d = tt
take-AreDistinct (suc n) [] d = tt
take-AreDistinct (suc n) (j ∷ js) d = (All-take _ n js d.0, take-AreDistinct n js d.1)

module _ (now : ℕ) (locked : ℕ → Bool) (jobs : List Job) (u : Unique job_key jobs) where
  pub exhausted_batch-AreDistinct : AreDistinct (exhausted_batch now locked jobs)
  unfolding exhausted_batch
  exhausted_batch-AreDistinct = take-AreDistinct exhausted_cleanup_batch_size _ (
      ordered-AreDistinct _
        (filter-AreDistinct (is_cleanable now locked) jobs (AreDistinct-of_Unique jobs u)))

  -- Each of them is stored, unlocked and exhausted.
  pub exhausted_batch-stored :
      All
        (λ j. (get job_key j.sales_import jobs ≡ some j) × (is_cleanable now locked j ≡ true))
        (exhausted_batch now locked jobs)
  unfolding exhausted_batch
  exhausted_batch-stored = All-take _ exhausted_cleanup_batch_size _ (
      All-ordered _ _ (
        All-filter (λ j. get job_key j.sales_import jobs ≡ some j) (is_cleanable now locked) jobs
          (All-stored job_key jobs u)))
