-- ===== src/Queue/Invariant/Cleanup.antt =====
-- The cleanup of exhausted jobs keeps the tables consistent, and never fails on them.
use pharma_intel.Base.{
  ℕ, ◌≡◌, refl, Bool, true, none, some, List, [], ◌∷◌, ok, All, All-map_of, length, ◌∙◌, &&-split,
}
use pharma_intel.Base.Table.{get, put, get-put_ne}
use pharma_intel.Queue.Rows.{Job, Attempt, Db, job_key, attempt_key}
use pharma_intel.Queue.Claim.{
  is_exhausted, mark_exhausted, mark_exhausted_all, mark_exhausted_batch, exhausted_batch,
}
use pharma_intel.Queue.Claim.Batch.{
  OtherThan, AreDistinct, exhausted_batch-AreDistinct, exhausted_batch-stored,
}
use pharma_intel.Queue.Invariant.{IsConsistent}
use pharma_intel.Queue.Invariant.Takeover.{mark_exhausted_one-IsConsistent}

-- A row that the cleanup may take: it is in the table and exhausted.
abbrev IsTaken : ℕ → List Job → Job → Type 0
IsTaken now jobs j = (get job_key j.sales_import jobs ≡ some j) × (is_exhausted now j ≡ true)

-- A key that no attempt has is still free afterwards.
abbrev pub KeepsNew : Db → Db → Type 0
KeepsNew db db' =
    (i : ℕ) → get attempt_key i db.attempts ≡ none → get attempt_key i db'.attempts ≡ none

-- The tables after one step of the loop.
abbrev put_next : ℕ → Job → Db → List Attempt → Db
put_next now j db ys = record db {
  jobs = put job_key (mark_exhausted now j) db.jobs;
  attempts = ys;
}

later-IsTaken :
    (now : ℕ) (j : Job) (jobs js : List Job)
    → OtherThan j js
    → All (IsTaken now jobs) js
    → All (IsTaken now (put job_key (mark_exhausted now j) jobs)) js
unfolding mark_exhausted
later-IsTaken now j jobs [] o a = tt
later-IsTaken now j jobs (k ∷ ks) o a =
    let (h, rest) = a in
    (
      (get-put_ne job_key _ k.sales_import jobs o.0 ∙ h.0, h.1),
      later-IsTaken now j jobs ks o.1 rest,
    )

pub mark_exhausted_all-IsConsistent :
    (now : ℕ) (js : List Job) (db : Db)
    → IsConsistent db
    → AreDistinct js
    → All (IsTaken now db.jobs) js
    → (db' : Db) × (mark_exhausted_all now js db ≡ ok db') × IsConsistent db' × KeepsNew db db'
unfolding mark_exhausted_all
mark_exhausted_all-IsConsistent now [] db v d a = (db, refl, v, λ i h. h)
mark_exhausted_all-IsConsistent now (j ∷ js) db v d a =
    let (hit, rest) = a in
    let (stored, x) = hit in
    let (ys, e, w, f) = mark_exhausted_one-IsConsistent now db j v stored x in
    let next = put_next now j db ys in
    let (db', e', w', f') =
      mark_exhausted_all-IsConsistent now js next w d.1 (later-IsTaken now j db.jobs js d.0 rest) in
    (db', rw e e', w', λ i h. f' i (f i h))

-- The whole transaction succeeds, on at most 100 jobs.
pub mark_exhausted_batch-IsConsistent :
    (now : ℕ) (locked : ℕ → Bool) (db : Db)
    → IsConsistent db
    → (db' : Db) × (mark_exhausted_batch now locked db
        ≡ ok (db', length (exhausted_batch now locked db.jobs)))
      × IsConsistent db'
      × KeepsNew db db'
unfolding mark_exhausted_batch
mark_exhausted_batch-IsConsistent now locked db v =
    let (db', e, w, f) =
      mark_exhausted_all-IsConsistent now (exhausted_batch now locked db.jobs) db v
        (exhausted_batch-AreDistinct now locked db.jobs v.job_keys)
        (All-map_of _ (IsTaken now db.jobs) (exhausted_batch now locked db.jobs)
          (λ j h. (h.0, (&&-split _ _ h.1).1))
          (exhausted_batch-stored now locked db.jobs v.job_keys)) in
    (db', rw e refl, w, f)
