-- ===== src/Processing/Transaction/Once.antt =====
-- `_publish_once` and `_publish_staged_rows`. A transaction starts at the time `started` and
-- finishes the job at `at`, and meets a world beside the facts of its snapshot.
use pharma_intel.Base.{
  ℕ, some, List, ◌++◌, length, ltb, if◌then◌else◌, Result, ok, err, ◌>>=◌, ◌>>◌, or_raise,
}
use pharma_intel.Base.Text.{codes}
use pharma_intel.Base.Table.{get}
use pharma_intel.Intake.Row.{SalesImport, intake_key}
use pharma_intel.Queue.Rows.{Job, Attempt, Phase, does_not_exist}
use pharma_intel.Queue.Claim.{SalesImportClaim}
use pharma_intel.Queue.Lease.{locked_live_claim}
use pharma_intel.Processing.Issues.{new_collector, persisted}
use pharma_intel.Processing.Checks.{World}
use pharma_intel.Processing.Facts.{Fact}
use pharma_intel.Processing.Publish.{source_not_unique, batched, publish_rows}
use pharma_intel.Processing.Resolve.{Master}
use pharma_intel.Processing.Resolve.Whole.{Validation, validate_chunks}
use pharma_intel.Processing.Stage.{Settings, Tables, claim_matches}
use pharma_intel.Processing.Transaction.{
  as_rejected, State, ProcessingResult, PublicationError, integrity_error, from_queue,
  rows_of_attempt, save_rows, rejected_counts, conclude, conclude_publication,
}

module _ (settings : Settings) (claim : SalesImportClaim) (started at : ℕ) (m : Master) where
  -- What validation makes of the rows of an attempt.
  unfoldable pub validation : SalesImport → Attempt → State → Validation
  unfolding validate_chunks batched rows_of_attempt
  validation s a state =
      let rows = rows_of_attempt a.id (Tables.staged state.tables) in
      validate_chunks s.source_system (batched settings.db_batch_size rows)
        (record m { facts = (State.store state).facts }) (new_collector a.id settings.max_issues)

  -- The transaction from the validation on.
  unfoldable pub publish_locked :
      World
      → Job
      → Attempt
      → SalesImport
      → State
      → Result PublicationError (State × ProcessingResult)
  unfolding validation publish_rows conclude conclude_publication persisted save_rows
  publish_locked world j a s state =
      let total = length (rows_of_attempt a.id (Tables.staged state.tables)) in
      let v = validation s a state in
      let saved = save_rows v.rows (Tables.staged state.tables) in
      let db = Tables.queue state.tables in
      if ltb 0 (Validation.collector v).total
      then conclude at j (record a { phase = Phase.validate }) as_rejected
          (rejected_counts total v.invalid_rows (Validation.collector v).total)
          (codes "VALIDATION_REJECTED")
          (codes "Database-backed validation rejected the sales file.")
          (v.stored ++ (persisted v.collector).0) saved state.store db
      else conclude_publication settings at j a total v.stored saved state.store db (
          publish_rows world s.source_system s.uploaded_by settings.db_batch_size v.rows state.store
            v.collector)

  unfoldable pub publish_once : World → State → Result PublicationError (State × ProcessingResult)
  unfolding publish_locked
  publish_once world state = do
    let db = Tables.queue state.tables
    found ← from_queue (locked_live_claim claim.job_id (some claim.lease_token) started db)
    from_queue (claim_matches (found.1) claim)
    s ←
        from_queue
          (or_raise (get intake_key (Job.sales_import (found.0)) db.imports) does_not_exist)
    publish_locked world found.0 found.1 s state

-- The second try sees what the first one did not, and takes its keys from `next` on.
abbrev after_conflict : List Fact → ℕ → State → State
after_conflict unseen next state = record state {
  store = record { facts = (State.store state).facts ++ unseen; next_id = next };
}

-- `_publish_staged_rows`: a fact of the source that was committed meanwhile is met once.
unfoldable pub publish_staged_rows :
    Settings
    → SalesImportClaim
    → (ℕ → ℕ)
    → (ℕ → ℕ)
    → Master
    → (ℕ → World)
    → ℕ
    → State
    → Result PublicationError (State × ProcessingResult)
unfolding publish_once
publish_staged_rows settings claim started at m world next state =
    elim (publish_once settings claim (started 0) (at 0) m (world 0) state) [
      | ok done ↦ ok done
      | err (integrity_error source_not_unique) ↦
          publish_once settings claim (started 1) (at 1) m (world 1)
            (after_conflict (World.unseen (world 0)) next state)
      | err e ↦ err e
    ]
