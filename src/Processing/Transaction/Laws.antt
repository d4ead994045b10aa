-- ===== src/Processing/Transaction/Laws.antt =====
-- Rows that pass the validation of `_publish_once` end their job as published.
use pharma_intel.Base.{ℕ, List}
use pharma_intel.Intake.Row.{SalesImport}
use pharma_intel.Queue.Rows.{Job, Attempt}
use pharma_intel.Queue.Claim.{SalesImportClaim}
use pharma_intel.Processing.Checks.{World}
use pharma_intel.Processing.Facts.{StagedRow}
use pharma_intel.Processing.Resolve.{Master}
use pharma_intel.Processing.Resolve.Whole.{Validation}
use pharma_intel.Processing.Stage.{Settings, Tables}
use pharma_intel.Processing.Transaction.{State, rows_of_attempt}
use pharma_intel.Processing.Transaction.Once.{validation}

module _ (settings : Settings) (claim : SalesImportClaim) (started at : ℕ) (m : Master)
    (world : World) (state : State) (j : Job) (a : Attempt) (s : SalesImport) where
  abbrev own_rows : List StagedRow
  own_rows = rows_of_attempt a.id (Tables.staged state.tables)

  abbrev seen : Master
  seen = record m { facts = (State.store state).facts }

  abbrev validated : Validation
  validated = validation settings claim started at m s a state
