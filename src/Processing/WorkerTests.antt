-- ===== src/Processing/WorkerTests.antt =====
-- A job under a live lease, and the theorems on the staging of a file and on the errors of an
-- attempt at that job.
use pharma_intel.Base.{
  ℕ, ◌+◌, ◌≡◌, List, refl, Bool, true, false, none, some, [], ◌∷◌, ◌++◌, length, ◌↔◌, ◌==◌, arith,
  ok, Result, Bool-cases, inl, inr,
}
use pharma_intel.Base.Text.{Text, codes, strip}
use pharma_intel.Base.Int.{◌+ℤ◌}
use pharma_intel.Base.Date.{is_date, days_in_month}
use pharma_intel.Contract.Fields.{text_field, date_field, decimal_field}
use pharma_intel.Contract.Headers.{validate_sales_headers}
use pharma_intel.Contract.Cells.{cell, zip_cells}
use pharma_intel.Contract.Row.{validate, currency_issues, zero_issues, sign_issues}
use pharma_intel.Contract.File.{iter_sales_rows_v1_csv}
use pharma_intel.Contract.Tests.{platform, whole}
use pharma_intel.Intake.Guard.{status_metadata_consistent, row_checked, within_widths}
use pharma_intel.Intake.Arn.{kms_key_valid}
use pharma_intel.Intake.Tests.{received_import}
use pharma_intel.Queue.Counts.{Status, no_counts, counts_checked}
use pharma_intel.Queue.Rows.{Job, Attempt, Phase, Outcome, Db}
use pharma_intel.Queue.Claim.{SalesImportClaim}
use pharma_intel.Queue.Lease.{locked_live_claim}
use pharma_intel.Queue.Checks.{job_checked}
use pharma_intel.Queue.Invariant.{IsConsistent}
use pharma_intel.Processing.Failure.{not_found_error, handle}
use pharma_intel.Processing.Failure.Laws.{Ends, IsSaved, handle-Ends}
use pharma_intel.Processing.Waiting.{Poll, wait_for_lock, poll_lock, on_progress, download_beats}
use pharma_intel.Processing.Waiting.Laws.{AreClose, wait_for_lock-AreClose}
use pharma_intel.Processing.Stage.{Settings, Progress, Tables, StageError}
use pharma_intel.Processing.Stage.Loop.{Surroundings, stage_csv}
use pharma_intel.Processing.Stage.Turns.{rows_of}
use pharma_intel.Processing.Stage.Laws.{stage_csv-staged}
use pharma_intel.Processing.Facts.{StagedRow}
use pharma_intel.Processing.Transaction.{State}
use pharma_intel.Processing.Tests.{sample_row}

abbrev leased : Job
leased = record {
  sales_import = 1;
  status = Status.processing;
  available_at = 100;
  attempt_count = 1;
  max_attempts = 5;
  lease_token = some 7;
  leased_by = codes "w1";
  lease_expires_at = some 500;
  heartbeat_at = some 200;
  first_started_at = some 200;
  finished_at = none;
  counts = no_counts;
  last_error_code = codes "";
  last_error_message = codes "";
  created_at = 100;
}

abbrev running : Attempt
running = record {
  id = 10;
  job = 1;
  attempt_number = 1;
  lease_token = 7;
  worker_id = codes "w1";
  phase = Phase.claimed;
  outcome = Outcome.running;
  started_at = 200;
  heartbeat_at = 200;
  finished_at = none;
  counts = no_counts;
  error_code = codes "";
  error_message = codes "";
}

abbrev db : Db
db = record {
  imports = received_import ∷ [];
  jobs = leased ∷ [];
  attempts = running ∷ [];
  issues = [];
}

abbrev claim : SalesImportClaim
claim = record {
  job_id = 1;
  sales_import_id = 1;
  attempt_id = 10;
  attempt_number = 1;
  lease_token = 7;
  worker_id = codes "w1";
  lease_expires_at = 500;
}

leased-job_checked : job_checked leased ≡ true
unfolding job_checked counts_checked ◌+ℤ◌
leased-job_checked = refl

db-IsConsistent : IsConsistent db
db-IsConsistent = record {
  job_keys = (refl, tt);
  attempt_ids = (refl, tt);
  checked = (leased-job_checked, tt);
  linked = λ k. elim (Bool-cases (1 == k)) [
    | inl e ↦ rw e (ground (arith, e))
    | inr e ↦ rw e (ground (arith, e))
  ];
}

live : locked_live_claim 1 (some 7) 300 db ≡ ok (leased, running)
unfolding locked_live_claim
live = refl

handle-Ends_example :
    (db' : Db) × (r : Job) × (handle claim (not_found_error (codes "gone")) 300 db ≡ ok (db', r))
    × IsSaved 1 10 db' r
    × Ends (not_found_error (codes "gone")) leased r
unfolding row_checked within_widths kms_key_valid status_metadata_consistent
handle-Ends_example =
    handle-Ends claim 300 db leased running db-IsConsistent live (not_found_error (codes "gone"))
      received_import refl refl refl refl refl

abbrev settings : Settings
settings = record {
  db_batch_size = 1;
  max_issues = 100;
  max_rows = 10;
  lease_duration = 300;
  issue_message = λ i. codes "message";
  error_message = λ e. codes "message";
}

abbrev around : Surroundings
around = record { meanwhile = λ n d. d; clock = λ n. 300 + n }

abbrev nothing_staged : Tables
nothing_staged = record { queue = db; staged = [] }

abbrev Staged : Type 0
Staged = Result StageError (Progress × Bool × Tables)

outcome : Staged
unfolding stage_csv
outcome = stage_csv settings claim around platform whole true nothing_staged

abbrev progress_of : Staged → Progress
progress_of (ok (p, r, t)) = p
progress_of _ = record { total_rows = 0; valid_rows = 0; invalid_rows = 0; issue_count = 0 }

abbrev tables_of : Staged → Tables
tables_of (ok (p, r, t)) = t
tables_of _ = nothing_staged

returned :
    stage_csv settings claim around platform whole true nothing_staged
    ≡ ok (progress_of outcome, true, tables_of outcome)
unfolding outcome iter_sales_rows_v1_csv validate_sales_headers strip validate cell zip_cells
    text_field date_field is_date days_in_month decimal_field currency_issues zero_issues
    sign_issues locked_live_claim
returned = refl

stage_csv-staged_example :
    let results = (iter_sales_rows_v1_csv platform 10 whole).0 in
    let p = progress_of outcome in
    ((tables_of outcome).staged ≡ [] ++ rows_of 10 results)
    × (p.total_rows ≡ length results)
    × (p.valid_rows ≡ length (rows_of 10 results))
    × (p.valid_rows + p.invalid_rows ≡ p.total_rows)
    × ((true ≡ false) ↔ (
        (p.invalid_rows ≡ 0)
        × (true ≡ true)
        × ((iter_sales_rows_v1_csv platform 10 whole).1 ≡ none)))
stage_csv-staged_example =
    stage_csv-staged settings claim around platform whole true nothing_staged (tables_of outcome)
      (progress_of outcome) true returned

abbrev own_row : ℕ → Text → StagedRow
own_row n id = record (sample_row n id) { attempt = 10 }

-- Two rows of the attempt, staged out of order, and one of an earlier attempt.
abbrev ready : State
ready = record {
  tables = record {
    queue = db;
    staged = own_row 3 (codes "b") ∷ sample_row 2 (codes "a") ∷ own_row 2 (codes "a") ∷ [];
  };
  store = record { facts = []; next_id = 1 };
}

abbrev lock_polls : List Poll
lock_polls =
    record { taken = false; checked_at = 4; refused = false }
    ∷ record { taken = false; checked_at = 6; refused = false }
    ∷ record { taken = true; checked_at = 8; refused = false }
    ∷ []

wait_for_lock-AreClose_example : AreClose (3 + 4) 0 ((wait_for_lock 0 10 3 lock_polls).1)
wait_for_lock-AreClose_example =
    wait_for_lock-AreClose 0 10 3 4 lock_polls (omega arith, (omega arith, (omega arith, tt)))

wait_for_lock_renews : (wait_for_lock 0 10 3 lock_polls).1 ≡ 4 ∷ 8 ∷ []
unfolding wait_for_lock poll_lock
wait_for_lock_renews = refl

download_beats_renews :
    download_beats (1 ∷ 3 ∷ 5 ∷ 6 ∷ []) record { interval = 3; last_heartbeat = 0 } ≡ 3 ∷ 6 ∷ []
unfolding download_beats on_progress
download_beats_renews = refl
