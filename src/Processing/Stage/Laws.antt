-- ===== src/Processing/Stage/Laws.antt =====
-- What `_stage_csv` stages and counts.
use pharma_intel.Base.{
  ℕ, ◌+◌, ◌≡◌, refl, Bool, true, false, ◌||◌, Option, none, some, List, ◌++◌, length, arith, ok,
  ltb, >>=-eq-ok, sym, ◌↔◌, ◌∙◌, ap, Result, err,
}
use mathlib.Core.List.{append-nil}
use pharma_intel.Contract.Headers.{FileError}
use pharma_intel.Contract.Fields.{Platform}
use pharma_intel.Contract.File.{Read, iter_sales_rows_v1_csv}
use pharma_intel.Queue.Rows.{QueueError}
use pharma_intel.Queue.Claim.{SalesImportClaim}
use pharma_intel.Processing.Issues.{IssueCollector, persisted}
use pharma_intel.Processing.Stage.{Settings, Progress, Tables, record_parse_batch, Staging}
use pharma_intel.Processing.Stage.Loop.{
  Surroundings, seen_by, stage_results, ending_of, close_file, of_queue, start, close_stage,
  stage_csv,
}
use pharma_intel.Processing.Stage.Turns.{rows_of, record_parse_batch-staged, stage_results-Turns}

of_queue-ok : {A : Type 0} (r : Result QueueError A) (a : A) → of_queue r ≡ ok a → r ≡ ok a
of_queue-ok (ok b) a h = ground (arith, h)
of_queue-ok (err e) a h = absurd (ground (arith, h))

-- A file is let through exactly if its end was reached and decoded.
close_file-let :
    (settings : Settings) (claim : SalesImportClaim) (around : Surroundings) (decodable : Bool)
    (error : Option FileError) (c c' : IssueCollector) (refused : Bool)
    → close_file settings claim around (ending_of decodable error) c ≡ ok (c', refused)
    → (refused ≡ false) ↔ ((decodable ≡ true) × (error ≡ none))
unfolding close_file
close_file-let settings claim around true none c c' refused h = ground (arith, h)
close_file-let settings claim around false none c c' refused h = ground (arith, h)
close_file-let settings claim around true (some e) c c' refused h = ground (arith, h)
close_file-let settings claim around false (some e) c c' refused h = ground (arith, h)

-- What follows the loop stages the rows that are pending.
close_stage-lem :
    (settings : Settings) (claim : SalesImportClaim) (around : Surroundings) (decodable : Bool)
    (error : Option FileError) (n : ℕ) (s : Staging) (t after : Tables) (progress : Progress)
    (rejected : Bool)
    → close_stage settings claim around decodable error (n, s, t) ≡ ok (progress, rejected, after)
    → (after.staged ≡ t.staged ++ s.pending_rows)
      × (progress.total_rows ≡ (Staging.progress s).total_rows)
      × (progress.valid_rows ≡ (Staging.progress s).valid_rows)
      × (progress.invalid_rows ≡ (Staging.progress s).invalid_rows)
      × ((rejected ≡ false) ↔ ((progress.invalid_rows ≡ 0) × (decodable ≡ true) × (error ≡ none)))
unfolding close_stage
close_stage-lem settings claim around decodable error n s t after progress rejected h =
    let ((c, refused), a, h₁) =
      >>=-eq-ok (close_file settings claim around (ending_of decodable error) s.collector) _ h in
    let now = record (s.progress) { issue_count = IssueCollector.total c } in
    let (t', b, h₂) =
      >>=-eq-ok
        (of_queue (
          record_parse_batch settings claim s.pending_rows ((persisted c).0) now (around.clock n)
            (seen_by around n t)))
        _ h₁ in
    let g =
      record_parse_batch-staged settings claim s.pending_rows ((persisted c).0) now (around.clock n)
        (seen_by around n t) t'
        (of_queue-ok
          (record_parse_batch settings claim s.pending_rows ((persisted c).0) now (around.clock n)
            (seen_by around n t))
          t' b) in
    let k = close_file-let settings claim around decodable error s.collector c refused a in
    let same : t' ≡ after = ground (arith, h₂) in
    let which : (refused || ltb 0 (Staging.progress s).invalid_rows) ≡ rejected =
      ground (arith, h₂) in
    (
      ap Tables.staged (sym same) ∙ g,
      ground (arith, h₂),
      ground (arith, h₂),
      ground (arith, h₂),
      ground (arith, h₂, which, k),
    )

-- If a file is staged without losing the lease, each of its valid rows is staged exactly once, in
-- the file's order, whatever the size of the batches and whatever other transactions do between
-- them; the rows are counted, and the valid ones among them. A file that is not rejected has no
-- invalid row, is UTF-8 throughout and was read to its end without an error.
pub stage_csv-staged :
    (settings : Settings) (claim : SalesImportClaim) (around : Surroundings) (p : Platform)
    (reads : List Read) (decodable : Bool) (before after : Tables) (progress : Progress)
    (rejected : Bool)
    → stage_csv settings claim around p reads decodable before ≡ ok (progress, rejected, after)
    → let results = (iter_sales_rows_v1_csv p settings.max_rows reads).0 in
      (after.staged ≡ before.staged ++ rows_of claim.attempt_id results)
      × (progress.total_rows ≡ length results)
      × (progress.valid_rows ≡ length (rows_of claim.attempt_id results))
      × (progress.valid_rows + progress.invalid_rows ≡ progress.total_rows)
      × ((rejected ≡ false) ↔ (
          (progress.invalid_rows ≡ 0)
          × (decodable ≡ true)
          × ((iter_sales_rows_v1_csv p settings.max_rows reads).1 ≡ none)))
unfolding stage_csv
stage_csv-staged settings claim around p reads decodable before after progress rejected h =
    let read = iter_sales_rows_v1_csv p settings.max_rows reads in
    let ((n, s, t), a, h₁) =
      >>=-eq-ok
        (of_queue
          (stage_results settings claim around 0 (read.0) (start settings claim around) before))
        _ h in
    let x =
      stage_results-Turns settings claim around claim.attempt_id 0 n (read.0)
        (start settings claim around) s before t refl
        (of_queue-ok
          (stage_results settings claim around 0 (read.0) (start settings claim around) before)
          (n, s, t) a) in
    let (staged, total, valid, invalid, which) =
      close_stage-lem settings claim around decodable (read.1) n s t after progress rejected h₁ in
    (
      staged
          ∙ x.staged
          ∙ ap (λ rows. rows ++ rows_of claim.attempt_id (read.0)) (append-nil before.staged),
      omega (arith, total, x.total),
      omega (arith, valid, x.valid),
      omega (arith, total, valid, invalid, x.added),
      which,
    )
