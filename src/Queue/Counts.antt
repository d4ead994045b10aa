-- ===== src/Queue/Counts.antt =====
-- `SalesImportJobCounts` of sales_imports/queue.py, and the CHECK constraints on the same counters
-- of sales_imports/models.py.
pub mod Laws
use pharma_intel.Base.{◌≡◌, Bool, true, false, not, ◌&&◌, ◌||◌, Result, ok, err, ◌>>◌, raise_if}
use pharma_intel.Base.Int.{ℤ, pos, is_negative, eqb_ℤ, ltb_ℤ, leb_ℤ, ◌+ℤ◌}

-- `SalesImportJob.Status`
pub data Status : Type 0 where
  waiting_for_file awaiting_parser queued processing retry_wait : Status
  published rejected failed cancelled : Status

pub record Counts : Type 0 where
  pub total_rows : ℤ
  pub valid_rows : ℤ
  pub invalid_rows : ℤ
  pub issue_count : ℤ
  pub inserted_rows : ℤ
  pub reused_rows : ℤ

abbrev pub no_counts : Counts
no_counts = record {
  total_rows = pos 0;
  valid_rows = pos 0;
  invalid_rows = pos 0;
  issue_count = pos 0;
  inserted_rows = pos 0;
  reused_rows = pos 0;
}

-- The messages of the `ValueError`s that `validate_for` raises.
pub data CountError : Type 0 where
  negative_counter rows_do_not_add_up too_few_issues : CountError
  published_with_issues published_rows_do_not_add_up applied_without_publishing : CountError
  rejected_without_issue : CountError

abbrev pub is_published : Status → Bool
is_published published = true
is_published _ = false

abbrev pub is_rejected : Status → Bool
is_rejected rejected = true
is_rejected _ = false

-- The truth value of a Python integer.
abbrev pub truthy : ℤ → Bool
truthy a = not (eqb_ℤ a (pos 0))

abbrev any_negative : Counts → Bool
any_negative c =
    is_negative c.total_rows
    || is_negative c.valid_rows
    || is_negative c.invalid_rows
    || is_negative c.issue_count
    || is_negative c.inserted_rows
    || is_negative c.reused_rows

validate_applied : Status → Counts → Result CountError (Unit {0})
validate_applied published c = do
  raise_if (truthy c.invalid_rows || truthy c.issue_count) published_with_issues
  raise_if (not (eqb_ℤ c.valid_rows (c.inserted_rows +ℤ c.reused_rows)))
      published_rows_do_not_add_up
validate_applied s c =
    raise_if (truthy c.inserted_rows || truthy c.reused_rows) applied_without_publishing

unfoldable pub validate_for : Status → Counts → Result CountError (Unit {0})
unfolding validate_applied
validate_for s c = do
  raise_if (any_negative c) negative_counter
  raise_if (not (eqb_ℤ c.total_rows (c.valid_rows +ℤ c.invalid_rows))) rows_do_not_add_up
  raise_if (ltb_ℤ c.issue_count c.invalid_rows) too_few_issues
  validate_applied s c
  raise_if (is_rejected s && eqb_ℤ c.issue_count (pos 0)) rejected_without_issue

-- The `PositiveBigIntegerField`s.
abbrev counters_positive : Counts → Bool
counters_positive c = not (any_negative c)

-- `sales_job_counts_valid`
abbrev counts_valid : Counts → Bool
counts_valid c =
    eqb_ℤ c.total_rows (c.valid_rows +ℤ c.invalid_rows) && leb_ℤ c.invalid_rows c.issue_count

-- `sales_job_publish_counts_valid`
abbrev publish_counts_valid : Status → Counts → Bool
publish_counts_valid s c =
    (is_published s
      && eqb_ℤ c.invalid_rows (pos 0)
      && eqb_ℤ c.issue_count (pos 0)
      && eqb_ℤ c.total_rows c.valid_rows
      && eqb_ℤ c.valid_rows (c.inserted_rows +ℤ c.reused_rows))
    || (not (is_published s) && eqb_ℤ c.inserted_rows (pos 0) && eqb_ℤ c.reused_rows (pos 0))

-- `sales_job_rejection_has_issue`
abbrev rejection_has_issue : Status → Counts → Bool
rejection_has_issue s c = not (is_rejected s) || ltb_ℤ (pos 0) c.issue_count

-- What the database checks of the counters of a job row.
unfoldable pub counts_checked : Status → Counts → Bool
counts_checked s c =
    counters_positive c && counts_valid c && publish_counts_valid s c && rejection_has_issue s c
