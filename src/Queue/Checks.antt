-- ===== src/Queue/Checks.antt =====
-- The CHECK constraints of `SalesImportJob` in sales_imports/models.py and the audit trigger on
-- attempts of sales_imports/migrations/0008_processing_audit_guards.py, as tests on rows.
pub mod Rows
use pharma_intel.Base.{
  ℕ, ◌≡◌, Bool, true, false, not, ◌&&◌, ◌||◌, Option, none, some, Result, ok, err, ◌>>◌, raise_if,
  leb, ltb, ◌==◌, is_some, is_none,
}
use pharma_intel.Base.Text.{Text, text_eq, is_empty}
use pharma_intel.Queue.Counts.{Status, is_published, counts_checked}
use pharma_intel.Queue.Rows.{Job, Attempt, Outcome, is_processing, is_running}
use mathlib.Core.List.{[], ◌∷◌, reverse}

-- `status__in=("published", "rejected", "failed", "cancelled")`
abbrev pub is_terminal : Status → Bool
is_terminal Status.published = true
is_terminal Status.rejected = true
is_terminal Status.failed = true
is_terminal Status.cancelled = true
is_terminal _ = false

-- `sales_job_attempts_valid`
abbrev pub attempts_valid : Job → Bool
attempts_valid j = ltb 0 j.max_attempts && leb j.attempt_count j.max_attempts

-- `sales_job_lease_consistent`
abbrev pub lease_consistent : Job → Bool
lease_consistent j =
    (is_processing j.status
      && is_some j.lease_token
      && is_some j.lease_expires_at
      && is_some j.heartbeat_at
      && is_some j.first_started_at
      && is_none j.finished_at
      && not (is_empty j.leased_by))
    || (not (is_processing j.status)
        && is_none j.lease_token
        && is_empty j.leased_by
        && is_none j.lease_expires_at
        && is_none j.heartbeat_at)

-- `sales_job_finished_consistent`
abbrev pub finished_consistent : Job → Bool
finished_consistent j =
    (is_terminal j.status && is_some j.finished_at)
    || (not (is_terminal j.status) && is_none j.finished_at)

-- Whether `Trim`, which takes blanks off, leaves a text alone.
abbrev pub blank_first : Text → Bool
blank_first [] = false
blank_first (c ∷ s) = c == 32

abbrev pub equals_trim : Text → Bool
equals_trim s = not (blank_first s) && not (blank_first (reverse s))

-- Every CHECK constraint on a job row, `sales_job_status_valid` by its type.
unfoldable pub job_checked : Job → Bool
job_checked j =
    attempts_valid j
    && counts_checked j.status j.counts
    && lease_consistent j
    && finished_consistent j
    && equals_trim j.leased_by

-- The exceptions that `sales_imports_protect_attempt_audit` raises, by their constraints.
pub data GuardError : Type 0 where
  attempt_terminal_immutable attempt_identity_immutable : GuardError

unfoldable pub same_identity : Attempt → Attempt → Bool
same_identity old new =
    (new.id == old.id)
    && (new.job == old.job)
    && (new.attempt_number == old.attempt_number)
    && (new.lease_token == old.lease_token)
    && text_eq new.worker_id old.worker_id
    && (new.started_at == old.started_at)

-- The trigger on an update of an attempt; no code deletes one.
unfoldable pub attempt_guard : Attempt → Attempt → Result GuardError (Unit {0})
unfolding same_identity
attempt_guard old new = do
  raise_if (not (is_running old.outcome)) attempt_terminal_immutable
  raise_if (not (same_identity old new)) attempt_identity_immutable
