-- ===== src/Intake/Guard.antt =====
-- What PostgreSQL checks of an update of an intake row: the trigger `sales_imports_protect_audit_row`
-- and the constraint `sales_import_kms_required_new` of
-- sales_imports/migrations/0007_harden_kms_provenance.py, and of sales_imports/models.py
-- `sales_import_status_metadata_consistent`, `sales_import_kms_key_valid` and the widths of columns.
use pharma_intel.Base.{
  ℕ, Bool, true, false, not, ◌&&◌, ◌||◌, Option, none, some, ◌==◌, is_some, is_none, Result, ok,
  err, ◌>>◌, raise_if, leb, length, if◌then◌else◌,
}
use pharma_intel.Base.Text.{Text, text_eq, is_empty}
use pharma_intel.Intake.Arn.{kms_key_valid}
use pharma_intel.Intake.Row.{
  SalesImport, FileFormat, csv, xlsx, IntakeStatus, receiving, received, failed, FailureCode,
  no_failure, storage_error, object_missing, verification_failed,
}

-- The constraints that the trigger names.
pub data AuditError : Type 0 where
  status_transition_invalid lineage_immutable kms_backfill_only : AuditError
  received_evidence_invalid storage_evidence_immutable : AuditError

abbrev pub status_eq : IntakeStatus → IntakeStatus → Bool
status_eq receiving receiving = true
status_eq received received = true
status_eq failed failed = true
status_eq _ _ = false

abbrev pub failure_eq : FailureCode → FailureCode → Bool
failure_eq no_failure no_failure = true
failure_eq storage_error storage_error = true
failure_eq object_missing object_missing = true
failure_eq verification_failed verification_failed = true
failure_eq _ _ = false

abbrev format_eq : FileFormat → FileFormat → Bool
format_eq csv csv = true
format_eq xlsx xlsx = true
format_eq _ _ = false

-- `IS NOT DISTINCT FROM`
abbrev pub time_eq : Option ℕ → Option ℕ → Bool
time_eq none none = true
time_eq (some a) (some b) = a == b
time_eq _ _ = false

abbrev pub arn_eq : Option Text → Option Text → Bool
arn_eq none none = true
arn_eq (some a) (some b) = text_eq a b
arn_eq _ _ = false

abbrev pub kms_backfill : SalesImport → SalesImport → Bool
kms_backfill old new =
    status_eq old.status new.status
    && is_none old.storage_kms_key_arn
    && is_some new.storage_kms_key_arn

-- Whether the status goes from receiving to another one, or from received to failed.
abbrev pub moves_on : IntakeStatus → IntakeStatus → Bool
moves_on receiving received = true
moves_on receiving failed = true
moves_on received failed = true
moves_on _ _ = false

unfoldable pub same_lineage : SalesImport → SalesImport → Bool
same_lineage old new =
    (new.id == old.id)
    && text_eq new.data_contract old.data_contract
    && text_eq new.row_contract old.row_contract
    && text_eq new.source_system old.source_system
    && text_eq new.original_filename old.original_filename
    && text_eq new.content_type old.content_type
    && format_eq new.file_format old.file_format
    && (new.size_bytes == old.size_bytes)
    && text_eq new.sha256 old.sha256
    && text_eq new.storage_bucket old.storage_bucket
    && text_eq new.storage_key old.storage_key
    && (new.uploaded_by == old.uploaded_by)
    && (new.created_at == old.created_at)

abbrev pub same_evidence : SalesImport → SalesImport → Bool
same_evidence old new =
    time_eq new.received_at old.received_at && text_eq new.storage_version_id old.storage_version_id

abbrev same_state : SalesImport → SalesImport → Bool
same_state old new =
    status_eq new.status old.status
    && failure_eq new.failure_code old.failure_code
    && time_eq new.failed_at old.failed_at
    && same_evidence old new

-- The trigger on an update; no code deletes an intake row.
unfoldable pub audit_guard : SalesImport → SalesImport → Result AuditError (Unit {0})
unfolding same_lineage
audit_guard old new = do
  raise_if (not (moves_on old.status new.status || kms_backfill old new)) status_transition_invalid
  raise_if
      (not (same_lineage old new)
        || (not (kms_backfill old new)
            && not (arn_eq new.storage_kms_key_arn old.storage_kms_key_arn)))
      lineage_immutable
  raise_if (kms_backfill old new && not (same_state old new)) kms_backfill_only
  raise_if
      (status_eq old.status receiving && status_eq new.status failed && not (same_evidence old new))
      received_evidence_invalid
  raise_if
      (status_eq old.status received && status_eq new.status failed && not (same_evidence old new))
      storage_evidence_immutable

abbrev is_permanent : FailureCode → Bool
is_permanent object_missing = true
is_permanent verification_failed = true
is_permanent _ = false

abbrev failed_consistent : SalesImport → Bool
failed_consistent s =
    is_some s.failed_at
    && not (failure_eq s.failure_code no_failure)
    && ((is_none s.received_at && is_empty s.storage_version_id)
        || (is_some s.received_at
            && is_permanent s.failure_code
            && not (is_empty s.storage_version_id)))

-- `sales_import_status_metadata_consistent`
unfoldable pub status_metadata_consistent : SalesImport → Bool
status_metadata_consistent s = elim (SalesImport.status s) [
  | receiving ↦
      is_none s.received_at
      && is_none s.failed_at
      && is_empty s.storage_version_id
      && failure_eq s.failure_code no_failure
  | received ↦
      is_some s.received_at
      && is_none s.failed_at
      && failure_eq s.failure_code no_failure
      && not (is_empty s.storage_version_id)
  | failed ↦ failed_consistent s
]

-- `max_length` of the two columns that are written.
abbrev arn_fits : Option Text → Bool
arn_fits none = true
arn_fits (some arn) = leb (length arn) 2048

unfoldable pub within_widths : SalesImport → Bool
within_widths s = leb (length s.storage_version_id) 1024 && arn_fits s.storage_kms_key_arn

-- The constraints on what an update writes, but for the one that a key is there, which rows from
-- before it need not pass.
unfoldable pub row_checked : SalesImport → Bool
unfolding within_widths status_metadata_consistent kms_key_valid
row_checked s =
    within_widths s && kms_key_valid s.storage_kms_key_arn && status_metadata_consistent s

-- An update of one row: the widths, the trigger, and the constraints. The other constraints speak of
-- columns that stay.
pub data UpdateError : Type 0 where
  audit : AuditError → UpdateError
  value_too_long check_violated : UpdateError

unfoldable pub update_row : SalesImport → SalesImport → Result UpdateError (Unit {0})
unfolding audit_guard row_checked within_widths
update_row old new =
    if not (within_widths new) then err value_too_long else elim (audit_guard old new) [
      | err e ↦ err (audit e)
      | ok u ↦ raise_if (not (is_some new.storage_kms_key_arn && row_checked new)) check_violated
    ]
