-- ===== src/Intake/Tests.antt =====
-- An intake row that is receiving its file, and the theorems of the intake at it.
use pharma_intel.Base.{◌≡◌, refl, true, false, none, some, [], ◌∷◌, ok}
use pharma_intel.Base.Text.{Text, codes, strip}
use pharma_intel.Base.Table.{put}
use pharma_intel.Intake.Row.{SalesImport, csv, IntakeStatus, FailureCode, intake_key, is_receiving}
use pharma_intel.Intake.Guard.{
  audit_guard, status_metadata_consistent, same_lineage, row_checked, within_widths,
}
use pharma_intel.Intake.Arn.{kms_key_valid}
use pharma_intel.Intake.Evidence.{unchanged, updated, evidence_kept}
use pharma_intel.Intake.Transitions.{
  mark_received, mark_failed, mark_stored_object_failed, record_legacy_kms_key_arn, received_row,
  failed_row, stored_failed_row, keyed_row, is_kms_key_arn,
}
use pharma_intel.Intake.Transitions.Laws.{receiving_marked, received_marked, legacy_keyed}

abbrev key_arn : Text
key_arn = codes "arn:aws:kms:eu-west-1:123456789012:key/k1"

abbrev pub new_import : SalesImport
new_import = record {
  id = 1;
  data_contract = codes "sales_v1";
  row_contract = codes "sales_rows_v1";
  source_system = codes "ERP";
  original_filename = codes "a.csv";
  content_type = codes "text/csv";
  file_format = csv;
  size_bytes = 12;
  sha256 = codes "ab";
  storage_bucket = codes "bucket";
  storage_kms_key_arn = some key_arn;
  storage_key = codes "object";
  storage_version_id = codes "";
  uploaded_by = 3;
  status = IntakeStatus.receiving;
  failure_code = FailureCode.no_failure;
  received_at = none;
  failed_at = none;
  created_at = 5;
}

abbrev pub received_import : SalesImport
received_import = received_row (codes "v1") 9 new_import

abbrev legacy_import : SalesImport
legacy_import = record received_import { storage_kms_key_arn = none }

abbrev lost_import : SalesImport
lost_import = stored_failed_row FailureCode.object_missing 20 received_import

receiving_marked_example :
    (mark_received 1 (codes "v1 ") 9 (new_import ∷ [])
      ≡ ok (put intake_key received_import (new_import ∷ [])))
    × (row_checked received_import ≡ true)
    × (mark_failed 1 FailureCode.storage_error 9 (new_import ∷ [])
        ≡ ok (put intake_key (failed_row FailureCode.storage_error 9 new_import) (new_import ∷ [])))
    × (row_checked (failed_row FailureCode.storage_error 9 new_import) ≡ true)
unfolding row_checked within_widths status_metadata_consistent kms_key_valid strip
receiving_marked_example =
    receiving_marked 1 9 (new_import ∷ []) new_import refl refl (codes "v1 ")
      FailureCode.storage_error refl refl refl refl refl

received_marked_example :
    (mark_stored_object_failed 1 FailureCode.object_missing 20 (received_import ∷ [])
      ≡ ok (put intake_key lost_import (received_import ∷ [])))
    × (row_checked lost_import ≡ true)
unfolding row_checked within_widths status_metadata_consistent kms_key_valid
received_marked_example =
    received_marked 1 20 (received_import ∷ []) received_import refl refl FailureCode.object_missing
      refl refl refl

legacy_keyed_example :
    (record_legacy_kms_key_arn 1 key_arn (legacy_import ∷ [])
      ≡ ok (put intake_key (keyed_row key_arn legacy_import) (legacy_import ∷ [])))
    × (row_checked (keyed_row key_arn legacy_import) ≡ true)
unfolding row_checked within_widths status_metadata_consistent kms_key_valid strip is_kms_key_arn
legacy_keyed_example =
    legacy_keyed 1 20 (legacy_import ∷ []) legacy_import refl refl key_arn refl refl refl refl

evidence_kept_example :
    (lost_import.received_at ≡ received_import.received_at)
    × (lost_import.storage_version_id ≡ received_import.storage_version_id)
    × (lost_import.storage_key ≡ received_import.storage_key)
    × (lost_import.sha256 ≡ received_import.sha256)
    × (is_receiving lost_import.status ≡ false)
unfolding audit_guard same_lineage
evidence_kept_example = evidence_kept received_import lost_import (updated unchanged refl) refl
