-- ===== src/Intake/Row.antt =====
-- The columns of `SalesImport` in sales_imports/models.py. Times are microseconds since an epoch;
-- `created_at` is set once. `updated_at`, which no code reads, is left out.
use pharma_intel.Base.{ℕ, Option, Bool, true, false}
use pharma_intel.Base.Text.{Text}

pub data FileFormat : Type 0 where
  csv xlsx : FileFormat

-- `SalesImport.Status`
pub data IntakeStatus : Type 0 where
  receiving received failed : IntakeStatus

-- `SalesImport.FailureCode`; `no_failure` is the empty text.
pub data FailureCode : Type 0 where
  no_failure storage_error object_missing verification_failed : FailureCode

pub record SalesImport : Type 0 where
  pub id : ℕ
  pub data_contract : Text
  pub row_contract : Text
  pub source_system : Text
  pub original_filename : Text
  pub content_type : Text
  pub file_format : FileFormat
  pub size_bytes : ℕ
  pub sha256 : Text
  pub storage_bucket : Text
  pub storage_kms_key_arn : Option Text
  pub storage_key : Text
  pub storage_version_id : Text
  pub uploaded_by : ℕ
  pub status : IntakeStatus
  pub failure_code : FailureCode
  pub received_at : Option ℕ
  pub failed_at : Option ℕ
  pub created_at : ℕ

abbrev pub is_csv : FileFormat → Bool
is_csv csv = true
is_csv xlsx = false

abbrev pub is_received : IntakeStatus → Bool
is_received received = true
is_received _ = false

abbrev pub is_receiving : IntakeStatus → Bool
is_receiving receiving = true
is_receiving _ = false

abbrev pub intake_key : SalesImport → ℕ
intake_key s = s.id
