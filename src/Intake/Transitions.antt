-- ===== src/Intake/Transitions.antt =====
-- The status transitions of `SalesImport` of sales_imports/models.py.
pub mod Laws
use pharma_intel.Base.{
  ℕ, zero, suc, Bool, true, false, not, ◌&&◌, ◌||◌, Option, none, some, List, [], ◌∷◌, ◌==◌,
  is_some, is_none, all, leb, if◌then◌else◌, Result, ok, err, ◌>>=◌, ◌>>◌, raise_if,
}
use pharma_intel.Base.Text.{Text, codes, is_empty, is_space, strip}
use pharma_intel.Base.Table.{get, put}
use pharma_intel.Intake.Row.{
  SalesImport, IntakeStatus, receiving, received, failed, FailureCode, no_failure, storage_error,
  object_missing, verification_failed, intake_key, is_receiving, is_received,
}
use pharma_intel.Intake.Arn.{before_key}
use pharma_intel.Intake.Guard.{UpdateError, update_row}

-- What a transition raises: for its arguments, for a row that is not in the state it asks for, or
-- out of the database.
pub data TransitionError : Type 0 where
  value_error runtime_error : TransitionError
  database_error : UpdateError → TransitionError

-- `filter(pk=..., ...).update(...)`, and the check that it met one row.
unfoldable pub update_where :
    (SalesImport → Bool)
    → (SalesImport → SalesImport)
    → ℕ
    → List SalesImport
    → Result TransitionError (List SalesImport)
unfolding update_row
update_where test change id imports = elim (get intake_key id imports) [
  | none ↦ err runtime_error
  | some s ↦
      if test s
      then elim (update_row s (change s)) [
        | err e ↦ err (database_error e)
        | ok u ↦ ok (put intake_key (change s) imports)
      ]
      else err runtime_error
]

abbrev pub received_row : Text → ℕ → SalesImport → SalesImport
received_row version_id now s = record s {
  status = received;
  storage_version_id = version_id;
  received_at = some now;
  failure_code = no_failure;
  failed_at = none;
}

unfoldable pub mark_received :
    ℕ → Text → ℕ → List SalesImport → Result TransitionError (List SalesImport)
unfolding update_where
mark_received id version_id now imports = do
  let version = strip version_id
  raise_if (is_empty version) value_error
  update_where (λ s. is_receiving s.status) (received_row version now) id imports

abbrev pub failed_row : FailureCode → ℕ → SalesImport → SalesImport
failed_row code now s = record s {
  status = failed;
  storage_version_id = codes "";
  received_at = none;
  failure_code = code;
  failed_at = some now;
}

abbrev pub is_failure : FailureCode → Bool
is_failure no_failure = false
is_failure _ = true

-- The code is one of `FailureCode`, by its type.
unfoldable pub mark_failed :
    ℕ → FailureCode → ℕ → List SalesImport → Result TransitionError (List SalesImport)
unfolding update_where
mark_failed id code now imports = do
  raise_if (not (is_failure code)) value_error
  update_where (λ s. is_receiving s.status) (failed_row code now) id imports

abbrev pub stored_failed_row : FailureCode → ℕ → SalesImport → SalesImport
stored_failed_row code now s = record s {
  status = failed;
  failure_code = code;
  failed_at = some now;
}

abbrev pub is_stored_failure : FailureCode → Bool
is_stored_failure object_missing = true
is_stored_failure verification_failed = true
is_stored_failure _ = false

unfoldable pub mark_stored_object_failed :
    ℕ → FailureCode → ℕ → List SalesImport → Result TransitionError (List SalesImport)
unfolding update_where
mark_stored_object_failed id code now imports = do
  raise_if (not (is_stored_failure code)) value_error
  update_where (λ s. is_received s.status) (stored_failed_row code now) id imports

-- `[^/\s]+`, to the end of the text.
abbrev is_key_id : Text → Bool
is_key_id s = not (is_empty s) && all (λ c. not (c == 47) && not (is_space c)) s

-- `KMS_KEY_ARN_PATTERN.fullmatch`
unfoldable pub is_kms_key_arn : Text → Bool
is_kms_key_arn s = elim (before_key s) [ none ↦ false | some t ↦ is_key_id t ]

-- Whether the row has what its object can be verified by.
abbrev pub is_verifiable : SalesImport → Bool
is_verifiable s =
    (is_receiving s.status && is_none s.received_at && is_empty s.storage_version_id)
    || (not (is_receiving s.status) && is_some s.received_at && not (is_empty s.storage_version_id))

abbrev pub keyed_row : Text → SalesImport → SalesImport
keyed_row arn s = record s { storage_kms_key_arn = some arn }

unfoldable pub record_legacy_kms_key_arn :
    ℕ → Text → List SalesImport → Result TransitionError (List SalesImport)
unfolding update_where
record_legacy_kms_key_arn id kms_key_arn imports = do
  let arn = strip kms_key_arn
  raise_if (not (is_kms_key_arn arn)) value_error
  update_where (λ s. is_none s.storage_kms_key_arn && is_verifiable s) (keyed_row arn) id imports
