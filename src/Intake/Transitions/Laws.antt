-- ===== src/Intake/Transitions/Laws.antt =====
-- The transitions pass the trigger and the constraints, each from the state that it asks for.
use pharma_intel.Base.{
  ℕ, ◌≡◌, refl, true, false, Option, none, some, List, is_some, is_none, ok, arith, leb, length,
  Option-cases, inl, inr,
}
use pharma_intel.Base.Text.{Text, is_empty, strip, text_eq, text_eq_iff, strip-IsTrimmed}
use pharma_intel.Queue.Checks.{equals_trim}
use pharma_intel.Queue.Checks.Rows.{equals_trim_of_trimmed}
use pharma_intel.Intake.Arn.{before_key, kms_key_valid}
use pharma_intel.Base.Table.{get, put}
use pharma_intel.Intake.Row.{SalesImport, FailureCode, intake_key, is_receiving, is_received}
use pharma_intel.Intake.Guard.{
  audit_guard, same_lineage, update_row, status_metadata_consistent, row_checked, within_widths,
  arn_eq, time_eq,
}
use pharma_intel.Intake.Transitions.{
  mark_received, mark_failed, mark_stored_object_failed, record_legacy_kms_key_arn, received_row,
  failed_row, stored_failed_row, keyed_row, is_failure, is_stored_failure, is_kms_key_arn,
  is_verifiable,
}

text_eq_refl : (s : Text) → text_eq s s ≡ true
text_eq_refl s = (text_eq_iff s s).1 refl

-- A row has the lineage of each of its new versions.
lineage_kept : (s : SalesImport) → same_lineage s s ≡ true
unfolding same_lineage
lineage_kept s = ground (
  arith,
  text_eq_refl s.data_contract,
  text_eq_refl s.row_contract,
  text_eq_refl s.source_system,
  text_eq_refl s.original_filename,
  text_eq_refl s.content_type,
  text_eq_refl s.sha256,
  text_eq_refl s.storage_bucket,
  text_eq_refl s.storage_key,
)

arn_eq_refl : (a : Option Text) → arn_eq a a ≡ true
arn_eq_refl none = refl
arn_eq_refl (some t) = text_eq_refl t

time_eq_refl : (a : Option ℕ) → time_eq a a ≡ true
time_eq_refl none = refl
time_eq_refl (some t) = ground arith

-- The pattern of the code is within that of the database.
key_arn_valid :
    (arn : Text)
    → is_kms_key_arn arn ≡ true
    → equals_trim arn ≡ true
    → kms_key_valid (some arn) ≡ true
unfolding is_kms_key_arn kms_key_valid
key_arn_valid arn p t = elim (Option-cases (before_key arn)) [
  | inl e ↦ absurd (ground (arith, e, p))
  | inr (key, e) ↦ ground (arith, e, p, t)
]

module _ (id now : ℕ) (imports : List SalesImport) (s : SalesImport)
    (there : get intake_key id imports ≡ some s) (consistent : row_checked s ≡ true) where
  received_passes :
      (version : Text)
      → is_some s.storage_kms_key_arn ≡ true
      → is_receiving s.status ≡ true
      → is_empty version ≡ false
      → leb (length version) 1024 ≡ true
      → (update_row s (received_row version now s) ≡ ok tt)
        × (row_checked (received_row version now s) ≡ true)
  unfolding update_row audit_guard row_checked within_widths status_metadata_consistent same_lineage
  received_passes version k r v w =
      let l : same_lineage s (received_row version now s) ≡ true = lineage_kept s in
      (
        ground (arith, l, consistent, arn_eq_refl s.storage_kms_key_arn, k, r, v, w),
        ground (arith, consistent, r, v, w),
      )

  failed_passes :
      (code : FailureCode)
      → is_some s.storage_kms_key_arn ≡ true
      → is_receiving s.status ≡ true
      → is_failure code ≡ true
      → (update_row s (failed_row code now s) ≡ ok tt)
        × (row_checked (failed_row code now s) ≡ true)
  unfolding update_row audit_guard row_checked within_widths status_metadata_consistent same_lineage
  failed_passes code k r f =
      let l : same_lineage s (failed_row code now s) ≡ true = lineage_kept s in
      (
        ground (arith, l, consistent, arn_eq_refl s.storage_kms_key_arn, k, r, f),
        ground (arith, consistent, r, f),
      )

  stored_failed_passes :
      (code : FailureCode)
      → is_some s.storage_kms_key_arn ≡ true
      → is_received s.status ≡ true
      → is_stored_failure code ≡ true
      → (update_row s (stored_failed_row code now s) ≡ ok tt)
        × (row_checked (stored_failed_row code now s) ≡ true)
  unfolding update_row audit_guard row_checked within_widths status_metadata_consistent same_lineage
  stored_failed_passes code k r f =
      let l : same_lineage s (stored_failed_row code now s) ≡ true = lineage_kept s in
      (
        ground (
          arith,
          l,
          consistent,
          arn_eq_refl s.storage_kms_key_arn,
          time_eq_refl s.received_at,
          text_eq_refl s.storage_version_id,
          k,
          r,
          f,
        ),
        ground (arith, consistent, r, f),
      )

  keyed_passes :
      (arn : Text)
      → kms_key_valid (some arn) ≡ true
      → leb (length arn) 2048 ≡ true
      → is_none s.storage_kms_key_arn ≡ true
      → (update_row s (keyed_row arn s) ≡ ok tt) × (row_checked (keyed_row arn s) ≡ true)
  unfolding update_row audit_guard row_checked within_widths status_metadata_consistent same_lineage
  keyed_passes arn p w k =
      let l : same_lineage s (keyed_row arn s) ≡ true = lineage_kept s in
      (
        ground (
          arith,
          l,
          consistent,
          time_eq_refl s.received_at,
          time_eq_refl s.failed_at,
          text_eq_refl s.storage_version_id,
          k,
          p,
          w,
        ),
        ground (arith, consistent, k, p, w),
      )

  -- A row with a key that passes its constraints and is receiving its file is marked as received
  -- under every version that is not blank and has 1024 characters at most when it is trimmed, and
  -- as failed with every failure code: the database refuses neither, and the new row passes the
  -- constraints.
  pub receiving_marked :
      (version : Text) (code : FailureCode)
      → is_some s.storage_kms_key_arn ≡ true
      → is_receiving s.status ≡ true
      → is_empty (strip version) ≡ false
      → leb (length (strip version)) 1024 ≡ true
      → is_failure code ≡ true
      → (mark_received id version now imports
          ≡ ok (put intake_key (received_row (strip version) now s) imports))
        × (row_checked (received_row (strip version) now s) ≡ true)
        × (mark_failed id code now imports ≡ ok (put intake_key (failed_row code now s) imports))
        × (row_checked (failed_row code now s) ≡ true)
  unfolding mark_received mark_failed
  receiving_marked version code k r v w f =
      let (passed, good) = received_passes (strip version) k r v w in
      let (failing, marked) = failed_passes code k r f in
      (ground (arith, there, r, v, passed), good, ground (arith, there, r, f, failing), marked)

  -- A received row with a key that passes its constraints is marked as failed with each code of an
  -- unusable object: the database does not refuse it, and the new row passes the constraints.
  pub received_marked :
      (code : FailureCode)
      → is_some s.storage_kms_key_arn ≡ true
      → is_received s.status ≡ true
      → is_stored_failure code ≡ true
      → (mark_stored_object_failed id code now imports
          ≡ ok (put intake_key (stored_failed_row code now s) imports))
        × (row_checked (stored_failed_row code now s) ≡ true)
  unfolding mark_stored_object_failed
  received_marked code k r f =
      let (passed, good) = stored_failed_passes code k r f in
      (ground (arith, there, r, f, passed), good)

  -- A row without a key that passes its constraints gets every name of a key that the pattern takes
  -- and that has 2048 characters at most when it is trimmed, where there is something to verify the
  -- row by: the database does not refuse it, and the new row passes the constraints.
  pub legacy_keyed :
      (arn : Text)
      → is_kms_key_arn (strip arn) ≡ true
      → leb (length (strip arn)) 2048 ≡ true
      → is_none s.storage_kms_key_arn ≡ true
      → is_verifiable s ≡ true
      → (record_legacy_kms_key_arn id arn imports
          ≡ ok (put intake_key (keyed_row (strip arn) s) imports))
        × (row_checked (keyed_row (strip arn) s) ≡ true)
  unfolding record_legacy_kms_key_arn
  legacy_keyed arn p w k v =
      let valid =
        key_arn_valid (strip arn) p (equals_trim_of_trimmed (strip arn) (strip-IsTrimmed arn)) in
      let (passed, good) = keyed_passes (strip arn) valid w k in
      (ground (arith, there, p, k, v, passed), good)
