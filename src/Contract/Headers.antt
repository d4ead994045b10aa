-- ===== src/Contract/Headers.antt =====
-- `validate_sales_headers` of sales_imports/contracts.py. Of an error the code is kept; its
-- message, which lists the columns at fault, is not.
pub mod Laws
use pharma_intel.Base.{
  ℕ, Bool, not, List, [], ◌∷◌, ◌==◌, any, count, ltb, if◌then◌else◌, Result, ok, err, ◌>>=◌, ◌>>◌,
  raise_if,
}
use pharma_intel.Base.Text.{Text, codes, text_eq}

-- The codes of `SalesFileContractError`, the `KeyError` of a row without one of the columns, and the
-- `ValueError` of a limit that is not positive.
pub data FileError : Type 0 where
  csv_malformed schema_missing_column schema_duplicate_column schema_unknown_column : FileError
  file_no_data_rows file_row_limit_exceeded key_error max_rows_not_positive : FileError

-- `SALES_ROWS_V1_COLUMNS`
abbrev pub sales_rows_v1_columns : List Text
sales_rows_v1_columns =
    codes "source_record_id"
    ∷ codes "transaction_date"
    ∷ codes "product_code"
    ∷ codes "territory_code"
    ∷ codes "hospital_code"
    ∷ codes "sales_representative_code"
    ∷ codes "quantity"
    ∷ codes "revenue_amount"
    ∷ codes "currency_code"
    ∷ []

abbrev byte_order_mark : ℕ
byte_order_mark = 65_279

-- `.removeprefix("\ufeff")`
unfoldable pub remove_mark : Text → Text
remove_mark [] = []
remove_mark (c ∷ s) = if c == byte_order_mark then s else c ∷ s

unfoldable pub normalized_headers : List Text → List Text
unfolding remove_mark
normalized_headers [] = []
normalized_headers (h ∷ hs) = remove_mark h ∷ hs

-- `hs.count(h)`
unfoldable pub occurrences : Text → List Text → ℕ
occurrences h hs = count (text_eq h) hs

unfoldable pub is_member : Text → List Text → Bool
is_member h hs = any (text_eq h) hs

unfoldable pub has_duplicate : List Text → Bool
unfolding occurrences
has_duplicate hs = any (λ h. ltb 1 (occurrences h hs)) hs

-- Whether the set `hs` has an element outside of the set `ks`.
unfoldable pub has_outside : List Text → List Text → Bool
unfolding is_member
has_outside hs ks = any (λ h. not (is_member h ks)) hs

unfoldable pub validate_sales_headers : List Text → Result FileError (List Text)
unfolding has_duplicate has_outside normalized_headers
validate_sales_headers headers = do
  let hs = normalized_headers headers
  raise_if (has_duplicate hs) schema_duplicate_column
  raise_if (has_outside sales_rows_v1_columns hs) schema_missing_column
  raise_if (has_outside hs sales_rows_v1_columns) schema_unknown_column
  ok hs
