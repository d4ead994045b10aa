-- ===== src/Contract/Cells.antt =====
-- The cells of one row of a CSV file, as `SalesRowsV1Validator.validate` of
-- sales_imports/contracts.py reads them.
use pharma_intel.Base.{
  Option, none, some, List, [], ◌∷◌, if◌then◌else◌, Result, ok, ◌>>=◌, or_raise,
}
use pharma_intel.Base.Text.{Text, codes, text_eq}
use pharma_intel.Contract.Headers.{FileError, key_error}

-- The cells of a row, by column: `dict(zip(headers, raw_row))`, where a later entry replaces an
-- earlier one.
unfoldable pub zip_cells : List Text → List Text → List (Text × Text)
zip_cells (h ∷ hs) (c ∷ cs) = (h, c) ∷ zip_cells hs cs
zip_cells _ _ = []

unfoldable pub cell : Text → List (Text × Text) → Option Text
cell column [] = none
cell column (e ∷ values) = elim (cell column values) [
  | some c ↦ some c
  | none ↦ (if text_eq column (e.0) then some (e.1) else none)
]

-- The nine cells that `validate` reads.
pub record Cells : Type 0 where
  pub source_record_id : Text
  pub transaction_date : Text
  pub product_code : Text
  pub territory_code : Text
  pub hospital_code : Text
  pub sales_representative_code : Text
  pub quantity : Text
  pub revenue_amount : Text
  pub currency_code : Text

unfoldable pub cells_of : List (Text × Text) → Result FileError Cells
cells_of values = do
  source_record_id ← or_raise (cell (codes "source_record_id") values) key_error
  transaction_date ← or_raise (cell (codes "transaction_date") values) key_error
  product_code ← or_raise (cell (codes "product_code") values) key_error
  territory_code ← or_raise (cell (codes "territory_code") values) key_error
  hospital_code ← or_raise (cell (codes "hospital_code") values) key_error
  representative_code ← or_raise (cell (codes "sales_representative_code") values) key_error
  quantity ← or_raise (cell (codes "quantity") values) key_error
  revenue_amount ← or_raise (cell (codes "revenue_amount") values) key_error
  currency_code ← or_raise (cell (codes "currency_code") values) key_error
  ok record {
    source_record_id = source_record_id;
    transaction_date = transaction_date;
    product_code = product_code;
    territory_code = territory_code;
    hospital_code = hospital_code;
    sales_representative_code = representative_code;
    quantity = quantity;
    revenue_amount = revenue_amount;
    currency_code = currency_code;
  }
