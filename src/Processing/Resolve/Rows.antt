-- ===== src/Processing/Resolve/Rows.antt =====
-- The loop of `_resolve_and_validate_chunk` over the rows of a chunk: the issues of each row, in the
-- order of the code, and the references that a row without an issue is saved with. An invalid row
-- is not saved, and stays as it was.
use pharma_intel.Base.{
  ℕ, suc, Bool, true, false, not, ◌&&◌, Option, none, some, List, [], ◌∷◌, ◌++◌, ltb, is_none,
  if◌then◌else◌,
}
use pharma_intel.Base.Text.{Text, codes, is_empty}
use pharma_intel.Queue.Rows.{master_data}
use pharma_intel.Processing.Issues.{IssueCollector, Report, add}
use pharma_intel.Processing.Facts.{StagedRow, Fact, fact_matches}
use pharma_intel.Processing.Checks.{Territory, is_leaf}
use pharma_intel.Processing.Publish.{conflict_report}
use pharma_intel.Processing.Resolve.{Coded, Master, Found, found, prefetch}

abbrev report : StagedRow → Text → Text → Text → Report
report row column code message = record {
  row_number = some row.row_number;
  column = column;
  code = code;
  message = message;
  phase = master_data;
}

abbrev report_if : Bool → Report → List Report
report_if true r = r ∷ []
report_if false r = []

abbrev territory_reports : StagedRow → Option Territory → List Report
territory_reports row none =
    report row (codes "territory_code") (codes "TERRITORY_NOT_FOUND")
      (codes "The territory code does not exist.")
    ∷ []
territory_reports row (some t) = report_if (not (is_leaf t.level)) (
    report row (codes "territory_code") (codes "TERRITORY_NOT_LEAF")
      (codes "Sales rows must use a Territory-level territory."))

-- The calls of `add` before a row is linked.
unfoldable pub reference_reports : Found → StagedRow → List Report
reference_reports f row =
    report_if (is_none f.calendar) (
      report row (codes "transaction_date") (codes "CALENDAR_DATE_NOT_FOUND")
        (codes "The transaction date is missing from the reporting calendar."))
    ++ report_if (is_none f.product) (
        report row (codes "product_code") (codes "PRODUCT_NOT_FOUND")
          (codes "The product code does not exist."))
    ++ territory_reports row f.territory
    ++ report_if (not (is_empty row.hospital_code) && is_none f.hospital) (
        report row (codes "hospital_code") (codes "HOSPITAL_NOT_FOUND")
          (codes "The hospital code does not exist."))
    ++ report_if (not (is_empty row.sales_representative_code) && is_none f.representative) (
        report row (codes "sales_representative_code") (codes "SALES_REPRESENTATIVE_NOT_FOUND")
          (codes "The sales representative code does not exist."))
    ++ report_if (not f.hospital_assigned) (
        report row (codes "hospital_code") (codes "HOSPITAL_TERRITORY_MISMATCH")
          (codes "The hospital was not assigned to this territory on the transaction date."))
    ++ report_if (not f.representative_assigned) (
        report row (codes "sales_representative_code")
          (codes "SALES_REPRESENTATIVE_TERRITORY_MISMATCH")
          (codes
            "The sales representative was not assigned to this territory on the transaction date."))

unfoldable pub add_all : List Report → IssueCollector → IssueCollector
add_all [] c = c
add_all (r ∷ rs) c = add_all rs (add r c)

abbrev pub coded_id : Option Coded → Option ℕ
coded_id none = none
coded_id (some i) = some i.id

abbrev pub territory_id : Option Territory → Option ℕ
territory_id none = none
territory_id (some t) = some t.id

-- The row with its references.
abbrev pub with_references : Found → StagedRow → StagedRow
with_references f row = record row {
  calendar_date = f.calendar;
  product = coded_id f.product;
  territory = territory_id f.territory;
  hospital = coded_id f.hospital;
  sales_representative = coded_id f.representative;
}

-- `existing_fact is not None and not _fact_matches(row, existing_fact)`
unfoldable pub differs_from : Option Fact → StagedRow → Bool
differs_from none row = false
differs_from (some f) row = not (fact_matches row f)

-- The collector, the rows as they are saved, and the number of invalid ones.
pub record Resolved : Type 0 where
  pub collector : IssueCollector
  pub rows : List StagedRow
  pub invalid_rows : ℕ

-- One turn of the loop: whether the row is valid, the row as it is saved, and the collector.
unfoldable pub resolve_row : Found → StagedRow → IssueCollector → Bool × StagedRow × IssueCollector
unfolding add_all reference_reports differs_from
resolve_row f row c =
    let noted = add_all (reference_reports f row) c in
    let linked = with_references f row in
    if ltb c.total noted.total
    then (false, row, noted)
    else if differs_from f.fact linked
    then (false, row, add (conflict_report row) noted)
    else (true, linked, noted)

-- The result of one turn, followed by those of the rest.
abbrev pub turn_then : Bool × StagedRow × IssueCollector → Resolved → Resolved
turn_then (true, row, c) rest = record rest { rows = row ∷ rest.rows }
turn_then (false, row, c) rest = record rest {
  rows = row ∷ rest.rows;
  invalid_rows = suc rest.invalid_rows;
}

unfoldable pub resolve_rows : Master → List StagedRow → IssueCollector → Resolved
unfolding found resolve_row
resolve_rows m [] c = record { collector = c; rows = []; invalid_rows = 0 }
resolve_rows m (row ∷ rows) c =
    let turn = resolve_row (found m row) row c in turn_then turn (resolve_rows m rows (turn.2))

unfoldable pub resolve_chunk : Text → List StagedRow → Master → IssueCollector → Resolved
unfolding prefetch resolve_rows
resolve_chunk source [] m c = record { collector = c; rows = []; invalid_rows = 0 }
resolve_chunk source (row ∷ rows) m c = resolve_rows (prefetch source row rows m) (row ∷ rows) c
