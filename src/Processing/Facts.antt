-- ===== src/Processing/Facts.antt =====
-- Staged rows of sales_imports/models.py and sales facts of business_data/models.py, and when a row
-- and a fact say the same: `_fact_matches` of sales_imports/processing.py. The key of a calendar
-- date is the date. `created_at`, which no code reads, is left out.
pub mod Laws
use pharma_intel.Base.{
  ℕ, suc, ◌*◌, ◌^◌, Bool, true, false, not, ◌&&◌, ◌||◌, Option, none, some, List, [], ◌∷◌, ◌==◌,
  find, is_some, if◌then◌else◌,
}
use pharma_intel.Base.Text.{Text, text_eq, is_empty}
use pharma_intel.Base.Date.{Date}
use pharma_intel.Contract.Fields.{Decimal}
use pharma_intel.Processing.Issues.{option_eq}

-- `SalesImportStagedRow.Outcome`
pub data StagedOutcome : Type 0 where
  staged published reused : StagedOutcome

pub record StagedRow : Type 0 where
  pub attempt : ℕ
  pub row_number : ℕ
  pub source_record_id : Text
  pub transaction_date : Date
  pub product_code : Text
  pub territory_code : Text
  pub hospital_code : Text
  pub sales_representative_code : Text
  pub quantity : Decimal
  pub revenue_amount : Decimal
  pub currency_code : Text
  pub calendar_date : Option Date
  pub product : Option ℕ
  pub territory : Option ℕ
  pub hospital : Option ℕ
  pub sales_representative : Option ℕ
  pub outcome : StagedOutcome
  pub sales_transaction : Option ℕ

-- `SalesTransaction`; the first three columns are null only before the row is saved.
pub record Fact : Type 0 where
  pub id : ℕ
  pub calendar_date : Option Date
  pub product : Option ℕ
  pub territory : Option ℕ
  pub hospital : Option ℕ
  pub sales_representative : Option ℕ
  pub quantity : Decimal
  pub revenue_amount : Decimal
  pub currency_code : Text
  pub source_system : Text
  pub source_record_id : Text
  pub created_by : ℕ

abbrev pub date_eq : Date → Date → Bool
date_eq a b = (a.year == b.year) && (a.month == b.month) && (a.day == b.day)

-- A column that may be null against a date.
abbrev pub is_date_of : Option Date → Date → Bool
is_date_of none d = false
is_date_of (some c) d = date_eq c d

abbrev same_sign : Bool → Bool → Bool
same_sign true b = b
same_sign false b = not b

-- `Decimal.__eq__`, which compares values.
abbrev pub decimal_eq : Decimal → Decimal → Bool
decimal_eq a b =
    (a.coefficient * 10 ^ b.places == b.coefficient * 10 ^ a.places)
    && (same_sign a.minus b.minus || (a.coefficient == 0))

-- `_fact_matches`
unfoldable pub fact_matches : StagedRow → Fact → Bool
fact_matches row fact =
    is_date_of fact.calendar_date row.transaction_date
    && option_eq fact.product row.product
    && option_eq fact.territory row.territory
    && option_eq fact.hospital row.hospital
    && option_eq fact.sales_representative row.sales_representative
    && decimal_eq fact.quantity row.quantity
    && decimal_eq fact.revenue_amount row.revenue_amount
    && text_eq fact.currency_code row.currency_code

-- The fact that a row becomes, before the database gives it a key.
abbrev pub new_fact : Text → ℕ → ℕ → StagedRow → Fact
new_fact source_system created_by id row = record {
  id = id;
  calendar_date = row.calendar_date;
  product = row.product;
  territory = row.territory;
  hospital = row.hospital;
  sales_representative = row.sales_representative;
  quantity = row.quantity;
  revenue_amount = row.revenue_amount;
  currency_code = row.currency_code;
  source_system = source_system;
  source_record_id = row.source_record_id;
  created_by = created_by;
}

-- `source_system = s AND source_record_id = r`
unfoldable pub has_source : Text → Text → Fact → Bool
has_source s r f = text_eq f.source_system s && text_eq f.source_record_id r

-- The fact of a source record. There is one at most, by `business_data_sales_source_unique`.
abbrev pub fact_of : Text → Text → List Fact → Option Fact
fact_of s r facts = find (has_source s r) facts

-- The NOT NULL columns of a fact.
abbrev pub is_insertable : Fact → Bool
is_insertable f = is_some f.calendar_date && is_some f.product && is_some f.territory
