-- ===== src/Processing/Checks.antt =====
-- What the database asks of a sales fact that is inserted: the CHECK constraints and widths of
-- `SalesTransaction` of business_data/models.py, and the triggers of
-- business_data/migrations/0002_sales_transaction_guards.py and
-- business_data/migrations/0004_calendar_timezone_and_source_whitespace.py. Foreign keys are left out.
use pharma_intel.Base.{ℕ, Bool, true, false, not, ◌&&◌, Option, none, some, List, leb, length}
use pharma_intel.Base.Text.{Text, text_eq, is_empty, is_trimmed}
use pharma_intel.Base.Table.{get}
use pharma_intel.Queue.Checks.{equals_trim}
use pharma_intel.Contract.Row.{is_currency}
use pharma_intel.Contract.Staged.{measures_valid, is_below}
use pharma_intel.Processing.Facts.{StagedRow, Fact}

-- `Territory.Level`
pub data Level : Type 0 where
  zone region area territory : Level

pub record Territory : Type 0 where
  pub id : ℕ
  pub code : Text
  pub level : Level

abbrev pub territory_key : Territory → ℕ
territory_key t = t.id

abbrev pub is_leaf : Level → Bool
is_leaf Level.territory = true
is_leaf _ = false

-- What an insertion meets besides the facts of the transaction's snapshot: the facts that other
-- transactions have committed since, the territories, and PostgreSQL's `Upper`.
pub record World : Type 0 where
  pub unseen : List Fact
  pub territories : List Territory
  pub db_upper : Text → Text

-- `business_data_validate_sales_leaf_territory`: a territory that is not there passes.
unfoldable pub leaf_checked : List Territory → Option ℕ → Bool
leaf_checked territories none = true
leaf_checked territories (some id) = elim (get territory_key id territories) [
  | none ↦ true
  | some t ↦ is_leaf t.level
]

-- The constraints and the trigger on whitespace at an end, and on a blank text: a text that is
-- trimmed as in Python and is not empty has a character that is no whitespace.
abbrev pub key_checked : ℕ → Text → Bool
key_checked width s = not (is_empty s) && is_trimmed s && equals_trim s && leb (length s) width

unfoldable pub source_checked : (Text → Text) → Text → Bool
source_checked db_upper s = key_checked 64 s && text_eq s (db_upper s)

-- The columns that a fact has from its staged row, but for the references.
unfoldable pub content_checked : StagedRow → Bool
content_checked row =
    key_checked 255 row.source_record_id
    && is_currency row.currency_code
    && measures_valid row.quantity row.revenue_amount
    && is_below 15 row.quantity
    && is_below 16 row.revenue_amount

unfoldable pub fact_checked : World → Fact → Bool
unfolding source_checked leaf_checked
fact_checked world f =
    source_checked world.db_upper f.source_system
    && key_checked 255 f.source_record_id
    && is_currency f.currency_code
    && measures_valid f.quantity f.revenue_amount
    && is_below 15 f.quantity
    && is_below 16 f.revenue_amount
    && leaf_checked world.territories f.territory
