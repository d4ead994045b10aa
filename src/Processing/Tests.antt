-- ===== src/Processing/Tests.antt =====
-- A file's rows published into facts, and the theorems of processing at these values.
use pharma_intel.Base.{
  ℕ, ◌+◌, ◌≡◌, false, none, some, List, [], ◌∷◌, ◌++◌, length, All, ok, refl, arith, min,
}
use pharma_intel.Base.Text.{Text, codes}
use pharma_intel.Base.Date.{Date}
use pharma_intel.Contract.Fields.{Decimal}
use pharma_intel.Queue.Rows.{contract}
use pharma_intel.Processing.Issues.{Report, new_collector, add, IssueCollector}
use pharma_intel.Processing.Issues.Bounds.{
  Call, adding, draining, run_calls, stored_by, length-stored_by,
}
use pharma_intel.Processing.Facts.{StagedRow, StagedOutcome, Fact, has_source, fact_matches}
use pharma_intel.Contract.Tests.{platform}
use pharma_intel.Contract.Row.{is_currency}
use pharma_intel.Contract.Staged.{measures_valid}
use pharma_intel.Processing.Checks.{
  Level, Territory, World, fact_checked, source_checked, leaf_checked,
}
use pharma_intel.Processing.Publish.{Store, Linked, publish_rows}
use pharma_intel.Processing.Publish.Insertion.{IsFresh}
use pharma_intel.Processing.Publish.Ledger.{ledger, record_rows}
use pharma_intel.Processing.Publish.Links.{AreUnique, IsLinkedIn}
use pharma_intel.Processing.Publish.Results.{
  publish_rows-ledger, publish_rows_extends, publish_rows-IsLinkedIn, publish_rows_idempotent,
}
use pharma_intel.Processing.Resolve.{Master}
use pharma_intel.Processing.Resolve.Rows.{resolve_chunk, resolve_rows, Resolved}
use pharma_intel.Processing.Resolve.Prefetch.{of_source, resolve_chunk-eq}

abbrev note : ℕ → Report
note row = record {
  row_number = some row;
  column = codes "product_code";
  code = codes "VALUE_TOO_LONG";
  message = codes "m";
  phase = contract;
}

-- Four calls for three issues, of which the last one does not fit.
abbrev four_calls : List Call
four_calls = adding (note 2) ∷ adding (note 2) ∷ draining ∷ adding (note 3) ∷ adding (note 4) ∷ []

length-stored_by_example :
    length (stored_by four_calls (new_collector 1 2))
    ≡ min ((run_calls four_calls (new_collector 1 2)).1).total 2
length-stored_by_example = length-stored_by four_calls 1 2 (λ e. omega (arith, e))

two_stored : length (stored_by four_calls (new_collector 1 2)) ≡ 2
unfolding stored_by run_calls add
two_stored = refl

-- With a maximum of one, an issue that was drained and the summary are both stored.
one_exceeded : length (stored_by four_calls (new_collector 1 1)) ≡ 2
unfolding stored_by run_calls add
one_exceeded = refl

abbrev day : Date
day = record { year = 2024; month = 2; day = 29 }

abbrev amount : ℕ → Decimal
amount n = record { minus = false; coefficient = n; places = 2 }

abbrev pub sample_row : ℕ → Text → StagedRow
sample_row n id = record {
  attempt = 1;
  row_number = n;
  source_record_id = id;
  transaction_date = day;
  product_code = codes "P1";
  territory_code = codes "T1";
  hospital_code = codes "H1";
  sales_representative_code = codes "";
  quantity = amount 300;
  revenue_amount = amount 1050;
  currency_code = codes "INR";
  calendar_date = some day;
  product = some 11;
  territory = some 12;
  hospital = some 13;
  sales_representative = none;
  outcome = StagedOutcome.staged;
  sales_transaction = none;
}

abbrev erp : Text
erp = codes "DEMO-ERP"

-- The fact of the first row is there, with its quantity written with three places.
abbrev old_fact : Fact
old_fact = record {
  id = 5;
  calendar_date = some day;
  product = some 11;
  territory = some 12;
  hospital = some 13;
  sales_representative = none;
  quantity = record { minus = false; coefficient = 3000; places = 3 };
  revenue_amount = amount 1050;
  currency_code = codes "INR";
  source_system = erp;
  source_record_id = codes "a";
  created_by = 7;
}

abbrev one_fact : Store
one_fact = record { facts = old_fact ∷ []; next_id = 6 }

abbrev two_rows : List StagedRow
two_rows = sample_row 2 (codes "a") ∷ sample_row 3 (codes "b") ∷ []

abbrev collector : IssueCollector
collector = new_collector 1 100

abbrev two_facts : Store
two_facts = record {
  facts =
      old_fact
      ∷ record old_fact {
        id = 6;
        quantity = amount 300;
        source_record_id = codes "b";
        created_by = 1;
      }
      ∷ [];
  next_id = 7;
}

abbrev published_two : Linked
published_two = record {
  store = two_facts;
  rows =
      record (sample_row 2 (codes "a")) {
        outcome = StagedOutcome.reused;
        sales_transaction = some 5;
      }
      ∷ record (sample_row 3 (codes "b")) {
        outcome = StagedOutcome.published;
        sales_transaction = some 6;
      }
      ∷ [];
  inserted = 1;
  reused = 1;
}

abbrev places : List Territory
places = record { id = 12; code = codes "T1"; level = Level.territory } ∷ []

abbrev pub world : World
world = record { unseen = []; territories = places; db_upper = platform.upper }

two_published :
    publish_rows world erp 1 1 two_rows one_fact collector ≡ ok (published_two, collector)
unfolding publish_rows has_source fact_matches fact_checked source_checked leaf_checked
    measures_valid is_currency
two_published = refl

fresh : IsFresh collector
fresh = record { none_counted = refl; none_pending = refl }

publish_rows-ledger_example :
    ledger erp two_facts.facts (codes "b")
    ≡ record_rows 1 two_rows (ledger erp one_fact.facts) (codes "b")
publish_rows-ledger_example =
    publish_rows-ledger world erp 1 1 two_rows one_fact collector collector published_two fresh
      two_published (codes "b")

publish_rows_extends_example :
    (added : List Fact) × (two_facts.facts ≡ one_fact.facts ++ added)
    × (length added ≡ 1)
    × (1 + 1 ≡ length two_rows)
    × AreUnique two_facts.facts
publish_rows_extends_example =
    publish_rows_extends world erp 1 1 two_rows one_fact collector collector published_two fresh
      two_published (refl, tt)

publish_rows-IsLinkedIn_example :
    (length published_two.rows ≡ length two_rows)
    × All (IsLinkedIn erp two_facts.facts) published_two.rows
publish_rows-IsLinkedIn_example =
    publish_rows-IsLinkedIn world erp 1 1 two_rows one_fact collector collector published_two fresh
      two_published (refl, (refl, tt))

publish_rows_idempotent_example :
    (out : Linked) × (publish_rows world erp 1 5 two_rows two_facts collector ≡ ok (out, collector))
    × (out.store ≡ two_facts)
    × (out.inserted ≡ 0)
    × (out.reused ≡ length two_rows)
publish_rows_idempotent_example =
    publish_rows_idempotent world erp 1 1 two_rows one_fact collector collector published_two fresh
      two_published world 5 (refl, (refl, tt))

-- Master data that has the references of the rows, with the hospital assigned to the territory.
abbrev pub master : Master
master = record {
  calendars = day ∷ [];
  products = record { id = 11; code = codes "P1" } ∷ record { id = 21; code = codes "P2" } ∷ [];
  territories = places;
  hospitals = record { id = 13; code = codes "H1" } ∷ [];
  representatives = [];
  hospital_assignments =
      record { identity = 13; territory = 12; effective_from = day; effective_to = none } ∷ [];
  representative_assignments = [];
  facts = old_fact ∷ [];
}

resolve_chunk-eq_example :
    resolve_chunk erp two_rows master collector
    ≡ resolve_rows (of_source erp master) two_rows collector
resolve_chunk-eq_example =
    resolve_chunk-eq erp (sample_row 2 (codes "a")) (sample_row 3 (codes "b") ∷ []) master collector

-- A row with an unknown product is invalid, and one without an assignment as well.
two_invalid :
    Resolved.invalid_rows (
      resolve_chunk erp two_rows
        (record master { products = []; hospital_assignments = [] })
        collector)
    ≡ 2
unfolding resolve_chunk add
two_invalid = refl
