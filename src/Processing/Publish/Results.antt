-- ===== src/Processing/Publish/Results.antt =====
-- The theorems on the publication of an attempt's rows.
use pharma_intel.Base.{ℕ, ◌+◌, ◌≡◌, List, ◌++◌, length, All, ok, sym}
use pharma_intel.Base.Text.{Text}
use pharma_intel.Processing.Issues.{IssueCollector}
use pharma_intel.Processing.Checks.{World}
use pharma_intel.Processing.Facts.{StagedRow, Fact}
use pharma_intel.Processing.Publish.{Store, Linked, publish_rows}
use pharma_intel.Processing.Publish.Insertion.{IsFresh}
use pharma_intel.Processing.Publish.Ledger.{ledger, record_rows}
use pharma_intel.Processing.Publish.Links.{AreUnique, Extends, IsLinkedIn}
use pharma_intel.Processing.Publish.Whole.{IsDated, Publication, publish_rows-Publication}
use pharma_intel.Processing.Publish.Again.{publish_rows_again}

module _ (world : World) (source : Text) (created_by size : ℕ) (rows : List StagedRow)
    (store : Store) (c c' : IssueCollector) (out : Linked) (fresh : IsFresh c)
    (published : publish_rows world source created_by size rows store c ≡ ok (out, c')) where
  -- Publication implements the abstract ledger of a source. Once it succeeds, what the facts record
  -- under each identifier is what the ledger holds after each row, in order, is recorded under its
  -- identifier unless something is recorded there; the size of the chunks makes no difference.
  pub publish_rows-ledger :
      (id : Text)
      → ledger source ((Linked.store out).facts) id
        ≡ record_rows created_by rows (ledger source store.facts) id
  publish_rows-ledger id = sym (
      Publication.recorded
        (publish_rows-Publication world source created_by size rows store c c' out fresh published)
        id)

  -- A publication that succeeds leaves every fact as it was, with its key, and adds as many facts
  -- as it reports inserted. It reports every row as either inserted or reused, and no two facts have
  -- the same source record if none had before.
  pub publish_rows_extends :
      AreUnique store.facts
      → (added : List Fact) × ((Linked.store out).facts ≡ store.facts ++ added)
        × (length added ≡ out.inserted)
        × (out.inserted + out.reused ≡ length rows)
        × AreUnique ((Linked.store out).facts)
  publish_rows_extends u =
      let p =
        publish_rows-Publication world source created_by size rows store c c' out fresh published in
      let x : Extends out.inserted store.facts (Linked.store out).facts = p.extended in
      (x.added, x.appended, x.as_many, p.every_row, x.keeps_unique u)

  -- If the rows have the calendar date of their transaction, a publication that succeeds links each
  -- row with the fact of its source record, and that fact has the row's values.
  pub publish_rows-IsLinkedIn :
      All IsDated rows
      → (length out.rows ≡ length rows)
        × All (IsLinkedIn source ((Linked.store out).facts)) out.rows
  publish_rows-IsLinkedIn d =
      let p =
        publish_rows-Publication world source created_by size rows store c c' out fresh published in
      (p.same_length, p.linked d)

  -- Publishing the same rows again, in chunks of any size, succeeds and changes no fact: none is
  -- inserted and every row is reused. The rows have the calendar date of their transaction.
  pub publish_rows_idempotent :
      (world' : World) (size' : ℕ)
      → All IsDated rows
      → (out' : Linked) × (publish_rows world' source created_by size' rows out.store c
          ≡ ok (out', c))
        × (out'.store ≡ out.store)
        × (out'.inserted ≡ 0)
        × (out'.reused ≡ length rows)
  publish_rows_idempotent world' size' d =
      let p =
        publish_rows-Publication world source created_by size rows store c c' out fresh published in
      let (out', e, r) =
        publish_rows_again world' source created_by out.store size' rows c fresh (p.known d) in
      (out', e, r.0, r.1, r.2)
