-- ===== src/Processing/Publish.antt =====
-- The publication of staged rows by sales_imports/processing.py: `_link_or_insert_chunk`, and the
-- loop over chunks of `_publish_once`. The facts are those that the transaction's snapshot sees;
-- the world holds what else an insertion meets.
pub mod Insertion
pub mod Ledger
pub mod Links
pub mod Known
pub mod Whole
pub mod Success
pub mod Again
pub mod Results
use pharma_intel.Base.{
  ℕ, zero, suc, ◌+◌, ◌-◌, Bool, true, false, not, ◌&&◌, ◌||◌, Option, none, some, List, [], ◌∷◌,
  ◌++◌, ltb, map, filter, count, length, is_some, is_none, if◌then◌else◌, Result, ok, err, ◌>>=◌,
  ◌>>◌, raise_if,
}
use pharma_intel.Base.Text.{Text, codes}
use pharma_intel.Queue.Rows.{idempotency}
use pharma_intel.Processing.Issues.{IssueCollector, Report, add}
use pharma_intel.Processing.Checks.{World, fact_checked}
use pharma_intel.Processing.Facts.{
  StagedOutcome, StagedRow, Fact, fact_matches, new_fact, fact_of, is_insertable,
}

-- The facts, and the key that the next one gets.
pub record Store : Type 0 where
  pub facts : List Fact
  pub next_id : ℕ

-- `_PublicationRejected`, and the `IntegrityError`s of an insertion.
pub data PublishError : Type 0 where
  rejected : IssueCollector → PublishError
  source_not_unique null_column check_violated : PublishError

-- Whether a row has no fact yet, has the same fact, or has another one.
unfoldable pub is_new : Text → List Fact → StagedRow → Bool
is_new source facts row = is_none (fact_of source row.source_record_id facts)

unfoldable pub is_linked : Text → List Fact → StagedRow → Bool
is_linked source facts row = elim (fact_of source row.source_record_id facts) [
  | none ↦ false
  | some f ↦ fact_matches row f
]

unfoldable pub is_conflict : Text → List Fact → StagedRow → Bool
is_conflict source facts row = elim (fact_of source row.source_record_id facts) [
  | none ↦ false
  | some f ↦ not (fact_matches row f)
]

abbrev pub conflict_report : StagedRow → Report
conflict_report row = record {
  row_number = some row.row_number;
  column = codes "source_record_id";
  code = codes "SOURCE_RECORD_CONFLICT";
  message = codes "This source record ID already exists with different sales values.";
  phase = idempotency;
}

-- The collector after the loop over the rows of a chunk.
unfoldable pub add_conflicts : Text → List Fact → List StagedRow → IssueCollector → IssueCollector
unfolding is_conflict
add_conflicts source facts [] c = c
add_conflicts source facts (row ∷ rows) c =
    let reported = add (conflict_report row) c in
    add_conflicts source facts rows (if is_conflict source facts row then reported else c)

-- One insertion of `bulk_create`.
unfoldable pub create_fact : World → Fact → Store → Result PublishError Store
unfolding fact_checked
create_fact world f store = do
  raise_if (not (fact_checked world f)) check_violated
  raise_if (not (is_insertable f)) null_column
  raise_if
      (is_some (fact_of f.source_system f.source_record_id store.facts)
        || is_some (fact_of f.source_system f.source_record_id world.unseen))
      source_not_unique
  ok record {
    facts = store.facts ++ record f { id = store.next_id } ∷ [];
    next_id = suc store.next_id;
  }

unfoldable pub bulk_create : World → List Fact → Store → Result PublishError Store
unfolding create_fact
bulk_create world [] store = ok store
bulk_create world (f ∷ fs) store = create_fact world f store >>= λ s. bulk_create world fs s

-- `to_insert`
unfoldable pub to_insert : Text → ℕ → List Fact → List StagedRow → List Fact
unfolding is_new
to_insert source created_by facts rows =
    map (new_fact source created_by 0) (filter (is_new source facts) rows)

-- The rows with their outcome, where the inserted facts are numbered from `next` on.
unfoldable pub link_rows : Text → List Fact → ℕ → List StagedRow → List StagedRow
link_rows source facts next [] = []
link_rows source facts next (row ∷ rows) = elim (fact_of source row.source_record_id facts) [
  | none ↦
      record row { outcome = StagedOutcome.published; sales_transaction = some next }
      ∷ link_rows source facts (suc next) rows
  | some f ↦
      (if fact_matches row f
        then record row { outcome = StagedOutcome.reused; sales_transaction = some f.id }
        else row)
      ∷ link_rows source facts next rows
]

pub record Linked : Type 0 where
  pub store : Store
  pub rows : List StagedRow
  pub inserted : ℕ
  pub reused : ℕ

unfoldable pub link_or_insert_chunk :
    World
    → Text
    → ℕ
    → List StagedRow
    → Store
    → IssueCollector
    → Result PublishError (Linked × IssueCollector)
unfolding add_conflicts bulk_create to_insert link_rows is_linked
link_or_insert_chunk world source created_by rows store c = do
  let c' = add_conflicts source store.facts rows c
  raise_if (ltb 0 c'.total) (rejected c')
  let new = to_insert source created_by store.facts rows
  s ← bulk_create world new store
  ok (
    record {
      store = s;
      rows = link_rows source store.facts store.next_id rows;
      inserted = length new;
      reused = count (is_linked source store.facts) rows;
    },
    c',
  )

-- The results of one chunk, followed by those of the rest.
abbrev pub joined : Linked → Linked × IssueCollector → Linked × IssueCollector
joined one (rest, c) = (
  record {
    store = rest.store;
    rows = one.rows ++ rest.rows;
    inserted = one.inserted + rest.inserted;
    reused = one.reused + rest.reused;
  },
  c,
)

unfoldable pub publish_chunks :
    World
    → Text
    → ℕ
    → List (List StagedRow)
    → Store
    → IssueCollector
    → Result PublishError (Linked × IssueCollector)
unfolding link_or_insert_chunk
publish_chunks world source created_by [] store c =
    ok (record { store = store; rows = []; inserted = 0; reused = 0 }, c)
publish_chunks world source created_by (rows ∷ chunks) store c = do
  one ← link_or_insert_chunk world source created_by rows store c
  rest ← publish_chunks world source created_by chunks (Linked.store (one.0)) one.1
  ok (joined one.0 rest)

-- `itertools.batched`: the current batch takes `room` elements more.
unfoldable pub batches_from {ℓ} : {A : Type ℓ} → ℕ → ℕ → List A → List A → List (List A)
batches_from size room [] [] = []
batches_from size room (b ∷ bs) [] = (b ∷ bs) ∷ []
batches_from size zero batch (x ∷ xs) = batch ∷ batches_from size (size - 1) (x ∷ []) xs
batches_from size (suc room) batch (x ∷ xs) = batches_from size room (batch ++ x ∷ []) xs

unfoldable pub batched {ℓ} : {A : Type ℓ} → ℕ → List A → List (List A)
unfolding batches_from
batched size xs = batches_from size size [] xs

-- The inner transaction of `_publish_once`.
unfoldable pub publish_rows :
    World
    → Text
    → ℕ
    → ℕ
    → List StagedRow
    → Store
    → IssueCollector
    → Result PublishError (Linked × IssueCollector)
unfolding publish_chunks batched
publish_rows world source created_by size rows store c = do
  all ← publish_chunks world source created_by (batched size rows) store c
  raise_if (ltb 0 (IssueCollector.total (all.1))) (rejected all.1)
  ok all
