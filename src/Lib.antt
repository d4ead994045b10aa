-- ===== src/Lib.antt =====
-- Verification of the sales-import side of Pharma Intel: a Django program that takes sales files
-- from users, stores the originals in an object store, and publishes their rows as immutable
-- sales transactions through a queue of jobs in PostgreSQL.
--
-- An upload makes a `SalesImport` row (sales_imports/models.py) and one `SalesImportJob`. Workers
-- claim jobs under a lease (sales_imports/queue.py), parse the file by a row contract
-- (sales_imports/contracts.py), and publish the rows.
--
--   Base: Booleans, lists, results of calls that may raise, Python's integers, tables with a
--     primary key, texts as lists of code points, and dates.
--   Intake/Row: the columns of `SalesImport` of sales_imports/models.py.
--   Intake/Arn: the form of a key's name. Intake/Guard: the trigger of
--   sales_imports/migrations/0007_harden_kms_provenance.py and the constraints on an intake row;
--   Intake/Evidence: what they keep.
--   Intake/Transitions: `mark_received`, `mark_failed`, `mark_stored_object_failed` and
--   `record_legacy_kms_key_arn` of sales_imports/models.py.
--   Queue/Counts: `SalesImportJobCounts` of sales_imports/queue.py, with the CHECK constraints on
--   the counters of sales_imports/models.py.
--   Queue/Delay: `retry_delay` of sales_imports/queue.py.
--   Queue/Rows: the columns of `SalesImportJob`, `SalesImportAttempt` and `SalesImportIssue`.
--   Queue/Claim and Queue/Claiming: `claim_next_job` and the cleanup that it runs first.
--   Queue/Lease: `_locked_live_claim`, `heartbeat_job` and `advance_attempt_phase`.
--   Queue/Finish: `schedule_retry` and `complete_job`.
--   Queue/Enqueue: `enqueue_import` and `requeue_job`.
--   Queue/Checks: the CHECK constraints on a job row, and the trigger on attempts of
--   sales_imports/migrations/0008_processing_audit_guards.py.
--   Queue/Invariant: what the tables satisfy between two transactions, with a module for the
--   counting of attempts, for the saving of rows, and for each group of transactions.
--   Queue/Steps, Queue/Fence, Queue/Outcomes: the theorems on all transactions together, on the
--   lease fence, and on single calls. Queue/Tests applies them to concrete tables.
--   Queue/Audit: the calls of a worker against the trigger on attempts.
--   Contract/Headers: `validate_sales_headers` of sales_imports/contracts.py.
--   Contract/Fields: `_text`, `_date` and `_decimal` of the row validator, with `Base/Date`;
--   Contract/Fields/Dates writes dates that are read back.
--   Contract/Cells and Contract/Row: `SalesRowsV1Validator.validate`.
--   Contract/Staged: the CHECK constraints and widths of sales_imports/models.py on the columns of a
--   staged row that come from the file.
--   Contract/File: `iter_sales_rows_v1_csv`. Contract/Tests reads a file of two rows.
--   Processing/Issues: `_IssueCollector` of sales_imports/processing.py, with Processing/Issues/Bounds
--   on how many issues are stored.
--   Processing/Facts: staged rows, the facts of business_data/models.py, and `_fact_matches`.
--   Processing/Checks: the constraints and triggers on an inserted fact, of business_data/models.py
--   and of its migrations 0002_sales_transaction_guards.py and
--   0004_calendar_timezone_and_source_whitespace.py.
--   Processing/Publish: `_link_or_insert_chunk` and the loop over chunks of `_publish_once`. Its
--   child modules follow one chunk (Insertion, Links, Known), then all chunks (Whole), the abstract
--   ledger (Ledger), success and repetition (Success, Again); Results has the theorems.
--   Processing/Resolve: what `_resolve_and_validate_chunk` reads for a chunk, with Resolve/Rows on
--   its loop, Resolve/Lookup and Resolve/Prefetch on the reads against the tables of
--   master_data/models.py, Resolve/Valid and Resolve/Whole on rows without an issue, and
--   Resolve/Publishable on their publication.
--   Processing/Stage: `_record_parse_batch` and, in Stage/Loop, `_stage_csv`, with Stage/Turns and
--   Stage/Laws on what is staged.
--   Processing/Transaction: `_finish_locked_job` and, in Transaction/Once, `_publish_once` and
--   `_publish_staged_rows`, with Transaction/Laws.
--   Processing/Failure: the `except` clauses of `process_claim`, with Failure/Laws.
--   Processing/Waiting: `_DownloadLeaseHeartbeat` and the polling of `_source_session_lock`, with
--   Waiting/Laws.
--   Processing/Tests publishes two rows, and Processing/WorkerTests works at a leased job.
--   Calendar: `build_calendar_date` of business_data/calendar.py, over the date arithmetic of
--   Base/Date; Calendar/Laws and Calendar/Total are about its result, with Calendar/Tests.
--
-- Every transaction is a function from the tables to new tables or an error, which writes nothing;
-- PostgreSQL's row locks make it one step. Rows that other transactions hold are an argument of a
-- step, since `skip_locked` passes over them. Times are microseconds since an epoch and UUIDs are
-- numbers. Each loop is a recursion on a list or on its own bound; only the digits of a
-- number are written on fuel, of which the number's size is enough.
--
-- Not modelled: `updated_at`, which no code reads; the last time that Python has, but for
-- `claim_next_job`; the character NUL, which PostgreSQL stores in no text; foreign keys; the
-- constraints on attempts and on linked staged rows; the release of the source lock and the order of
-- calls in `process_claim`; the messages of sales_imports/contracts.py; storage, the editing of master
-- data and the web pages; Django, PostgreSQL and the object store beyond what is said above.
pub mod Base
pub mod Intake
pub mod Contract
pub mod Queue
pub mod Calendar
pub mod Processing
