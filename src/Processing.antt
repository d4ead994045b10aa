-- ===== src/Processing.antt =====
-- How sales_imports/processing.py turns a leased job into sales facts.
pub mod Issues
pub mod Facts
pub mod Checks
pub mod Publish
pub mod Resolve
pub mod Stage
pub mod Failure
pub mod Transaction
pub mod Waiting
pub mod Tests
pub mod WorkerTests
