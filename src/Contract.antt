-- ===== src/Contract.antt =====
-- The row contract of sales_imports/contracts.py.
pub mod Headers
pub mod Fields
pub mod Cells
pub mod Row
pub mod Staged
pub mod File
pub mod Tests
