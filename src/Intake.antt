-- ===== src/Intake.antt =====
-- The record of an uploaded file: `SalesImport` of sales_imports/models.py.
pub mod Row
pub mod Arn
pub mod Guard
pub mod Transitions
pub mod Evidence
pub mod Tests
