-- ===== src/Queue.antt =====
-- The durable job queue of sales imports: sales_imports/queue.py over the tables of
-- sales_imports/models.py.
pub mod Counts
pub mod Delay
pub mod Rows
pub mod Claim
pub mod Claiming
pub mod Lease
pub mod Finish
pub mod Enqueue
pub mod Checks
pub mod Invariant
pub mod Steps
pub mod Fence
pub mod Outcomes
pub mod Audit
mod Tests
