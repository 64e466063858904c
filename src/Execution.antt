-- ===== src/Execution.antt =====
-- The operators of queryx/execution.
pub mod Evaluate
pub mod Operators
pub mod Filter
pub mod Aggregate
pub mod HashAggregate
pub mod Join
pub mod Scans
pub mod Sort
