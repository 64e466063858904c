-- ===== src/Planner.antt =====
-- queryx/planner
pub mod Sargable
pub mod Statistics
pub mod Optimizer
pub mod Advisor
pub mod Explain
