-- ===== src/Tests.antt =====
-- Runs of the theorems at concrete inputs.
mod Pages
mod Pagers
mod Pools
mod Logs
mod Indexes
mod Catalogs
mod Lexing
mod Operators
mod Heaps
mod Trees
mod Plans
mod Databases
mod Selects
