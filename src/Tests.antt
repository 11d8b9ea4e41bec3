-- ===== src/Tests.antt =====
-- Concrete inputs, and the theorems applied to them.
pub mod Data
mod Http
mod Indexer
mod Challan
mod Loans
mod Accounts
mod Vehicles
mod Frontend
