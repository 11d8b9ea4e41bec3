-- ===== src/Loans.antt =====
-- Loans on vehicles: backend/src/modules/bank, the events of the loan contract in the indexer, and
-- their part of the reconciliation.
pub mod Rows
pub mod Bank
pub mod Events
pub mod Reconcile
