-- ===== src/Insurance.antt =====
-- Insurance policies: backend/src/modules/insurance, and their branches in the indexer and in the
-- reconciliation.
pub mod Policies
pub mod Events
pub mod Reconcile
