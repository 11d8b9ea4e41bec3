-- ===== src/Challan.antt =====
-- Traffic fines: backend/src/modules/police and payment, the events of the challan contract in the
-- indexer, and their part of the reconciliation.
pub mod Rows
pub mod Sound
pub mod Police
pub mod Payment
pub mod Events
pub mod Reconcile
pub mod Machine
pub mod Confirmation
