-- ===== src/Transfers.antt =====
-- The transfer of a vehicle to a new owner: the events of the ownership contract in
-- backend/src/modules/indexer/indexer.service.ts and `approveTransfer` of
-- backend/src/modules/rto/rto.service.ts.
pub mod Events
pub mod Approval
pub mod Owner
pub mod Unreachable
pub mod Reconcile
