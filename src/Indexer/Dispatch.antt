-- ===== src/Indexer/Dispatch.antt =====
-- `processLog` of backend/src/modules/indexer/indexer.service.ts, for the events of the challan and
-- the loan contract, with the transaction hash and the block of the log.
use vehicle_lifecycle_manage.Base.{ℕ}
use vehicle_lifecycle_manage.Domain.Failure.{Result}
use vehicle_lifecycle_manage.Store.World.{World}
use vehicle_lifecycle_manage.Chain.Receipt.{Event}
use vehicle_lifecycle_manage.Challan.Events.{
  handle_challan_issued, handle_challan_paid, handle_challan_cancelled,
}
use vehicle_lifecycle_manage.Loans.Events.{
  handle_loan_reg, handle_noc_issued, handle_noc_minted, handle_loan_refinanced,
  handle_pending_loan_attached, handle_pending_loan_cancelled,
}

unfoldable pub process_log : (ℕ → Result ℕ) → Event → ℕ → ℕ → World → World
unfolding handle_challan_issued handle_challan_paid handle_challan_cancelled handle_loan_reg
    handle_noc_issued handle_noc_minted handle_loan_refinanced handle_pending_loan_attached
    handle_pending_loan_cancelled
process_log get_block (Event.challan_issued challan_id own_tid police_id amount) hash block w =
    handle_challan_issued challan_id own_tid police_id amount hash block w
process_log get_block (Event.challan_paid challan_id own_tid) hash block w =
    handle_challan_paid challan_id hash block w
process_log get_block (Event.challan_cancelled challan_id own_tid by_admin) hash block w =
    handle_challan_cancelled challan_id by_admin hash block w
process_log get_block (Event.loan_reg loan_id dvp_id bank_id borrower amount) hash block w =
    handle_loan_reg loan_id dvp_id bank_id borrower amount hash block w
process_log get_block (Event.noc_issued loan_id dvp_id) hash block w =
    handle_noc_issued get_block loan_id hash block w
process_log get_block (Event.noc_minted loan_id owner) hash block w =
    handle_noc_minted loan_id owner w
process_log get_block (Event.loan_refinanced old_loan_id new_loan_id dvp_id) hash block w =
    handle_loan_refinanced old_loan_id hash block w
process_log get_block (Event.pending_loan_attached dvp_id bank_id borrower amount) hash block w =
    handle_pending_loan_attached hash block w
process_log get_block (Event.pending_loan_cancelled dvp_id bank_id) hash block w =
    handle_pending_loan_cancelled dvp_id bank_id hash block w
