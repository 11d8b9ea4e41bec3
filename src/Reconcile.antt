-- ===== src/Reconcile.antt =====
-- The settling of one pending transaction by backend/src/jobs/reconciliation.worker.ts, for
-- transactions on a challan or a loan: the loop body of `reconcileTransactions`, with the frames of
-- `handleSuccessfulReconciliation` and `handleRevertedRollback`. The branches of the two exclude
-- each other by the action of the transaction.
pub mod Steps
pub mod Laws
use vehicle_lifecycle_manage.Base.{
  ℕ, zero, suc, Option, none, some, List, [], ◌∷◌, Bool, ◌==◌, is_some, if◌then◌else◌,
}
use vehicle_lifecycle_manage.Domain.{SyncStatus}
use vehicle_lifecycle_manage.Domain.Failure.{Result, ok, err}
use vehicle_lifecycle_manage.Store.Rows.{BlockchainTransaction}
use vehicle_lifecycle_manage.Store.Table.{find?, update_first}
use vehicle_lifecycle_manage.Store.World.{
  World, Action, pure, transaction, modify, caught, record_not_found, ◌>>=◌, ◌>>◌,
}
use vehicle_lifecycle_manage.Chain.Receipt.{Receipt}
use vehicle_lifecycle_manage.Challan.Reconcile.{reconcile_challan, rollback_challan}
use vehicle_lifecycle_manage.Loans.Reconcile.{reconcile_loan, rollback_loan}

abbrev pub has_id : ℕ → BlockchainTransaction → Bool
has_id n t = t.id == n

abbrev pub settled_at : SyncStatus → ℕ → BlockchainTransaction → BlockchainTransaction
settled_at status block t = record t { status = status; block_number = some block }

-- `blockchainTransaction.update` by the key
unfoldable pub mark_transaction : ℕ → SyncStatus → ℕ → Action (Unit {0})
mark_transaction id status block w =
    if is_some (find? (has_id id) w.transactions)
    then (
      ok tt,
      record w { transactions = update_first (has_id id) (settled_at status block) w.transactions },
    )
    else (err record_not_found, w)

-- `tx.challanId` and `tx.loanId` as conditions
abbrev pub on_row : (ℕ → Action (Unit {0})) → Option ℕ → Action (Unit {0})
on_row f none = pure tt
on_row f (some id) = f id

abbrev pub roll_row : (ℕ → World → World) → Option ℕ → World → World
roll_row f none w = w
roll_row f (some id) w = f id w

module _ (block_time : ℕ → Option ℕ) where
  unfoldable pub reconcile_success : BlockchainTransaction → Receipt → Action (Unit {0})
  unfolding mark_transaction reconcile_challan reconcile_loan
  reconcile_success tx receipt = transaction do
    mark_transaction tx.id SyncStatus.mined receipt.block_number
    on_row (reconcile_challan block_time receipt tx.action_type) tx.challan_id
    on_row (reconcile_loan receipt tx.action_type) tx.loan_id

  unfoldable pub rollback : BlockchainTransaction → World → World
  unfolding rollback_challan rollback_loan
  rollback tx w =
      roll_row (rollback_loan tx.action_type) tx.loan_id
        (roll_row (rollback_challan tx.action_type) tx.challan_id w)

  unfoldable pub reconcile_reverted : BlockchainTransaction → Receipt → Action (Unit {0})
  unfolding mark_transaction rollback
  reconcile_reverted tx receipt = do
    mark_transaction tx.id SyncStatus.failed receipt.block_number
    modify (rollback tx)

  -- `receipt.status`: 0 has reverted, 1 has succeeded
  unfoldable pub settle_receipt : BlockchainTransaction → Receipt → Option ℕ → Action (Unit {0})
  unfolding reconcile_success reconcile_reverted
  settle_receipt tx receipt none = pure tt
  settle_receipt tx receipt (some zero) = reconcile_reverted tx receipt
  settle_receipt tx receipt (some (suc zero)) = reconcile_success tx receipt
  settle_receipt tx receipt (some (suc (suc _))) = pure tt

  -- The node's answer for the hash: an error, no receipt, or one.
  unfoldable pub settle_answer : BlockchainTransaction → Result (Option Receipt) → World → World
  unfolding settle_receipt
  settle_answer tx (err _) w = w
  settle_answer tx (ok none) w = w
  settle_answer tx (ok (some receipt)) w = caught (settle_receipt tx receipt receipt.status) w

  module _ (receipt_of : ℕ → Result (Option Receipt)) where
    -- one batch of the sweep, in the order in which it was read
    unfoldable pub reconcile_batch : List BlockchainTransaction → World → World
    unfolding settle_answer
    reconcile_batch [] w = w
    reconcile_batch (tx ∷ txs) w = reconcile_batch txs (settle_answer tx (receipt_of tx.tx_hash) w)
