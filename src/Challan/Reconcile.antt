-- ===== src/Challan/Reconcile.antt =====
-- The branches for challans of backend/src/jobs/reconciliation.worker.ts, the side effect of an
-- executed Safe proposal included. `block_time` is
-- `provider.getBlock(n)?.timestamp`, as a date.
pub mod Laws
pub mod Agreement
pub mod Admin
use vehicle_lifecycle_manage.Base.{ℕ, Option, none, some, Bool, true, false, if◌then◌else◌}
use vehicle_lifecycle_manage.Domain.{
  ChallanStatus, TxActionType, challan_issue, challan_pay, challan_cancel,
}
use vehicle_lifecycle_manage.Domain.Failure.{ok}
use vehicle_lifecycle_manage.Store.Rows.{Challan, BlockchainTransaction}
use vehicle_lifecycle_manage.Store.Table.{find?, remove}
use vehicle_lifecycle_manage.Store.World.{World, Action, pure, gets, caught, ◌>>=◌, ◌>>◌}
use vehicle_lifecycle_manage.Chain.Receipt.{
  Receipt, first_event, as_challan_issued, as_challan_cancelled, as_admin_cancel,
}
use vehicle_lifecycle_manage.Challan.Rows.{
  is_id, with_id, with_chain_id, takes_chain_id, update_challan, update_challan_unique,
}
use vehicle_lifecycle_manage.Challan.Police.{is_cancelled}
use vehicle_lifecycle_manage.Challan.Events.{issued_with}

-- `getBlockTimestamp`: the clock where the node does not know the block
unfoldable pub get_block_timestamp : (ℕ → Option ℕ) → ℕ → World → ℕ
get_block_timestamp block_time n w = elim (block_time n) [ none ↦ w.now | some t ↦ t ]

abbrev pub admin_flag : Option Bool → Bool
admin_flag none = false
admin_flag (some b) = b

-- The branches of `handleSuccessfulReconciliation`, on the challan of the transaction.
unfoldable pub reconcile_challan : (ℕ → Option ℕ) → Receipt → TxActionType → ℕ → Action (Unit {0})
unfolding first_event get_block_timestamp update_challan_unique
reconcile_challan block_time receipt challan_issue id =
    elim (first_event as_challan_issued receipt.events) [
      | none ↦ pure tt
      | some (challan_id, own_tid) ↦
          update_challan_unique (with_id id) (takes_chain_id id challan_id)
            (issued_with challan_id own_tid)
    ]
reconcile_challan block_time receipt challan_pay id = do
  paid_at ← gets (get_block_timestamp block_time receipt.block_number)
  update_challan (with_id id)
      (λ c. record c { status = ChallanStatus.paid; paid_at = some paid_at })
reconcile_challan block_time receipt challan_cancel id = do
  cancelled_at ← gets (get_block_timestamp block_time receipt.block_number)
  update_challan (with_id id) (λ c. record c {
    status = ChallanStatus.cancelled;
    cancelled_at = some cancelled_at;
    is_admin_cancel = admin_flag (first_event as_challan_cancelled receipt.events);
  })
reconcile_challan block_time receipt _ id = pure tt

-- The side effect of an executed Safe proposal to cancel a challan, in the branch for `SAFE_EXEC`:
-- what follows where the challan of the event is found.
unfoldable pub cancel_by_admin : (ℕ → Option ℕ) → ℕ → ℕ → Bool → Option Challan → Action (Unit {0})
unfolding get_block_timestamp update_challan
cancel_by_admin block_time block challan_id by_admin none = pure tt
cancel_by_admin block_time block challan_id by_admin (some c) =
    if is_cancelled c.status then pure tt else do
      cancelled_at ← gets (get_block_timestamp block_time block)
      update_challan (with_chain_id challan_id) (λ c. record c {
        status = ChallanStatus.cancelled;
        cancelled_at = some cancelled_at;
        is_admin_cancel = by_admin;
      })

unfoldable pub replay_admin_cancel : (ℕ → Option ℕ) → Receipt → Action (Unit {0})
unfolding first_event cancel_by_admin
replay_admin_cancel block_time receipt = elim (first_event as_admin_cancel receipt.events) [
  | none ↦ pure tt
  | some (challan_id, by_admin) ↦ do
    found ← gets (λ w. find? (with_chain_id challan_id) w.challans)
    cancel_by_admin block_time receipt.block_number challan_id by_admin found
]

-- `challan.delete`: the transactions of the challan go with it, by the foreign key
unfoldable pub delete_challan : ℕ → World → World
delete_challan id w = record w {
  challans = remove (with_id id) w.challans;
  transactions = remove (λ (t : BlockchainTransaction). is_id id t.challan_id) w.transactions;
}

-- The branches of `handleRevertedRollback`, each of which ignores a row that is missing.
unfoldable pub rollback_challan : TxActionType → ℕ → World → World
unfolding delete_challan update_challan
rollback_challan challan_issue id w = delete_challan id w
rollback_challan challan_pay id w =
    caught
      (update_challan (with_id id)
        (λ c. record c { status = ChallanStatus.pending; paid_at = none }))
      w
rollback_challan challan_cancel id w =
    caught
      (update_challan (with_id id)
        (λ c. record c { status = ChallanStatus.pending; cancelled_at = none }))
      w
rollback_challan _ id w = w
