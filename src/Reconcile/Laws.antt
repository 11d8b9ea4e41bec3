-- ===== src/Reconcile/Laws.antt =====
-- What the reconciliation does to the rows of a transaction.
use vehicle_lifecycle_manage.Base.{
  ℕ, ◌≡◌, ◌∙◌, inl, inr, Option, none, some, false, arith, Bool-cases, ==_refl, is_some,
}
use vehicle_lifecycle_manage.Base.Lists.{any}
use vehicle_lifecycle_manage.Base.Text.{Text, text}
use vehicle_lifecycle_manage.Domain.{
  SyncStatus, ChallanStatus, challan_issue, challan_pay, loan_refinance,
}
use vehicle_lifecycle_manage.Domain.Failure.{Failure, other, ok, err}
use vehicle_lifecycle_manage.Store.Rows.{Challan, BlockchainTransaction}
use vehicle_lifecycle_manage.Store.Table.{find?, update_first, find?-update_self, find?-holds}
use vehicle_lifecycle_manage.Store.World.{World, record_not_found, ◌>>◌}
use vehicle_lifecycle_manage.Chain.Receipt.{Receipt, first_event, as_loan_reg, as_loan_refinanced}
use vehicle_lifecycle_manage.Challan.Rows.{is_id, update_challan}
use vehicle_lifecycle_manage.Challan.Rows
use vehicle_lifecycle_manage.Loans
use vehicle_lifecycle_manage.Challan.Reconcile.{reconcile_challan, rollback_challan, delete_challan}
use vehicle_lifecycle_manage.Loans.Rows.{update_loan, update_loan_unique, delete_loan}
use vehicle_lifecycle_manage.Loans.Reconcile.{
  certify_cleared, read_tenure, close_refinanced, reconcile_loan,
}
use vehicle_lifecycle_manage.Reconcile.Steps.{
  mark_transaction-found, caught_then, transaction_fails, then_throws, any-remove,
}
use vehicle_lifecycle_manage.Reconcile.{
  has_id, settled_at, mark_transaction, on_row, reconcile_success, rollback, reconcile_reverted,
  settle_receipt, settle_answer,
}

module _ (block_time : ℕ → Option ℕ) where
  abbrev unpaid : Challan → Challan
  unpaid c = record c { status = ChallanStatus.pending; paid_at = none }

  rollback_pay-found :
      (c : Challan) (v : World)
      → find? (Rows.with_id c.id) v.challans ≡ some c
      → rollback_challan challan_pay c.id v
        ≡ record v { challans = update_first (Rows.with_id c.id) unpaid v.challans }
  unfolding rollback_challan update_challan
  rollback_pay-found c v found = ground arith

  -- The world after the rollback of a payment on the challan with this key.
  abbrev after_unpay : BlockchainTransaction → Receipt → ℕ → World → World
  after_unpay tx receipt id w = record w {
    challans = update_first (Rows.with_id id) unpaid w.challans;
    transactions =
        update_first (has_id tx.id) (settled_at SyncStatus.failed receipt.block_number)
          w.transactions;
  }

  reverted_payment-eq :
      (tx : BlockchainTransaction) (receipt : Receipt) (w : World) (t : BlockchainTransaction)
      (c : Challan)
      → tx.action_type ≡ challan_pay
      → tx.challan_id ≡ some c.id
      → tx.loan_id ≡ none
      → receipt.status ≡ some 0
      → find? (has_id tx.id) w.transactions ≡ some t
      → find? (Rows.with_id c.id) w.challans ≡ some c
      → settle_answer block_time tx (ok (some receipt)) w ≡ after_unpay tx receipt c.id w
  unfolding settle_answer settle_receipt reconcile_reverted rollback
  reverted_payment-eq tx receipt w t c action challan loan reverted tracked found =
      rw (reverted, settle_receipt)
        (caught_then (mark_transaction tx.id SyncStatus.failed receipt.block_number)
            (rollback block_time tx) w _ (mark_transaction-found tx.id _ _ w t tracked)
          ∙ rw (loan, challan, action, rollback) (rollback_pay-found c _ found))

  -- A payment that has reverted: its transaction is marked as failed and the challan of the
  -- transaction is pending again without a date of payment, whatever its state was before. In
  -- particular a challan that another transaction has paid is unpaid by it.
  pub reverted_payment_unpays :
      (tx : BlockchainTransaction) (receipt : Receipt) (w : World) (t : BlockchainTransaction)
      (c : Challan)
      → tx.action_type ≡ challan_pay
      → tx.challan_id ≡ some c.id
      → tx.loan_id ≡ none
      → receipt.status ≡ some 0
      → find? (has_id tx.id) w.transactions ≡ some t
      → find? (Rows.with_id c.id) w.challans ≡ some c
      → let v = settle_answer block_time tx (ok (some receipt)) w in
        (find? (has_id tx.id) v.transactions
          ≡ some (settled_at SyncStatus.failed receipt.block_number t))
        × (find? (Rows.with_id c.id) v.challans
            ≡ some (record c { status = ChallanStatus.pending; paid_at = none }))
  reverted_payment_unpays tx receipt w t c action challan loan reverted tracked found =
      rw (reverted_payment-eq tx receipt w t c action challan loan reverted tracked found) (
        find?-update_self (has_id tx.id) (settled_at SyncStatus.failed receipt.block_number)
            w.transactions t tracked (find?-holds (has_id tx.id) w.transactions t tracked),
        find?-update_self (Rows.with_id c.id) unpaid w.challans c found (==_refl c.id),
      )

-- The branch of a refinancing throws once the receipt holds the registration of the new loan.
close_refinanced-throws :
    (id : ℕ) (receipt : Receipt) (e : ℕ × Text) (w : World)
    → first_event as_loan_refinanced receipt.events ≡ some tt
    → first_event as_loan_reg receipt.events ≡ some e
    → (g : Failure) × ((reconcile_loan receipt loan_refinance id w).0 ≡ err g)
unfolding reconcile_loan close_refinanced certify_cleared update_loan read_tenure
close_refinanced-throws id receipt e w closed registered =
    elim (Bool-cases (is_some (find? (Loans.Rows.with_id id) w.loans))) [
      | inl found ↦ (other (text "out of result range"), ground arith)
      | inr missing ↦ (record_not_found, ground arith)
    ]

module _ (block_time : ℕ → Option ℕ) where
  -- A refinancing that has succeeded on-chain, with the registration of the new loan in its
  -- receipt, is never settled by the sweep: nothing changes, and its row stays as it is.
  pub refinance_is_stuck :
      (tx : BlockchainTransaction) (receipt : Receipt) (w : World) (t : BlockchainTransaction)
      (id : ℕ) (e : ℕ × Text)
      → tx.action_type ≡ loan_refinance
      → tx.challan_id ≡ none
      → tx.loan_id ≡ some id
      → receipt.status ≡ some 1
      → find? (has_id tx.id) w.transactions ≡ some t
      → first_event as_loan_refinanced receipt.events ≡ some tt
      → first_event as_loan_reg receipt.events ≡ some e
      → settle_answer block_time tx (ok (some receipt)) w ≡ w
  unfolding settle_answer settle_receipt reconcile_success
  refinance_is_stuck tx receipt w t id e action no_challan loan succeeded tracked closed
        registered =
      let (g, throws) =
        close_refinanced-throws id receipt e
          (record w {
            transactions =
                update_first (has_id tx.id) (settled_at SyncStatus.mined receipt.block_number)
                  w.transactions;
          })
          closed registered in
      rw (succeeded, settle_receipt)
        (transaction_fails
          (mark_transaction tx.id SyncStatus.mined receipt.block_number
            >> (on_row (reconcile_challan block_time receipt tx.action_type) tx.challan_id
                >> on_row (reconcile_loan receipt tx.action_type) tx.loan_id))
          w g
          (then_throws (mark_transaction tx.id SyncStatus.mined receipt.block_number)
            (on_row (reconcile_challan block_time receipt tx.action_type) tx.challan_id
              >> on_row (reconcile_loan receipt tx.action_type) tx.loan_id)
            w _ g (mark_transaction-found tx.id SyncStatus.mined receipt.block_number w t tracked)
            (rw (no_challan, loan, action) throws)))

module _ (block_time : ℕ → Option ℕ) where
  -- After the rollback of a reverted issue, the challan is gone, and so is every transaction that
  -- refers to it: also the row that has just been marked as failed.
  pub reverted_issue_erases :
      (tx : BlockchainTransaction) (receipt : Receipt) (w : World) (t : BlockchainTransaction)
      (id : ℕ)
      → tx.action_type ≡ challan_issue
      → tx.challan_id ≡ some id
      → tx.loan_id ≡ none
      → receipt.status ≡ some 0
      → find? (has_id tx.id) w.transactions ≡ some t
      → let v = settle_answer block_time tx (ok (some receipt)) w in
        (any (Rows.with_id id) v.challans ≡ false)
        × (any (λ (t : BlockchainTransaction). is_id id t.challan_id) v.transactions ≡ false)
  unfolding settle_answer settle_receipt reconcile_reverted rollback rollback_challan delete_challan
  reverted_issue_erases tx receipt w t id action challan loan reverted tracked =
      rw (reverted, settle_receipt)
        (rw
          (caught_then (mark_transaction tx.id SyncStatus.failed receipt.block_number)
            (rollback block_time tx) w _ (mark_transaction-found tx.id _ _ w t tracked))
          (rw (loan, challan, action, rollback)
            (
              any-remove (Rows.with_id id) w.challans,
              any-remove (λ (t : BlockchainTransaction). is_id id t.challan_id)
                  (update_first (has_id tx.id) (settled_at SyncStatus.failed receipt.block_number)
                    w.transactions),
            )))
