-- ===== src/Loans/Reconcile.antt =====
-- The branches for loans of backend/src/jobs/reconciliation.worker.ts.
pub mod Laws
use vehicle_lifecycle_manage.Base.{ℕ, Option, none, some, Bool, true, false}
use vehicle_lifecycle_manage.Base.Text.{Text, text, to_lower}
use vehicle_lifecycle_manage.Domain.{
  LoanStatus, TxActionType, loan_reg, loan_clear, loan_refinance, loan_cancel_pending,
}
use vehicle_lifecycle_manage.Domain.Failure.{other, ok}
use vehicle_lifecycle_manage.Store.Rows.{LoanRecord}
use vehicle_lifecycle_manage.Store.World.{
  World, Action, pure, throw, gets, modify, caught, ◌>>=◌, ◌>>◌,
}
use vehicle_lifecycle_manage.Chain.Receipt.{
  Receipt, Event, first_event, as_loan_reg, as_noc_issued, as_noc_minted, as_loan_refinanced,
}
use vehicle_lifecycle_manage.Loans.Rows.{
  with_id, takes_loan_id, update_loan, update_loan_unique, delete_loan,
}
use vehicle_lifecycle_manage.Loans.Events.{user_of, activated, certified}

unfoldable pub activate_registered : ℕ → Option (ℕ × Text) → Action (Unit {0})
unfolding update_loan_unique user_of
activate_registered id none = pure tt
activate_registered id (some (loan_id, borrower)) = do
  user ← gets (user_of borrower)
  update_loan_unique (with_id id) (takes_loan_id id loan_id) (activated loan_id user)

unfoldable pub certify_cleared : ℕ → Option (Unit {0}) → Action (Unit {0})
unfolding update_loan
certify_cleared id none = pure tt
certify_cleared id (some _) = do now ← gets (λ w. w.now); update_loan (with_id id) (certified now)

unfoldable pub record_recipient : ℕ → Option Text → Action (Unit {0})
unfolding update_loan user_of
record_recipient id none = pure tt
record_recipient id (some owner) = do
  user ← gets (user_of owner)
  update_loan (with_id id)
      (λ l. record l { noc_recipient_wallet = some (to_lower owner); noc_recipient_user_id = user })

-- `regEvent.args[5]`: `LoanReg` has five arguments, and ethers throws on an index out of range.
unfoldable pub read_tenure : Option (ℕ × Text) → Action (Unit {0})
read_tenure none = pure tt
read_tenure (some _) = throw (other (text "out of result range"))

unfoldable pub close_refinanced : ℕ → Receipt → Option (Unit {0}) → Action (Unit {0})
unfolding certify_cleared read_tenure first_event
close_refinanced id receipt none = pure tt
close_refinanced id receipt (some _) = do
  certify_cleared id (some tt)
  read_tenure (first_event as_loan_reg receipt.events)

-- The branches of `handleSuccessfulReconciliation`, on the loan of the transaction.
unfoldable pub reconcile_loan : Receipt → TxActionType → ℕ → Action (Unit {0})
unfolding first_event activate_registered certify_cleared record_recipient close_refinanced
    delete_loan
reconcile_loan receipt loan_reg id = activate_registered id (first_event as_loan_reg receipt.events)
reconcile_loan receipt loan_clear id = do
  certify_cleared id (first_event as_noc_issued receipt.events)
  record_recipient id (first_event as_noc_minted receipt.events)
reconcile_loan receipt loan_cancel_pending id = modify (delete_loan id)
reconcile_loan receipt loan_refinance id =
    close_refinanced id receipt (first_event as_loan_refinanced receipt.events)
reconcile_loan receipt _ id = pure tt

-- The branches of `handleRevertedRollback`, each of which ignores a row that is missing.
unfoldable pub rollback_loan : TxActionType → ℕ → World → World
unfolding update_loan delete_loan
rollback_loan loan_reg id w = delete_loan id w
rollback_loan loan_clear id w =
    caught
      (update_loan (with_id id) (λ l. record l {
        status = LoanStatus.active;
        cleared_at = none;
        noc_issued = false;
        noc_date = none;
        noc_recipient_wallet = none;
        noc_recipient_user_id = none;
      }))
      w
rollback_loan _ id w = w
