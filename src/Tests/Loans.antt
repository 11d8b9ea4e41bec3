-- ===== src/Tests/Loans.antt =====
-- The theorems on loans and on the reconciliation at a small world.
use vehicle_lifecycle_manage.Base.{ℕ, ◌≡◌, refl, Option, none, some, List, [], ◌∷◌, false}
use vehicle_lifecycle_manage.Base.Text.{Text, text}
use vehicle_lifecycle_manage.Domain.{
  bank, VehicleStatus, ChallanStatus, LoanStatus, SyncStatus, TxSource, challan_pay, loan_reg,
  loan_refinance,
}
use vehicle_lifecycle_manage.Domain.Failure.{ok}
use vehicle_lifecycle_manage.Store.Rows.{
  B2bEntity, VehiclePassport, Challan, LoanRecord, BlockchainTransaction,
}
use vehicle_lifecycle_manage.Store.Table.{find?}
use vehicle_lifecycle_manage.Store.World.{World}
use vehicle_lifecycle_manage.Chain.Receipt.{
  Event, Receipt, first_event, as_loan_reg, as_loan_refinanced,
}
use vehicle_lifecycle_manage.Chain.Tracking.Guarded.{Sends}
use vehicle_lifecycle_manage.Challan.Rows.{is_id}
use vehicle_lifecycle_manage.Challan.Rows
use vehicle_lifecycle_manage.Challan.Police.{pending_challan_tx}
use vehicle_lifecycle_manage.Loans.Bank.{
  pending_loan_tx, register_loan, issue_noc, refinance_loan, cancel_pending_loan,
}
use vehicle_lifecycle_manage.Loans.Bank.Laws.{
  MayCertify, issue_noc-Sends, MayRefinance, refinance_loan-Sends, MayWithdraw,
  cancel_pending_loan-Sends,
}
use vehicle_lifecycle_manage.Loans.Bank.Register.{Registers, register_loan-Registers}
use vehicle_lifecycle_manage.Reconcile.{has_id, settled_at, settle_answer}
use vehicle_lifecycle_manage.Reconcile.Laws.{reverted_payment_unpays, refinance_is_stuck}
use vehicle_lifecycle_manage.Tests.Data.{node, station, open_challan, world}

abbrev lender : B2bEntity
lender = record station { id = 31; kind = bank; on_chain_id = some 6 }

abbrev passport : VehiclePassport
passport = record {
  id = 3;
  dvp_id = some 70;
  vin_hash = 77;
  status = VehicleStatus.not_reg;
  mfg_entity_id = 71;
  mfg_date = 5;
  dealer_wallet = none;
  dealer_user_id = none;
  scrap_entity_id = none;
  scrap_date = none;
  authorized_scrap_center_id = none;
  created_by_member_id = none;
}

abbrev loan : LoanRecord
loan = record {
  id = 41;
  loan_id = some 90;
  passport_id = 3;
  lender_entity_id = 31;
  borrower_wallet = text "0xab";
  amount = 8;
  tenure = 12;
  status = LoanStatus.active;
  disbursed_at = 30;
  cleared_at = none;
  noc_issued = false;
  noc_date = none;
  noc_recipient_wallet = none;
  created_by_member_id = some 8;
  borrower_user_id = none;
  noc_recipient_user_id = none;
}

abbrev unlent : World
unlent = record world { entities = lender ∷ []; passports = passport ∷ [] }

abbrev lent : World
lent = record unlent { loans = loan ∷ [] }

abbrev parse_units : Text → Option ℕ
parse_units s = elim s [ [] ↦ none | ◌∷◌ c _ ↦ some c ]

register_loan_example :
    Registers 70
      (text "0xAB")
      12
      31
      8
      unlent
      parse_units
      (text "8")
      (register_loan node parse_units 70 (text "0xAB") (text "8") 12 31 8 unlent)
register_loan_example =
    register_loan-Registers 70 (text "0xAB") 12 31 8 unlent node parse_units (text "8")

issue_noc_example : Sends lent 31 (MayCertify lent 41 31 8) (issue_noc node 41 31 8 lent)
issue_noc_example = issue_noc-Sends node lent 41 31 8

abbrev waiting : World
waiting = record unlent { loans = record loan { status = LoanStatus.pending; loan_id = none } ∷ [] }

refinance_loan_example :
    Sends lent 31
      (MayRefinance parse_units lent 41 (text "9") 24 31 8)
      (refinance_loan node parse_units 41 (text "9") 24 31 8 lent)
refinance_loan_example = refinance_loan-Sends node lent 41 31 8 parse_units (text "9") 24

cancel_pending_loan_example :
    Sends waiting 31 (MayWithdraw waiting 70 31 8) (cancel_pending_loan node 70 31 8 waiting)
cancel_pending_loan_example = cancel_pending_loan-Sends node waiting 70 31 8

abbrev reg_tx : BlockchainTransaction
reg_tx = pending_loan_tx loan_reg 41 31 8 100 42

abbrev registering : World
registering = record waiting { transactions = reg_tx ∷ [] }

abbrev succeeded : List Event → Receipt
succeeded events = record { status = some 1; block_number = 33; events = events }

abbrev reverted : Receipt
reverted = record { status = some 0; block_number = 33; events = [] }

abbrev new_loan : Event
new_loan = Event.loan_reg 91 70 6 (text "0xAB") 9

abbrev block_time : ℕ → Option ℕ
block_time n = none

abbrev refinance_tx : BlockchainTransaction
refinance_tx = pending_loan_tx loan_refinance 41 31 8 101 43

abbrev refinancing : World
refinancing = record lent { transactions = refinance_tx ∷ [] }

abbrev refinanced : Receipt
refinanced = succeeded (Event.loan_refinanced 90 91 70 ∷ new_loan ∷ [])

has_closing : first_event as_loan_refinanced refinanced.events ≡ some tt
unfolding first_event
has_closing = refl

has_opening : first_event as_loan_reg refinanced.events ≡ some (91, text "0xAB")
unfolding first_event
has_opening = refl

refinance_is_stuck_example :
    settle_answer block_time refinance_tx (ok (some refinanced)) refinancing ≡ refinancing
refinance_is_stuck_example =
    refinance_is_stuck block_time refinance_tx refinanced refinancing refinance_tx 41
      (91, text "0xAB") refl refl refl refl refl has_closing has_opening

-- A challan that is paid, and a second payment of it.
abbrev paid_challan : Challan
paid_challan = record open_challan { status = ChallanStatus.paid; paid_at = some 49 }

abbrev second_tx : BlockchainTransaction
second_tx = pending_challan_tx challan_pay 5 1 none TxSource.webhook 102 44

abbrev paid_twice : World
paid_twice = record world { challans = paid_challan ∷ []; transactions = second_tx ∷ [] }

reverted_payment_example :
    let v = settle_answer block_time second_tx (ok (some reverted)) paid_twice in
    (find? (has_id 44) v.transactions ≡ some (settled_at SyncStatus.failed 33 second_tx))
    × (find? (Rows.with_id 5) v.challans
        ≡ some (record paid_challan { status = ChallanStatus.pending; paid_at = none }))
reverted_payment_example =
    reverted_payment_unpays block_time second_tx reverted paid_twice second_tx paid_challan refl
      refl refl refl refl refl
