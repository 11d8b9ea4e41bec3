-- ===== src/Loans/Bank.antt =====
-- backend/src/modules/bank/bank.service.ts: the handlers that write. `parse_units` is `parseUnits`
-- of ethers with no decimals: none where it throws. The column of the amount holds the same number.
pub mod Laws
pub mod Free
pub mod Register
use vehicle_lifecycle_manage.Base.{
  ℕ, suc, Option, none, some, List, [], ◌∷◌, ◌++◌, Bool, true, false, ◌==◌, ◌&&◌, not,
  if◌then◌else◌, is_some,
}
use vehicle_lifecycle_manage.Base.Text.{Text, text, text_eq, to_lower}
use vehicle_lifecycle_manage.Domain.{
  bank, LoanStatus, SyncStatus, TxActionType, TxSource, loan_reg, loan_clear, loan_refinance,
  loan_cancel_pending,
}
use vehicle_lifecycle_manage.Domain.Failure.{http, Result, ok, err}
use vehicle_lifecycle_manage.Store.Rows.{
  VehiclePassport, VehicleOwnership, TransferRequest, LoanRecord, BlockchainTransaction,
}
use vehicle_lifecycle_manage.Store.Table.{find?}
use vehicle_lifecycle_manage.Store.World.{
  Call, World, Action, pure, gets, or_throw, throw_if, transaction, ◌>>=◌, ◌>>◌,
}
use vehicle_lifecycle_manage.Chain.Manager.{Node, submit_or_400}
use vehicle_lifecycle_manage.Chain.Tracking.{create_transaction, submit_and_track}
use vehicle_lifecycle_manage.Challan.Rows.{is_id}
use vehicle_lifecycle_manage.Challan.Police.{truthy_number, with_both}
use vehicle_lifecycle_manage.Loans.Rows.{
  is_active_loan, is_scrapped, is_active_vehicle, dvp_of_passport, with_id, is_pending_on,
  is_open_on, is_pending_at, is_transfer_of,
}

-- a `BlockchainTransaction` of the given action on a loan, still pending
abbrev pub pending_loan_tx : TxActionType → ℕ → ℕ → ℕ → ℕ → ℕ → BlockchainTransaction
pending_loan_tx action loan bank_entity member hash id = record {
  id = id;
  tx_hash = hash;
  action_type = action;
  status = SyncStatus.pending;
  block_number = none;
  b2b_entity_id = some bank_entity;
  challan_id = none;
  loan_id = some loan;
  ownership_id = none;
  transfer_req_id = none;
  insurance_id = none;
  initiator_member_id = some member;
  initiator_user_id = none;
  tx_source = TxSource.member;
}

-- the row that `createPendingLoanTx` creates
abbrev pub pending_loan : ℕ → ℕ → Text → ℕ → ℕ → ℕ → ℕ → ℕ → LoanRecord
pending_loan passport_id bank_entity wallet amount tenure member now id = record {
  id = id;
  loan_id = none;
  passport_id = passport_id;
  lender_entity_id = bank_entity;
  borrower_wallet = wallet;
  amount = amount;
  tenure = tenure;
  status = LoanStatus.pending;
  disbursed_at = now;
  cleared_at = none;
  noc_issued = false;
  noc_date = none;
  noc_recipient_wallet = none;
  created_by_member_id = some member;
  borrower_user_id = none;
  noc_recipient_user_id = none;
}

unfoldable pub create_loan : ℕ → ℕ → Text → ℕ → ℕ → ℕ → Action ℕ
create_loan passport_id bank_entity wallet amount tenure member w = (
  ok w.next_id,
  record w {
    loans =
        w.loans
        ++ pending_loan passport_id bank_entity wallet amount tenure member w.now w.next_id ∷ [];
    next_id = suc w.next_id;
  },
)

unfoldable pub create_pending_loan_tx : ℕ → ℕ → Text → ℕ → ℕ → ℕ → ℕ → Action ℕ
unfolding create_loan create_transaction
create_pending_loan_tx passport_id bank_entity wallet amount tenure member hash = transaction do
  id ← create_loan passport_id bank_entity wallet amount tenure member
  create_transaction (pending_loan_tx loan_reg id bank_entity member hash)
  pure id

-- `createPendingLoanTx` after the submission
unfoldable pub track_loan : ℕ → ℕ → Text → ℕ → ℕ → ℕ → Result ℕ × World → Result (ℕ × ℕ) × World
unfolding create_pending_loan_tx
track_loan passport_id bank_entity wallet amount tenure member (ok hash, w) =
    with_both hash
      (create_pending_loan_tx passport_id bank_entity wallet amount tenure member hash w)
track_loan passport_id bank_entity wallet amount tenure member (err e, w) = (err e, w)

-- `ownership && ownership.ownerWallet.toLowerCase() !== borrowerWallet.toLowerCase()`
unfoldable pub is_foreign : Text → Option VehicleOwnership → Bool
is_foreign borrower none = false
is_foreign borrower (some o) = not (text_eq (to_lower o.owner_wallet) (to_lower borrower))

-- A vehicle in transfer may have an active loan, but one pending loan at most.
unfoldable pub check_transfer : ℕ → Action (Unit {0})
unfolding is_pending_on
check_transfer dvp_id = do
  existing ← gets (λ w. find? (is_pending_on w dvp_id) w.loans)
  throw_if (is_some existing)
      (http 409 (text "This vehicle transfer already has a pending loan attached."))

-- Any other vehicle has no open loan, and a registered one is borrowed on by its active owner,
-- where one is on record.
unfoldable pub check_title : VehiclePassport → ℕ → Text → Action (Unit {0})
unfolding is_open_on is_foreign
check_title passport dvp_id borrower = do
  existing ← gets (λ w. find? (is_open_on w dvp_id) w.loans)
  throw_if (is_some existing)
      (http 409 (text "Vehicle already has an active or pending loan hypothecation."))
  owner ← gets (λ w.
      find? (λ (o : VehicleOwnership). (o.passport_id == passport.id) && o.is_active) w.ownerships)
  throw_if (is_active_vehicle passport.status && is_foreign borrower owner) (
      http 400 (
        text
          "For a title loan, borrowerWallet must be the current registered owner of the vehicle."))

-- The guard against double hypothecation.
unfoldable pub check_free : VehiclePassport → ℕ → Text → Option TransferRequest → Action (Unit {0})
unfolding check_transfer check_title
check_free passport dvp_id borrower (some _) = check_transfer dvp_id
check_free passport dvp_id borrower none = check_title passport dvp_id borrower

module _ (node : Node) where
  -- The id of the new row and the hash.
  unfoldable pub register_loan : (Text → Option ℕ) → ℕ → Text → Text → ℕ → ℕ → ℕ → Action (ℕ × ℕ)
  unfolding is_transfer_of check_free track_loan
  register_loan parse_units dvp_id borrower amount_text tenure bank_entity member = do
    passports ← gets (λ w. w.passports)
    passport ←
        or_throw (find? (λ (p : VehiclePassport). is_id dvp_id p.dvp_id) passports)
          (http 404 (text "Vehicle passport not found for the given dvpId."))
    throw_if (is_scrapped passport.status)
        (http 400 (text "Cannot register loan on a scrapped vehicle."))
    transfer ← gets (λ w. find? (is_transfer_of w dvp_id) w.transfers)
    check_free passport dvp_id borrower transfer
    amount ← or_throw (parse_units amount_text) (http 400 (text "Invalid loan amount format."))
    λ w.
        track_loan passport.id bank_entity (to_lower borrower) amount tenure member
          (submit_or_400 node bank_entity bank (Call.register_loan dvp_id borrower amount tenure) w)

  unfoldable pub issue_noc : ℕ → ℕ → ℕ → Action ℕ
  unfolding dvp_of_passport
  issue_noc loan_db_id bank_entity member = do
    rows ← gets (λ w. w.loans)
    loan ← or_throw (find? (with_id loan_db_id) rows) (http 404 (text "Loan not found."))
    throw_if (not (loan.lender_entity_id == bank_entity))
        (http 403 (text "Unauthorized: this loan belongs to a different bank."))
    throw_if (not (is_active_loan loan.status))
        (http 400 (text "Cannot issue NOC: the loan is not ACTIVE."))
    throw_if loan.noc_issued (http 409 (text "NOC has already been issued for this loan."))
    linked ← gets (λ w. dvp_of_passport w loan.passport_id)
    dvp_id ←
        or_throw (truthy_number linked)
          (http 400 (text "Loan is missing linked DVP token ID. Cannot issue NOC."))
    submit_and_track node bank_entity bank (Call.issue_noc dvp_id)
        (pending_loan_tx loan_clear loan_db_id bank_entity member)

  unfoldable pub cancel_pending_loan : ℕ → ℕ → ℕ → Action ℕ
  unfolding is_pending_at
  cancel_pending_loan dvp_id bank_entity member = do
    found ← gets (λ w. find? (is_pending_at w dvp_id bank_entity) w.loans)
    loan ←
        or_throw found (http 404 (text "No pending loan found for this vehicle under your bank."))
    submit_and_track node bank_entity bank (Call.cancel_pending_loan dvp_id)
        (pending_loan_tx loan_cancel_pending loan.id bank_entity member)

  unfoldable pub refinance_loan : (Text → Option ℕ) → ℕ → Text → ℕ → ℕ → ℕ → Action ℕ
  unfolding dvp_of_passport
  refinance_loan parse_units loan_db_id amount_text tenure bank_entity member = do
    rows ← gets (λ w. w.loans)
    loan ← or_throw (find? (with_id loan_db_id) rows) (http 404 (text "Loan not found."))
    throw_if (not (loan.lender_entity_id == bank_entity))
        (http 403 (text "Unauthorized: this loan belongs to a different bank."))
    throw_if (not (is_active_loan loan.status))
        (http 400 (text "Cannot refinance: the loan is not ACTIVE."))
    throw_if loan.noc_issued
        (http 400 (text "Cannot refinance: NOC has already been issued (loan is cleared)."))
    linked ← gets (λ w. dvp_of_passport w loan.passport_id)
    dvp_id ←
        or_throw (truthy_number linked)
          (http 400 (text "Loan is missing linked DVP token ID. Cannot refinance."))
    amount ← or_throw (parse_units amount_text) (http 400 (text "Invalid newAmount format."))
    submit_and_track node bank_entity bank (Call.refinance_loan dvp_id amount tenure)
        (pending_loan_tx loan_refinance loan_db_id bank_entity member)

-- `getLoanDetails`, which only reads
unfoldable pub get_loan_details : ℕ → ℕ → Action LoanRecord
get_loan_details loan_db_id bank_entity = do
  rows ← gets (λ w. w.loans)
  loan ← or_throw (find? (with_id loan_db_id) rows) (http 404 (text "Loan not found."))
  throw_if (not (loan.lender_entity_id == bank_entity))
      (http 403 (text "Unauthorized: this loan belongs to a different bank."))
  pure loan
