-- ===== src/Loans/Rows.antt =====
-- The lookups and writes of backend/src/modules/bank/bank.repository.ts on the table of loans.
use vehicle_lifecycle_manage.Base.{
  ℕ, Option, none, some, Bool, true, false, ◌==◌, ◌&&◌, ◌||◌, not, if◌then◌else◌, is_some,
}
use vehicle_lifecycle_manage.Base.Lists.{any}
use vehicle_lifecycle_manage.Domain.{LoanStatus, TransferStatus, VehicleStatus}
use vehicle_lifecycle_manage.Domain.Failure.{ok, err}
use vehicle_lifecycle_manage.Store.Rows.{
  VehiclePassport, VehicleOwnership, TransferRequest, LoanRecord, BlockchainTransaction,
}
use vehicle_lifecycle_manage.Store.Table.{find?, update_first, remove}
use vehicle_lifecycle_manage.Store.World.{World, Action, record_not_found, unique_violation}
use vehicle_lifecycle_manage.Challan.Rows.{is_id}

abbrev pub is_pending : LoanStatus → Bool
is_pending LoanStatus.pending = true
is_pending _ = false

abbrev pub is_active_loan : LoanStatus → Bool
is_active_loan LoanStatus.active = true
is_active_loan _ = false

abbrev pub is_scrapped : VehicleStatus → Bool
is_scrapped VehicleStatus.scrapped = true
is_scrapped _ = false

abbrev pub is_active_vehicle : VehicleStatus → Bool
is_active_vehicle VehicleStatus.active = true
is_active_vehicle _ = false

abbrev pub is_pending_transfer : TransferStatus → Bool
is_pending_transfer TransferStatus.pending = true
is_pending_transfer _ = false

abbrev pub passport_dvp : Option VehiclePassport → Option ℕ
passport_dvp none = none
passport_dvp (some p) = p.dvp_id

-- `passport.dvpId` of the related row
unfoldable pub dvp_of_passport : World → ℕ → Option ℕ
dvp_of_passport w passport_id =
    passport_dvp (find? (λ (p : VehiclePassport). p.id == passport_id) w.passports)

-- `ownership: { passport: { dvpId } }`
abbrev pub ownership_dvp : World → Option VehicleOwnership → Option ℕ
ownership_dvp w none = none
ownership_dvp w (some o) = dvp_of_passport w o.passport_id

abbrev pub with_id : ℕ → LoanRecord → Bool
with_id n l = l.id == n

abbrev pub with_loan_id : ℕ → LoanRecord → Bool
with_loan_id n l = is_id n l.loan_id

-- another loan has the id on-chain
abbrev pub takes_loan_id : ℕ → ℕ → LoanRecord → Bool
takes_loan_id id n l = not (l.id == id) && is_id n l.loan_id

-- `{ passport: { dvpId }, status: PENDING }`
unfoldable pub is_pending_on : World → ℕ → LoanRecord → Bool
unfolding dvp_of_passport
is_pending_on w dvp_id l = is_id dvp_id (dvp_of_passport w l.passport_id) && is_pending l.status

-- `findActiveOrPendingLoanByDvpId`
unfoldable pub is_open_on : World → ℕ → LoanRecord → Bool
unfolding dvp_of_passport
is_open_on w dvp_id l =
    is_id dvp_id (dvp_of_passport w l.passport_id)
    && (is_active_loan l.status || is_pending l.status)
    && not l.noc_issued

-- `findPendingLoanByDvpIdAndBank`
unfoldable pub is_pending_at : World → ℕ → ℕ → LoanRecord → Bool
unfolding is_pending_on
is_pending_at w dvp_id bank l =
    is_pending_on w dvp_id l && (l.lender_entity_id == bank) && not l.noc_issued

-- a transfer of the vehicle that has not been accepted
unfoldable pub is_transfer_of : World → ℕ → TransferRequest → Bool
unfolding dvp_of_passport
is_transfer_of w dvp_id t =
    is_id dvp_id
      (ownership_dvp w (find? (λ (o : VehicleOwnership). o.id == t.ownership_id) w.ownerships))
    && is_pending_transfer t.status

-- `loanRecord.update` by a unique column
unfoldable pub update_loan : (LoanRecord → Bool) → (LoanRecord → LoanRecord) → Action (Unit {0})
update_loan p f w =
    if is_some (find? p w.loans)
    then (ok tt, record w { loans = update_first p f w.loans })
    else (err record_not_found, w)

-- The same, for an update that sets the id on-chain.
unfoldable pub update_loan_unique :
    (LoanRecord → Bool) → (LoanRecord → Bool) → (LoanRecord → LoanRecord) → Action (Unit {0})
unfolding update_loan
update_loan_unique p taken f w =
    if is_some (find? p w.loans) && any taken w.loans
    then (err unique_violation, w)
    else update_loan p f w

-- `loanRecord.delete`: the transactions of the loan go with it, by the foreign key
unfoldable pub delete_loan : ℕ → World → World
delete_loan id w = record w {
  loans = remove (with_id id) w.loans;
  transactions = remove (λ (t : BlockchainTransaction). is_id id t.loan_id) w.transactions;
}
