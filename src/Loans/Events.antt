-- ===== src/Loans/Events.antt =====
-- The events of the loan contract in backend/src/modules/indexer/indexer.service.ts, without the
-- notifications. Each handler catches what its body throws. `get_block` is `event.getBlock()` with
-- the timestamp of the block as a date.
use vehicle_lifecycle_manage.Base.{
  ℕ, suc, Option, none, some, [], ◌∷◌, ◌++◌, Bool, true, false, ◌==◌, ◌&&◌, is_some, if◌then◌else◌,
}
use vehicle_lifecycle_manage.Base.Lists.{any, keep}
use vehicle_lifecycle_manage.Base.Text.{Text, text_eq, to_lower}
use vehicle_lifecycle_manage.Domain.{
  LoanStatus, loan_reg, loan_clear, loan_refinance, loan_cancel_pending,
}
use vehicle_lifecycle_manage.Domain.Failure.{Result, ok}
use vehicle_lifecycle_manage.Store.Rows.{
  User, B2bEntity, VehiclePassport, LoanRecord, BlockchainTransaction,
}
use vehicle_lifecycle_manage.Store.Table.{find?, remove}
use vehicle_lifecycle_manage.Store.World.{World, Action, pure, gets, modify, caught, ◌>>=◌, ◌>>◌}
use vehicle_lifecycle_manage.Indexer.Finalize.{with_hash, finalize_tx}
use vehicle_lifecycle_manage.Challan.Rows.{is_id}
use vehicle_lifecycle_manage.Challan.Events.{initiator_of}
use vehicle_lifecycle_manage.Loans.Rows.{
  with_id, with_loan_id, takes_loan_id, is_pending_on, update_loan, update_loan_unique,
}

-- `walletAddress: wallet.toLowerCase()`, and the id of the user who is found
unfoldable pub user_of : Text → World → Option ℕ
user_of wallet w = elim (find? (λ (u : User). text_eq u.wallet_address (to_lower wallet)) w.users) [
  | none ↦ none
  | some u ↦ some u.id
]

-- `tx?.loanId && tx.actionType === LOAN_REG`: the loan that the backend created before
unfoldable pub registered_by : Option BlockchainTransaction → Option ℕ
registered_by none = none
registered_by (some t) = elim t.action_type [ loan_reg ↦ t.loan_id | _ ↦ none ]

-- `!tx?.actionType || tx.actionType === LOAN_REG`
unfoldable pub is_registration : Option BlockchainTransaction → Bool
is_registration none = true
is_registration (some t) = elim t.action_type [ loan_reg ↦ true | _ ↦ false ]

abbrev pub activated : ℕ → Option ℕ → LoanRecord → LoanRecord
activated loan_id user l = record l {
  loan_id = some loan_id;
  status = LoanStatus.active;
  borrower_user_id = user;
}

-- the loan that the fallback creates; `tenure` has the default 0
abbrev pub observed_loan :
    ℕ → VehiclePassport → B2bEntity → Text → Option ℕ → ℕ → Option ℕ → ℕ → ℕ → LoanRecord
observed_loan loan_id passport entity borrower user amount member now id = record {
  id = id;
  loan_id = some loan_id;
  passport_id = passport.id;
  lender_entity_id = entity.id;
  borrower_wallet = to_lower borrower;
  amount = amount;
  tenure = 0;
  status = LoanStatus.active;
  disbursed_at = now;
  cleared_at = none;
  noc_issued = false;
  noc_date = none;
  noc_recipient_wallet = none;
  created_by_member_id = member;
  borrower_user_id = user;
  noc_recipient_user_id = none;
}

-- `loanRecord.upsert` by the id on-chain
unfoldable pub upsert_loan :
    ℕ → VehiclePassport → B2bEntity → Text → Option ℕ → ℕ → Option ℕ → Action (Unit {0})
unfolding update_loan
upsert_loan loan_id passport entity borrower user amount member w =
    if is_some (find? (with_loan_id loan_id) w.loans)
    then update_loan (with_loan_id loan_id) (activated loan_id user) w
    else (
      ok tt,
      record w {
        loans =
            w.loans
            ++ observed_loan loan_id passport entity borrower user amount member w.now w.next_id
              ∷ [];
        next_id = suc w.next_id;
      },
    )

-- The loan of the transaction is activated; without one, the event creates it or finds it by its
-- id.
unfoldable pub write_registered :
    ℕ → VehiclePassport → B2bEntity → Text → Option ℕ → ℕ → Option ℕ → Option ℕ → Action (Unit {0})
unfolding upsert_loan update_loan_unique
write_registered loan_id passport entity borrower user amount member (some id) =
    update_loan_unique (with_id id) (takes_loan_id id loan_id) (activated loan_id user)
write_registered loan_id passport entity borrower user amount member none =
    upsert_loan loan_id passport entity borrower user amount member

unfoldable pub record_registered :
    ℕ
    → Text
    → ℕ
    → Option BlockchainTransaction
    → Option B2bEntity
    → Option VehiclePassport
    → Action (Unit {0})
unfolding write_registered user_of registered_by
record_registered loan_id borrower amount tx none _ w = pure tt w
record_registered loan_id borrower amount tx (some _) none w = pure tt w
record_registered loan_id borrower amount tx (some entity) (some passport) w =
    write_registered loan_id passport entity borrower (user_of borrower w) amount (initiator_of tx)
      (registered_by tx) w

-- A refinancing has finalized its transaction before: this one is then left as it is.
unfoldable pub finalize_registration : Option BlockchainTransaction → ℕ → ℕ → World → World
unfolding finalize_tx is_registration
finalize_registration tx hash block w =
    if is_registration tx then finalize_tx hash loan_reg block w else w

unfoldable pub handle_loan_reg : ℕ → ℕ → ℕ → Text → ℕ → ℕ → ℕ → World → World
unfolding record_registered finalize_registration
handle_loan_reg loan_id dvp_id bank_id borrower amount hash block = caught do
  entity ← gets (λ w. find? (λ (e : B2bEntity). is_id bank_id e.on_chain_id) w.entities)
  passport ← gets (λ w. find? (λ (p : VehiclePassport). is_id dvp_id p.dvp_id) w.passports)
  tx ← gets (λ w. find? (with_hash hash) w.transactions)
  record_registered loan_id borrower amount tx entity passport
  modify (finalize_registration tx hash block)

abbrev pub certified : ℕ → LoanRecord → LoanRecord
certified date l = record l {
  status = LoanStatus.cleared;
  cleared_at = some date;
  noc_issued = true;
  noc_date = some date;
}

-- `if (loan)`, the date of the block, and the update
unfoldable pub certify_if_found : (ℕ → Result ℕ) → ℕ → ℕ → Action (Unit {0})
unfolding update_loan
certify_if_found get_block loan_id block w = elim (find? (with_loan_id loan_id) w.loans) [
  | none ↦ (ok tt, w)
  | some _ ↦
      ((λ v. (get_block block, v)) >>= λ date. update_loan (with_loan_id loan_id) (certified date))
        w
]

unfoldable pub handle_noc_issued : (ℕ → Result ℕ) → ℕ → ℕ → ℕ → World → World
unfolding certify_if_found finalize_tx
handle_noc_issued get_block loan_id hash block =
    caught do certify_if_found get_block loan_id block; modify (finalize_tx hash loan_clear block)

-- `if (loan) { await prisma.loanRecord.update(…) }`
unfoldable pub update_loan_if_found :
    (LoanRecord → Bool) → (LoanRecord → LoanRecord) → Action (Unit {0})
unfolding update_loan
update_loan_if_found p f w = if is_some (find? p w.loans) then update_loan p f w else (ok tt, w)

unfoldable pub handle_noc_minted : ℕ → Text → World → World
unfolding update_loan_if_found user_of
handle_noc_minted loan_id owner = caught do
  user ← gets (user_of owner)
  update_loan_if_found (with_loan_id loan_id)
      (λ l. record l { noc_recipient_wallet = some (to_lower owner); noc_recipient_user_id = user })

unfoldable pub handle_loan_refinanced : ℕ → ℕ → ℕ → World → World
unfolding update_loan_if_found finalize_tx
handle_loan_refinanced old_loan_id hash block = caught do
  now ← gets (λ w. w.now)
  update_loan_if_found (with_loan_id old_loan_id) (certified now)
  modify (finalize_tx hash loan_refinance block)

-- Nothing but the transaction is written.
unfoldable pub handle_pending_loan_attached : ℕ → ℕ → World → World
unfolding finalize_tx
handle_pending_loan_attached hash block = finalize_tx hash loan_reg block

-- `lenderEntity: { onChainId }`
unfoldable pub is_lent_by : World → ℕ → LoanRecord → Bool
is_lent_by w bank_id l = elim (find? (λ (e : B2bEntity). e.id == l.lender_entity_id) w.entities) [
  | none ↦ false
  | some e ↦ is_id bank_id e.on_chain_id
]

-- `loanRecord.deleteMany`: the transactions of the loans go with them, by the foreign key
unfoldable pub delete_loans : (LoanRecord → Bool) → World → World
delete_loans p w = record w {
  loans = remove p w.loans;
  transactions =
      remove (λ (t : BlockchainTransaction). any (λ l. is_id l.id t.loan_id) (keep p w.loans))
        w.transactions;
}

unfoldable pub handle_pending_loan_cancelled : ℕ → ℕ → ℕ → ℕ → World → World
unfolding is_pending_on is_lent_by delete_loans finalize_tx
handle_pending_loan_cancelled dvp_id bank_id hash block w =
    finalize_tx hash loan_cancel_pending block
      (delete_loans (λ l. is_pending_on w dvp_id l && is_lent_by w bank_id l) w)
