-- ===== src/Chain/Receipt.antt =====
-- The events of the challan and the loan contract, and the receipts of transactions, as
-- backend/src/jobs/reconciliation.worker.ts reads them.
use vehicle_lifecycle_manage.Base.{ℕ, Option, none, some, List, [], ◌∷◌, Bool}
use vehicle_lifecycle_manage.Base.Text.{Text}

-- The events, with their arguments.
pub data Event : Type 0 where
  -- challanId, ownTid, policeId and amount
  challan_issued : ℕ → ℕ → ℕ → ℕ → Event
  -- challanId and ownTid
  challan_paid : ℕ → ℕ → Event
  -- challanId, ownTid and isAdminCancel
  challan_cancelled : ℕ → ℕ → Bool → Event
  -- loanId, dvpId, bankId, borrower and amount
  loan_reg : ℕ → ℕ → ℕ → Text → ℕ → Event
  -- loanId and dvpId
  noc_issued : ℕ → ℕ → Event
  -- loanId and owner
  noc_minted : ℕ → Text → Event
  -- oldLoanId, newLoanId and dvpId
  loan_refinanced : ℕ → ℕ → ℕ → Event
  -- dvpId, bankId, borrower and amount
  pending_loan_attached : ℕ → ℕ → Text → ℕ → Event
  -- dvpId and bankId
  pending_loan_cancelled : ℕ → ℕ → Event

-- A `TransactionReceipt`, with those of its logs that parse.
pub record Receipt : Type 0 where
  pub status : Option ℕ
  pub block_number : ℕ
  pub events : List Event

-- The first event of a kind: `parseReceiptEvents` and `events.get`.
unfoldable pub first_event : {A : Type 0} → (Event → Option A) → List Event → Option A
first_event kind [] = none
first_event kind (e ∷ es) = elim (kind e) [ none ↦ first_event kind es | some a ↦ some a ]

-- the arguments 0 and 1
abbrev pub as_challan_issued : Event → Option (ℕ × ℕ)
as_challan_issued (Event.challan_issued challan_id own_tid _ _) = some (challan_id, own_tid)
as_challan_issued _ = none

-- the argument 2
abbrev pub as_challan_cancelled : Event → Option Bool
as_challan_cancelled (Event.challan_cancelled _ _ is_admin_cancel) = some is_admin_cancel
as_challan_cancelled _ = none

-- the arguments 0 and 2
abbrev pub as_admin_cancel : Event → Option (ℕ × Bool)
as_admin_cancel (Event.challan_cancelled challan_id _ is_admin_cancel) =
    some (challan_id, is_admin_cancel)
as_admin_cancel _ = none

-- the arguments 0 and 3
abbrev pub as_loan_reg : Event → Option (ℕ × Text)
as_loan_reg (Event.loan_reg loan_id _ _ borrower _) = some (loan_id, borrower)
as_loan_reg _ = none

abbrev pub as_noc_issued : Event → Option (Unit {0})
as_noc_issued (Event.noc_issued _ _) = some tt
as_noc_issued _ = none

-- the argument 1
abbrev pub as_noc_minted : Event → Option Text
as_noc_minted (Event.noc_minted _ owner) = some owner
as_noc_minted _ = none

abbrev pub as_loan_refinanced : Event → Option (Unit {0})
as_loan_refinanced (Event.loan_refinanced _ _ _) = some tt
as_loan_refinanced _ = none
