-- ===== src/Loans/Bank/Laws.antt =====
-- What the handlers of a bank do to a loan that it has granted, on every branch.
use vehicle_lifecycle_manage.Base.{
  ℕ, zero, suc, ◌<◌, ◌≡◌, ◌⊎◌, refl, inl, inr, Option, none, some, true, false, arith, Bool-cases,
  Option-cases, ◌==◌,
}
use vehicle_lifecycle_manage.Base.Text.{Text}
use vehicle_lifecycle_manage.Domain.{
  bank, LoanStatus, loan_clear, loan_refinance, loan_cancel_pending,
}
use vehicle_lifecycle_manage.Store.Rows.{LoanRecord, BlockchainTransaction}
use vehicle_lifecycle_manage.Store.Table.{find?, find?-holds}
use vehicle_lifecycle_manage.Store.World.{Call, World}
use vehicle_lifecycle_manage.Chain.Manager.{Node}
use vehicle_lifecycle_manage.Chain.Tracking.{submit_and_track}
use vehicle_lifecycle_manage.Chain.Tracking.Guarded.{
  Unchanged, Sends, Unchanged-Sends, submission-Sends,
}
use vehicle_lifecycle_manage.Challan.Rows.{is_id}
use vehicle_lifecycle_manage.Loans.Rows.{dvp_of_passport, with_id, is_pending_at, is_pending_on}
use vehicle_lifecycle_manage.Loans.Bank.{
  pending_loan_tx, issue_noc, cancel_pending_loan, refinance_loan,
}

-- The loan is the bank's own, active, without a certificate, and on a vehicle known on-chain.
pub record IsServiced (w : World) (loan_db_id bank_entity : ℕ) (l : LoanRecord) (dvp_id : ℕ)
    : Type 0 where
  pub found : find? (with_id loan_db_id) w.loans ≡ some l
  pub granted : l.lender_entity_id ≡ bank_entity
  pub active : l.status ≡ LoanStatus.active
  pub uncertified : l.noc_issued ≡ false
  pub on_chain : dvp_of_passport w l.passport_id ≡ some dvp_id
  pub nonzero : 0 < dvp_id

-- What a certificate may send, and how it is tracked.
abbrev pub MayCertify : World → ℕ → ℕ → ℕ → Call → (ℕ → ℕ → BlockchainTransaction) → Type 0
MayCertify w loan_db_id bank_entity member call row =
    (l : LoanRecord) × (dvp_id : ℕ) × IsServiced w loan_db_id bank_entity l dvp_id
    × (call ≡ Call.issue_noc dvp_id)
    × (row ≡ pending_loan_tx loan_clear loan_db_id bank_entity member)

abbrev pub MayRefinance :
    (Text → Option ℕ)
    → World
    → ℕ
    → Text
    → ℕ
    → ℕ
    → ℕ
    → Call
    → (ℕ → ℕ → BlockchainTransaction)
    → Type 0
MayRefinance parse_units w loan_db_id amount_text tenure bank_entity member call row =
    (l : LoanRecord) × (dvp_id : ℕ) × (amount : ℕ) × IsServiced w loan_db_id bank_entity l dvp_id
    × (parse_units amount_text ≡ some amount)
    × (call ≡ Call.refinance_loan dvp_id amount tenure)
    × (row ≡ pending_loan_tx loan_refinance loan_db_id bank_entity member)

abbrev pub MayWithdraw : World → ℕ → ℕ → ℕ → Call → (ℕ → ℕ → BlockchainTransaction) → Type 0
MayWithdraw w dvp_id bank_entity member call row =
    (l : LoanRecord) × (find? (is_pending_at w dvp_id bank_entity) w.loans ≡ some l)
    × (l.status ≡ LoanStatus.pending)
    × (l.lender_entity_id ≡ bank_entity)
    × (l.noc_issued ≡ false)
    × (dvp_of_passport w l.passport_id ≡ some dvp_id)
    × (call ≡ Call.cancel_pending_loan dvp_id)
    × (row ≡ pending_loan_tx loan_cancel_pending l.id bank_entity member)

module _ (node : Node) (w : World) (loan_db_id bank_entity member : ℕ) where
  -- Either a guard refuses, or the handler is its submission.
  noc_found :
      (l : LoanRecord) (s : LoanStatus) (d : Option ℕ)
      → find? (with_id loan_db_id) w.loans ≡ some l
      → l.status ≡ s
      → dvp_of_passport w l.passport_id ≡ d
      → ((dvp_id : ℕ) × IsServiced w loan_db_id bank_entity l dvp_id
          × (issue_noc node loan_db_id bank_entity member w
              ≡ submit_and_track node bank_entity bank
                  (Call.issue_noc dvp_id)
                  (pending_loan_tx loan_clear loan_db_id bank_entity member)
                  w))
        ⊎ Unchanged w (issue_noc node loan_db_id bank_entity member w)
  unfolding issue_noc
  noc_found l LoanStatus.pending d found is_s is_d = inr (ground arith)
  noc_found l LoanStatus.cleared d found is_s is_d = inr (ground arith)
  noc_found l LoanStatus.defaulted d found is_s is_d = inr (ground arith)
  noc_found l LoanStatus.active none found is_s is_d = inr (ground arith)
  noc_found l LoanStatus.active (some zero) found is_s is_d = inr (ground arith)
  noc_found l LoanStatus.active (some (suc n)) found is_s is_d =
      elim (Bool-cases (l.lender_entity_id == bank_entity)) [
        | inr foreign ↦ inr (ground arith)
        | inl own ↦ elim (Bool-cases l.noc_issued) [
          | inl certified ↦ inr (ground arith)
          | inr uncertified ↦ inl (suc n, ground arith, ground arith)
        ]
      ]

  -- `issueNoc` sends one `issueNOC` for the vehicle of a loan only if the loan is the bank's own,
  -- active, without a certificate, and its vehicle is known on-chain; it adds one pending
  -- LOAN_CLEAR row and leaves the loan as it is. A failure has changed nothing but, at most, sent
  -- such a call under a hash that some row already has.
  pub issue_noc-Sends :
      Sends w bank_entity
        (MayCertify w loan_db_id bank_entity member)
        (issue_noc node loan_db_id bank_entity member w)
  unfolding issue_noc
  issue_noc-Sends = elim (Option-cases (find? (with_id loan_db_id) w.loans)) [
    | inl missing ↦ Unchanged-Sends w bank_entity _ _ (ground arith)
    | inr (l, found) ↦
        elim (noc_found l l.status (dvp_of_passport w l.passport_id) found refl refl) [
          | inr refused ↦ Unchanged-Sends w bank_entity _ _ refused
          | inl (dvp_id, serviced, e) ↦
              submission-Sends w bank_entity _ node bank (Call.issue_noc dvp_id) _ _ (λ h i. refl)
                (l, dvp_id, serviced, refl, refl) e
        ]
  ]

  module _ (parse_units : Text → Option ℕ) (amount_text : Text) (tenure : ℕ) where
    refinance_found :
        (l : LoanRecord) (s : LoanStatus) (d a : Option ℕ)
        → find? (with_id loan_db_id) w.loans ≡ some l
        → l.status ≡ s
        → dvp_of_passport w l.passport_id ≡ d
        → parse_units amount_text ≡ a
        → let x =
            refinance_loan node parse_units loan_db_id amount_text tenure bank_entity member w in
          ((dvp_id : ℕ) × (amount : ℕ) × IsServiced w loan_db_id bank_entity l dvp_id
            × (parse_units amount_text ≡ some amount)
            × (x
                ≡ submit_and_track node bank_entity bank
                    (Call.refinance_loan dvp_id amount tenure)
                    (pending_loan_tx loan_refinance loan_db_id bank_entity member)
                    w))
          ⊎ Unchanged w x
    unfolding refinance_loan
    refinance_found l LoanStatus.pending d a found is_s is_d is_a = inr (ground arith)
    refinance_found l LoanStatus.cleared d a found is_s is_d is_a = inr (ground arith)
    refinance_found l LoanStatus.defaulted d a found is_s is_d is_a = inr (ground arith)
    refinance_found l LoanStatus.active none a found is_s is_d is_a = inr (ground arith)
    refinance_found l LoanStatus.active (some zero) a found is_s is_d is_a = inr (ground arith)
    refinance_found l LoanStatus.active (some (suc n)) none found is_s is_d is_a =
        inr (ground arith)
    refinance_found l LoanStatus.active (some (suc n)) (some v) found is_s is_d is_a =
        elim (Bool-cases (l.lender_entity_id == bank_entity)) [
          | inr foreign ↦ inr (ground arith)
          | inl own ↦ elim (Bool-cases l.noc_issued) [
            | inl certified ↦ inr (ground arith)
            | inr uncertified ↦ inl (suc n, v, ground arith, is_a, ground arith)
          ]
        ]

    -- `refinanceLoan` succeeds only for an active loan of this bank, without a certificate and on a
    -- vehicle that is known on-chain, and for an amount that parses. It then sends one
    -- `refinanceLoan` with the parsed amount and the tenure and adds one pending LOAN_REFINANCE row
    -- on the old loan, under a fresh hash, and leaves the loan as it is. A failure has changed
    -- nothing but, at most, sent such a call under a hash that some row already has.
    pub refinance_loan-Sends :
        Sends w bank_entity
          (MayRefinance parse_units w loan_db_id amount_text tenure bank_entity member)
          (refinance_loan node parse_units loan_db_id amount_text tenure bank_entity member w)
    unfolding refinance_loan
    refinance_loan-Sends = elim (Option-cases (find? (with_id loan_db_id) w.loans)) [
      | inl missing ↦ Unchanged-Sends w bank_entity _ _ (ground arith)
      | inr (l, found) ↦
          elim (refinance_found l l.status (dvp_of_passport w l.passport_id)
            (parse_units amount_text) found refl refl refl) [
              | inr refused ↦ Unchanged-Sends w bank_entity _ _ refused
              | inl (dvp_id, amount, serviced, parsed, e) ↦
                  submission-Sends w bank_entity _ node bank
                    (Call.refinance_loan dvp_id amount tenure) _ _ (λ h i. refl)
                    (l, dvp_id, amount, serviced, parsed, refl, refl) e
            ]
    ]

is_id→eq : (n : ℕ) (o : Option ℕ) → is_id n o ≡ true → o ≡ some n
is_id→eq n none h = cc
is_id→eq n (some m) h = ground (arith, h)

is_pending_at-holds :
    (w : World) (dvp_id bank_entity : ℕ) (l : LoanRecord)
    → is_pending_at w dvp_id bank_entity l ≡ true
    → (l.status ≡ LoanStatus.pending)
      × (l.lender_entity_id ≡ bank_entity)
      × (l.noc_issued ≡ false)
      × (dvp_of_passport w l.passport_id ≡ some dvp_id)
unfolding is_pending_at is_pending_on
is_pending_at-holds w dvp_id bank_entity l h = (
  ground arith,
  ground arith,
  ground arith,
  is_id→eq dvp_id (dvp_of_passport w l.passport_id) (ground arith),
)

module _ (node : Node) (w : World) (dvp_id bank_entity member : ℕ) where
  -- `cancelPendingLoan` succeeds only for a vehicle, known on-chain, on which this very bank has a
  -- pending loan without a certificate. It
  -- then sends one `cancelPendingLoan` and adds one pending LOAN_CANCEL_PENDING row on that loan,
  -- under a fresh hash, and leaves the loan as it is. A failure has changed nothing but, at most,
  -- sent such a call under a hash that some row already has.
  pub cancel_pending_loan-Sends :
      Sends w bank_entity
        (MayWithdraw w dvp_id bank_entity member)
        (cancel_pending_loan node dvp_id bank_entity member w)
  unfolding cancel_pending_loan
  cancel_pending_loan-Sends =
      elim (Option-cases (find? (is_pending_at w dvp_id bank_entity) w.loans)) [
        | inl missing ↦ Unchanged-Sends w bank_entity _ _ (ground arith)
        | inr (l, found) ↦
            let (pending, own, uncertified, on_vehicle) =
              is_pending_at-holds w dvp_id bank_entity l (find?-holds _ w.loans l found) in
            submission-Sends w bank_entity _ node bank (Call.cancel_pending_loan dvp_id)
              (pending_loan_tx loan_cancel_pending l.id bank_entity member) _ (λ h i. refl)
              (l, found, pending, own, uncertified, on_vehicle, refl, refl) (ground arith)
      ]
