-- ===== src/Loans/Bank/Register.antt =====
-- What `registerLoan` does, on every branch.
use vehicle_lifecycle_manage.Base.{
  ℕ, suc, ◌≡◌, ◌≢◌, ◌⊎◌, refl, sym, subst, inl, inr, Option, none, some, [], ◌∷◌, ◌++◌, true, false,
  arith, Bool-cases, Option-cases,
}
use vehicle_lifecycle_manage.Base.Text.{Text, to_lower}
use vehicle_lifecycle_manage.Domain.{bank, VehicleStatus, loan_reg}
use vehicle_lifecycle_manage.Domain.Failure.{Result, ok, err}
use vehicle_lifecycle_manage.Store.Rows.{VehiclePassport}
use vehicle_lifecycle_manage.Store.Table.{find?}
use vehicle_lifecycle_manage.Store.World.{Call, World, unique_violation}
use vehicle_lifecycle_manage.Chain.Manager.{Node, submit_or_400}
use vehicle_lifecycle_manage.Chain.Manager.Laws.{MayAct, submitted, Answers, submit_or_400-Answers}
use vehicle_lifecycle_manage.Chain.Tracking.{is_tracked, create_transaction}
use vehicle_lifecycle_manage.Chain.Tracking.Guarded.{Unchanged}
use vehicle_lifecycle_manage.Challan.Rows.{is_id}
use vehicle_lifecycle_manage.Challan.Police.{with_both}
use vehicle_lifecycle_manage.Loans.Rows.{is_scrapped, is_transfer_of}
use vehicle_lifecycle_manage.Loans.Bank.{
  pending_loan_tx, pending_loan, create_loan, create_pending_loan_tx, track_loan, check_free,
  register_loan,
}
use vehicle_lifecycle_manage.Loans.Bank.Free.{IsFree, check_free-cases}

module _ (dvp_id : ℕ) (borrower : Text) (tenure bank_entity member : ℕ) (w : World) where
  abbrev pub call_of : ℕ → Call
  call_of amount = Call.register_loan dvp_id borrower amount tenure

  -- The call is sent, and one loan and one row that tracks the call have been added.
  abbrev pub registered : VehiclePassport → ℕ → ℕ → World
  registered p amount hash = record (submitted bank_entity (call_of amount) hash w) {
    loans =
        w.loans
        ++ pending_loan p.id bank_entity (to_lower borrower) amount tenure member w.now w.next_id
          ∷ [];
    transactions =
        w.transactions
        ++ pending_loan_tx loan_reg w.next_id bank_entity member hash (suc w.next_id) ∷ [];
    next_id = suc (suc w.next_id);
  }

  abbrev pub Registers : (Text → Option ℕ) → Text → Result (ℕ × ℕ) × World → Type 0
  Registers parse_units amount_text (ok (id, hash), w') =
      (p : VehiclePassport) × (amount : ℕ) × (find? (λ (p : VehiclePassport). is_id dvp_id p.dvp_id)
          w.passports
        ≡ some p)
      × (p.status ≢ VehicleStatus.scrapped)
      × IsFree w p dvp_id borrower
      × (parse_units amount_text ≡ some amount)
      × MayAct w bank_entity
      × (is_tracked hash w ≡ false)
      × (id ≡ w.next_id)
      × (w' ≡ registered p amount hash)
  Registers parse_units amount_text (err e, w') =
      (w' ≡ w)
      ⊎ ((amount : ℕ) × (hash : ℕ) × (is_tracked hash w ≡ true)
          × (w' ≡ submitted bank_entity (call_of amount) hash w))

  module _ (p : VehiclePassport) (amount : ℕ) where
    tracks_new :
        (hash : ℕ)
        → is_tracked hash w ≡ false
        → create_pending_loan_tx p.id bank_entity
            (to_lower borrower)
            amount
            tenure
            member
            hash
            (submitted bank_entity (call_of amount) hash w)
          ≡ (ok w.next_id, registered p amount hash)
    unfolding create_pending_loan_tx create_loan create_transaction
    tracks_new hash fresh = ground arith

    tracks_known :
        (hash : ℕ)
        → is_tracked hash w ≡ true
        → create_pending_loan_tx p.id bank_entity
            (to_lower borrower)
            amount
            tenure
            member
            hash
            (submitted bank_entity (call_of amount) hash w)
          ≡ (err unique_violation, submitted bank_entity (call_of amount) hash w)
    unfolding create_pending_loan_tx create_loan create_transaction
    tracks_known hash known = ground arith

    track_loan-Registers :
        (parse_units : Text → Option ℕ) (amount_text : Text) (x : Result ℕ × World)
        → find? (λ (p : VehiclePassport). is_id dvp_id p.dvp_id) w.passports ≡ some p
        → p.status ≢ VehicleStatus.scrapped
        → IsFree w p dvp_id borrower
        → parse_units amount_text ≡ some amount
        → Answers w bank_entity (call_of amount) x
        → Registers parse_units amount_text
            (track_loan p.id bank_entity (to_lower borrower) amount tenure member x)
    unfolding track_loan
    track_loan-Registers parse_units amount_text (err e, v) found whole free parsed (same, _) =
        inl same
    track_loan-Registers parse_units amount_text (ok hash, v) found whole free parsed (may, done) =
        subst (λ v. Registers parse_units amount_text (with_both hash (created v))) (sym done)
          (elim (Bool-cases (is_tracked hash w)) [
            | inl known ↦ by_eq _ (tracks_known hash known) (inr (amount, hash, known, refl))
            | inr fresh ↦
                by_eq _ (tracks_new hash fresh)
                  (p, amount, found, whole, free, parsed, may, fresh, refl, refl)
          ])
      where
        created : World → Result ℕ × World
        created =
            create_pending_loan_tx p.id bank_entity (to_lower borrower) amount tenure member hash

        by_eq :
            (y : Result ℕ × World)
            → created (submitted bank_entity (call_of amount) hash w) ≡ y
            → Registers parse_units amount_text (with_both hash y)
            → Registers parse_units amount_text
                (with_both hash (created (submitted bank_entity (call_of amount) hash w)))
        by_eq y e t = subst (λ z. Registers parse_units amount_text (with_both hash z)) (sym e) t

  module _ (node : Node) (parse_units : Text → Option ℕ) (amount_text : Text) where
    abbrev outcome : Result (ℕ × ℕ) × World
    outcome = register_loan node parse_units dvp_id borrower amount_text tenure bank_entity member w

    passes :
        (p : VehiclePassport) (amount : ℕ)
        → find? (λ (p : VehiclePassport). is_id dvp_id p.dvp_id) w.passports ≡ some p
        → is_scrapped p.status ≡ false
        → check_free p dvp_id borrower (find? (is_transfer_of w dvp_id) w.transfers) w ≡ (ok tt, w)
        → parse_units amount_text ≡ some amount
        → outcome
          ≡ track_loan p.id bank_entity
              (to_lower borrower)
              amount
              tenure
              member
              (submit_or_400 node bank_entity bank (call_of amount) w)
    unfolding register_loan
    passes p amount found whole free parsed = ground arith

    unparsed :
        (p : VehiclePassport)
        → find? (λ (p : VehiclePassport). is_id dvp_id p.dvp_id) w.passports ≡ some p
        → is_scrapped p.status ≡ false
        → check_free p dvp_id borrower (find? (is_transfer_of w dvp_id) w.transfers) w ≡ (ok tt, w)
        → parse_units amount_text ≡ none
        → Unchanged w outcome
    unfolding register_loan
    unparsed p found whole free parsed = ground arith

    taken :
        (p : VehiclePassport) (x : Result (Unit {0}) × World)
        → find? (λ (p : VehiclePassport). is_id dvp_id p.dvp_id) w.passports ≡ some p
        → is_scrapped p.status ≡ false
        → check_free p dvp_id borrower (find? (is_transfer_of w dvp_id) w.transfers) w ≡ x
        → Unchanged w x
        → Unchanged w outcome
    unfolding register_loan
    taken p (ok _, v) found whole is_x h = elim h [ ]
    taken p (err e, v) found whole is_x h = ground arith

    scrapped :
        (p : VehiclePassport)
        → find? (λ (p : VehiclePassport). is_id dvp_id p.dvp_id) w.passports ≡ some p
        → is_scrapped p.status ≡ true
        → Unchanged w outcome
    unfolding register_loan
    scrapped p found gone = ground arith

    missing :
        find? (λ (p : VehiclePassport). is_id dvp_id p.dvp_id) w.passports ≡ none
        → Unchanged w outcome
    unfolding register_loan
    missing none_found = ground arith

    refused : (x : Result (ℕ × ℕ) × World) → Unchanged w x → Registers parse_units amount_text x
    refused (ok _, v) h = elim h [ ]
    refused (err e, v) h = inl h

    found_free :
        (p : VehiclePassport)
        → find? (λ (p : VehiclePassport). is_id dvp_id p.dvp_id) w.passports ≡ some p
        → is_scrapped p.status ≡ false
        → check_free p dvp_id borrower (find? (is_transfer_of w dvp_id) w.transfers) w ≡ (ok tt, w)
        → IsFree w p dvp_id borrower
        → Registers parse_units amount_text outcome
    found_free p found whole checked free = elim (Option-cases (parse_units amount_text)) [
      | inl none_parsed ↦ refused _ (unparsed p found whole checked none_parsed)
      | inr (amount, parsed) ↦
          subst (Registers parse_units amount_text)
            (sym (passes p amount found whole checked parsed))
            (track_loan-Registers p amount parse_units amount_text _ found
              (λ (e : p.status ≡ VehicleStatus.scrapped). ground arith) free parsed
              (submit_or_400-Answers node bank_entity bank (call_of amount) w))
    ]

    -- `registerLoan` succeeds only for a vehicle on record that is not scrapped and may be
    -- hypothecated (a vehicle in transfer has no pending loan; any other has no active or pending
    -- loan without a certificate, and if it is registered and an active ownership of it is on
    -- record, the wallet of that ownership is the borrower's, letter case aside), for an amount
    -- that parses and a bank that may act. It then sends one `registerLoan`, and adds one pending
    -- loan and one pending LOAN_REG row that refers to it, under a fresh hash. A failure has
    -- changed nothing but, at most, sent such a call under a hash that some row already has.
    pub register_loan-Registers : Registers parse_units amount_text outcome
    register_loan-Registers =
        elim (Option-cases (find? (λ (p : VehiclePassport). is_id dvp_id p.dvp_id) w.passports)) [
          | inl none_found ↦ refused _ (missing none_found)
          | inr (p, found) ↦ elim (Bool-cases (is_scrapped p.status)) [
            | inl gone ↦ refused _ (scrapped p found gone)
            | inr whole ↦
                elim (check_free-cases dvp_id borrower w p p.status
                  (find? (is_transfer_of w dvp_id) w.transfers) refl refl) [
                    | inl (checked, free) ↦ found_free p found whole checked free
                    | inr h ↦ refused _ (taken p _ found whole refl h)
                  ]
          ]
        ]
